-- ===== src/Lib.antt =====
-- libpeer: the peer connection of WebRTC, its media path and RTCP feedback, its data channels over SCTP,
-- its Base64 codec, and the connectivity checks of its ICE agent over STUN.
--
-- A sender hands a temporal unit of AV1 to rtp_encoder_encode_av1 (src/rtp.c), which splits it into OBU
-- elements, packs them into RTP packets and gives each to its callback. A receiver puts each packet
-- through rtp_decode_av1, which holds back what arrives early and passes packets on in order to
-- av1_depay_packet, which joins the fragments, restores the size fields and delivers temporal units.
--
-- Before media flows, the ICE agent (src/agent.c) pairs its candidates with those of the peer, nominates one
-- pair after the other and sends STUN binding requests (src/stun.c) to the remote candidate, until one is
-- answered under the password of the peer; it answers requests under its own.
--
-- The peer connection (src/peer_connection.c) is a state machine that is driven by peer_connection_loop:
-- the agent's checks lead it to CONNECTED, the DTLS handshake to COMPLETED. Then each datagram that
-- agent_recv leaves goes, by its first bytes, to RTCP, through DTLS to SCTP (src/sctp.c), or through SRTP to
-- the decoder of its SSRC.
--
-- The files:
--   Base      lists, bytes, words and bit operations over the native numbers.
--             Base.Memory is memcpy on byte arrays, where `none` is an access outside of the array.
--             Base.Holds is what is known of a result along a chain of such steps.
--   Address   struct Address, addr_set_family and addr_set_port of src/address.c.
--   Stun      struct StunMessage and stun_msg_create: Stun.Message; the XOR addresses: Stun.Mapped;
--             stun_calculate_fingerprint: Stun.Fingerprint; stun_msg_write_attr and stun_msg_finish:
--             Stun.Write; stun_parse_msg_buf and stun_probe: Stun.Parse; stun_msg_is_valid: Stun.Valid. The
--             other files below Stun hold proofs: Stun.Written says what a message looks like, Append,
--             Finish, Build and Sealed what writing leaves, Read, Parsed and Accept what reading finds.
--   Ice       ice_candidate_create and the priorities of src/ice.c.
--   Agent     struct Agent: Agent.State; the binding requests and responses: Agent.Messages; agent_recv and
--             the two agent_process functions: Agent.Receive; agent_update_candidate_pairs and
--             agent_select_candidate_pair: Agent.Pairs; agent_connectivity_check and
--             agent_send_consent_request: Agent.Check. Agent.Handshake, Completes and GiveUp hold proofs.
--   H264      rtp_encoder_encode_h264, its two packetizers and h264_find_nalu: H264.Encode; rtp_decode_h264:
--             H264.Decode. H264.RoundTrip is about the fragments of one unit, H264.Stream about all units,
--             H264.Split about the byte streams of Annex B.
--   Leb128    av1_leb128_size, av1_leb128_write, av1_leb128_read: Leb128.Equations.
--   Rtp       struct RtpHeader as bytes, rtp_packet_validate, rtp_get_ssrc: Rtp.Header; struct RtpEncoder,
--             rtp_encoder_init, rtp_encoder_set_timestamp, rtp_encoder_encode_generic: Rtp.Encoder;
--             rtp_decoder_init and rtp_decode_generic: Rtp.Decoder; rtp_encoder_encode and
--             rtp_decoder_decode: Rtp.Dispatch; the way of an audio frame: Rtp.Audio.
--   Rtcp      rtcp_probe, rtcp_get_pli, rtcp_get_fir of src/rtcp.c, and how they go with
--             rtp_packet_validate: Rtcp.Demux.
--   Sctp      crc32c: Sctp.Checksum; struct Sctp and the bytes of headers and chunks: Sctp.State;
--             sctp_outgoing_data and sctp_create_association: Sctp.Send; sctp_incoming_data:
--             Sctp.Receive; the stream table, sctp_handle_sctp_packet and the functions of
--             src/peer_connection.c for data channels: Sctp.Streams. Sctp.Sum, Wire, Answer, Data,
--             Fragments, Arrive, Places and Labels say what becomes of one packet or step; Transfer,
--             Handshake, Rounds, Endless and Channels hold the results.
--   Peer      struct PeerConnection and STATE_CHANGED: Peer.State; peer_connection_create: Peer.Create;
--             peer_connection_incoming_rtcp: Peer.Feedback; peer_connection_loop, peer_connection_close
--             and the functions that send media: Peer.Loop. Calls is any sequence of calls; History,
--             Transitions and Runs are about the states; Compound is about RTCP that arrives; Keepalive, Media
--             and AudioPath are about an audio frame that does.
--   Base64    base64_encode and base64_decode of src/base64.c.
--   Av1       av1_parse_temporal_unit: Av1.Obu; rtp_encoder_encode_av1 and av1_element_copy:
--             Av1.Packetize; struct Av1Depacketizer, av1_depay_reset, av1_depay_close_obu and
--             av1_depay_packet: Av1.Depay; struct Av1Reorder, av1_reorder_release, av1_reorder_drain,
--             av1_reorder_flush and rtp_decode_av1: Av1.Reorder. The other files below Av1 hold proofs.
--
-- How state corresponds: a C function becomes a function from the state before to the state after. What a
-- callback is given is part of the result, in order. A buffer with a length is the list of its valid
-- bytes; that its size is kept to is proved where the source checks it. A `static` object is an argument
-- and a part of the result. An error return is `none`, `minus_one` or `error`.
--
-- Parameters: the code and the digest of mbedtls that utils.c calls, hmac_sha1 and md5, are functions on
-- bytes, of which only the length of the code is assumed. A local variable that the source reads before it
-- assigns it is an argument, `uninitialized` or a field of Locals. What a socket receives is an argument, what
-- is sent is a result; the random tie breaker and the time are arguments. What src/dtls_srtp.c does with
-- mbedtls and libsrtp, the handshake, the data read and the two functions that decrypt, is the record Dtls.
--
-- Machine integers: the sequence numbers wrap at 2 ^ 16 and the timestamps at 2 ^ 32, written out; the
-- int16_t difference of the reorder buffer is the 16 bits of the difference. A size_t is a number without
-- a bound: the largest value that av1_leb128_read gives is below 2 ^ 56, and no sum of sizes reaches 2 ^ 64.
--
-- Fuel: av1_parse_temporal_unit and the element loop of av1_depay_packet have the number of bytes, the
-- packet loop of the AV1 encoder the total length of the elements, the loops of the H.264 encoder their
-- number of bytes, av1_reorder_drain the number of slots, stun_parse_msg_buf the length in the header. Each
-- round consumes at least one of these, and the results below include that the fuel does not run out. The
-- loop of sctp_incoming_data may not end: it is run for a number of rounds that is given, and the peer
-- connection, which gives the length of the packet, has no result where it goes on after them.
--
-- Configuration: config.h with its defaults, but for SCTP, which is modelled as the library has it of its own,
-- with CONFIG_USE_USRSCTP 0.
--
-- Not modelled: log output, the callbacks themselves, and the big-endian layout of the headers. The
-- candidate lines and the gathering of candidates, the texts of the session descriptions, SDP and mDNS are
-- not part of this library; sockets, DTLS, TLS, usrsctp and signaling call libraries that are not part of
-- the repository.
pub mod Address
pub mod Agent
pub mod Av1
pub mod Base
pub mod Base64
pub mod H264
pub mod Ice
pub mod Leb128
pub mod Peer
pub mod Rtcp
pub mod Rtp
pub mod Sctp
pub mod Stun
