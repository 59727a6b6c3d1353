-- ===== src/Peer/Media.antt =====
-- An audio frame from peer_connection_send_audio of one peer to onaudiotrack of the other
-- (src/peer_connection.c).
use libpeer.Base.{
  ℕ, suc, ◌-◌, ◌≤◌, ◌≡◌, ◌≢◌, refl, sym, ◌∙◌, ◌==◌, ◌&&◌, ltb, leb, not, true, false, some, List,
  [], ◌∷◌, ◌++◌, arith, eq→==, length, take, replicate,
}
use libpeer.Base.Word.{read32-be32}
use libpeer.Address.{Address}
use libpeer.Agent.State.{Agent}
use libpeer.Agent.Receive.{recv_datagram, Locals, agent_recv}
use libpeer.Stun.Message.{magic_cookie}
use libpeer.Stun.Parse.{stun_probe}
use libpeer.Rtp.Header.{header_bytes, rtp_packet_validate, rtp_get_ssrc, payload_type}
use libpeer.Rtp.Encoder.{RtpEncoder, EncodeFunc, encode_generic, ok, next_header}
use libpeer.Rtp.Decoder.{DecodeFunc, decode_generic, rtp_decode_generic}
use libpeer.Rtp.Dispatch.{encode_with, rtp_encoder_encode, rtp_decoder_decode}
use libpeer.Rtp.Audio.{IsEncoder, advanced, encode_generic-some}
use libpeer.Rtcp.{answer, rtcp_probe}
use libpeer.Peer.State.{PeerConnectionState, peer_completed, PeerConnection, rtp, audio}
use libpeer.Peer.Loop.{is_completed, peer_connection_send_audio, dtls_srtp_probe, incoming_rtp}

-- The header of the packet that an encoder sends next.
abbrev pub next_front : RtpEncoder → List ℕ
next_front encoder = header_bytes (next_header encoder false)

encode_with_generic :
    (func : EncodeFunc) (encoder : RtpEncoder) (frame : List ℕ)
    → func ≡ encode_generic
    → length frame ≤ 1416
    → encode_with func encoder frame
      ≡ some
          (ok, record { encoder = advanced encoder; packets = (next_front encoder ++ frame) ∷ [] })
unfolding encode_with
encode_with_generic func encoder frame e small =
    let encoded = encode_generic-some encoder frame small in rw (e, encoded) refl

completed_true :
    (state : PeerConnectionState) → state ≡ peer_completed → not (is_completed state) ≡ false
unfolding is_completed
completed_true state e = rw e refl

pub send_audio_by :
    (pc : PeerConnection) (frame : List ℕ)
    → pc.state ≡ peer_completed
    → pc.artp_encoder.encode_func ≡ encode_generic
    → length frame ≤ 1416
    → peer_connection_send_audio pc frame
      ≡ some (
        record pc { artp_encoder = advanced pc.artp_encoder },
        rtp (next_front pc.artp_encoder ++ frame) ∷ [],
        ok,
      )
unfolding peer_connection_send_audio rtp_encoder_encode
send_audio_by pc frame now kind small =
    let up = completed_true pc.state now in
    let encoded =
      encode_with_generic pc.artp_encoder.encode_func pc.artp_encoder frame kind small in
    rw (up, encoded) refl

rtcp_probe_by :
    (packet : List ℕ)
    → ltb (length packet) 8 ≡ false
    → (leb 64 (payload_type packet) && ltb (payload_type packet) 96) ≡ false
    → rtcp_probe packet ≡ answer false
unfolding rtcp_probe
rtcp_probe_by packet e1 e2 = rw (e1, e2) refl

-- A protected packet, which begins like the packet itself, is not taken for STUN, RTCP or DTLS.
module _ (encoder : RtpEncoder) (v : IsEncoder encoder) (rest : List ℕ) where
  pub front_probe :
      (tail : List ℕ)
      → encoder.timestamp ≢ magic_cookie
      → stun_probe (next_front encoder ++ tail) 2048 ≡ false
  unfolding stun_probe header_bytes next_header
  front_probe tail other =
      let same = read32-be32 encoder.timestamp v.time in rw same (ground (arith, other))

  pub front_rtcp : rtcp_probe (next_front encoder ++ rest) ≡ answer false
  unfolding header_bytes next_header payload_type
  front_rtcp =
      rtcp_probe_by (next_front encoder ++ rest) (ground arith)
        (ground (arith, v.type_fits, v.type_apart))

  pub front_dtls : (tail : List ℕ) → dtls_srtp_probe (next_front encoder ++ tail) ≡ false
  unfolding dtls_srtp_probe header_bytes next_header
  front_dtls tail = refl

  pub front_validate : rtp_packet_validate (next_front encoder ++ rest) ≡ true
  unfolding rtp_packet_validate header_bytes next_header payload_type
  front_validate = ground (arith, v.type_fits, v.type_apart)

pub agent_recv_by :
    (md5 : List ℕ → List ℕ) (hmac_sha1 : List ℕ → List ℕ → List ℕ) (locals : Locals) (now : ℕ)
    (agent : Agent) (addr : Address) (bytes : List ℕ) (len size : ℕ)
    → take len bytes ≡ bytes
    → length bytes ≡ suc size
    → stun_probe (bytes ++ replicate (len - length bytes) 0) len ≡ false
    → agent_recv md5 hmac_sha1 locals now agent (recv_datagram addr bytes) len
      ≡ some (record { agent = agent; sent = []; ret = some (suc size) })
unfolding agent_recv
agent_recv_by md5 hmac_sha1 locals now agent addr bytes len size e1 e2 e3 =
    let some_bytes : (suc size == 0) ≡ false = ground arith in
    let probed : stun_probe (bytes ++ replicate (len - suc size) 0) len ≡ false = rw e2 at e3 in
    rw (e1, e2, some_bytes, probed) refl

pub incoming_rtp_by :
    (pc : PeerConnection) (packet frame : List ℕ) (size ssrc : ℕ)
    → rtp_get_ssrc packet ≡ ssrc
    → pc.remote_assrc ≡ ssrc
    → pc.artp_decoder ≡ decode_generic
    → ltb (length packet) 12 ≡ false
    → rtp_decode_generic packet ≡ (frame, size)
    → incoming_rtp pc packet ≡ some (pc, audio frame ∷ [])
unfolding incoming_rtp
incoming_rtp_by pc packet frame size ssrc e1 e2 e3 e4 e5 =
    let mine : (rtp_get_ssrc packet == pc.remote_assrc) ≡ true = eq→== _ _ (e1 ∙ sym e2) in
    let decoded = decoded_by pc.artp_decoder e3 in rw (mine, decoded) refl
  where
    decoded_by :
        (func : DecodeFunc)
        → func ≡ decode_generic
        → rtp_decoder_decode func pc.statics packet ≡ some (pc.statics, frame ∷ [])
    decoded_by func e = rw e (unfold rtp_decoder_decode in rw (e4, e5) refl)
