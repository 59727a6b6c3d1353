-- ===== src/Peer/Tests.antt =====
-- Two peer connections to try src/peer_connection.c on.
use libpeer.Base.{
  ℕ, ◌+◌, ◌%◌, ◌-◌, ◌≡◌, refl, true, false, some, List, [], ◌∷◌, ◌++◌, length, replicate, arith,
}
use libpeer.Agent.Receive.{recv_datagram, recv_timeout}
use libpeer.Agent.Tests.{endpoint, blank, stack, caller}
use libpeer.Rtp.Encoder.{RtpEncoder, encode_generic}
use libpeer.Rtp.Decoder.{decode_generic}
use libpeer.Sctp.Tests.{idle_end}
use libpeer.Peer.State.{peer_closed, peer_completed, channel_none, PeerConnection, Dtls, Inputs}
use libpeer.Peer.Feedback.{peer_connection_incoming_rtcp}
use libpeer.Rtcp.{rtcp_get_pli, rtcp_get_fir}
use libpeer.Peer.Compound.{
  compound, Requests, nothing, other_type, peer_connection_incoming_rtcp-compound,
  peer_connection_incoming_rtcp_feedback,
}
use libpeer.Peer.Media.{next_front}

-- A receiver report and a PLI.
abbrev report : List ℕ
report = 0x80 ∷ 201 ∷ 0 ∷ 1 ∷ replicate 4 9

abbrev loss : List ℕ
loss = 0x81 ∷ 206 ∷ 0 ∷ 2 ∷ replicate 8 9

peer_connection_incoming_rtcp-compound_example :
    peer_connection_incoming_rtcp true
      (compound (report ∷ loss ∷ []) ++ (7 ∷ []))
      (length (compound (report ∷ loss ∷ [])))
    ≡ some 1
peer_connection_incoming_rtcp-compound_example =
    peer_connection_incoming_rtcp-compound (report ∷ loss ∷ []) 1 (7 ∷ []) (
      other_type 0x80 201 0 1 (replicate 4 9) (λ e. absurd (omega (arith, e))) refl
        (Requests.pli 4 0 2 (replicate 8 9) refl nothing))

peer_connection_incoming_rtcp_feedback_example :
    (pli fir : List ℕ) × (rtcp_get_pli 12 0x01020304 ≡ some pli)
    × (rtcp_get_fir 20 255 ≡ some (fir, (255 + 1) % 256))
    × (peer_connection_incoming_rtcp true (pli ++ (fir ++ (7 ∷ []))) 32 ≡ some 2)
peer_connection_incoming_rtcp_feedback_example =
    peer_connection_incoming_rtcp_feedback 0x01020304 255 (7 ∷ []) (omega arith)

abbrev pub opus : RtpEncoder
opus = record {
  type = 111;
  encode_func = encode_generic;
  seq_number = 65535;
  ssrc = 6;
  timestamp = 0xffffffff;
  timestamp_increment = 960;
}

-- A new connection, which the caller of the agents' tests belongs to.
abbrev pub created : PeerConnection
created = record {
  state = peer_closed;
  onstate = true;
  on_request_keyframe = true;
  datachannel = channel_none;
  agent = caller;
  sctp = idle_end;
  artp_encoder = opus;
  vrtp_encoder = opus;
  artp_decoder = decode_generic;
  vrtp_decoder = decode_generic;
  statics = record {
    nalu = [];
    av1 = record {
      reorder = record { slots = replicate 4 []; expect = 0; started = false };
      depay = record {
        tu = [];
        obu = [];
        obu_open = false;
        next_seq = 0;
        have_seq = false;
        dropping = false;
        started = false;
      };
    };
  };
  remote_assrc = 6;
  remote_vssrc = 2;
  consent_request_time = 0;
}

-- Decryption that takes a tag of ten bytes away.
abbrev pub plain_dtls : Dtls
plain_dtls = record {
  handshake = λ agent. (true, agent);
  read = λ bytes. [];
  decrypt_rtp = λ mem n. (true, mem, n - 10);
  decrypt_rtcp = λ mem n. (mem, n - 10);
}

abbrev pub at_twenty : Inputs
at_twenty = record {
  received = recv_timeout;
  locals = stack;
  msg = blank;
  tie_breaker = replicate 8 5;
  checked_at = 20;
  asked_at = 20;
  stun_at = 20;
  arrived_at = 20;
  ended_at = 20000;
}

abbrev pub completed : PeerConnection
completed = record created { state = peer_completed }

abbrev opus_frame : List ℕ
opus_frame = 0xfc ∷ 0xff ∷ 0xfe ∷ []

abbrev protected_frame : List ℕ
protected_frame = (next_front opus ++ opus_frame) ++ replicate 10 77

abbrev at_arrival : Inputs
at_arrival = record at_twenty { received = recv_datagram endpoint protected_frame; ended_at = 21 }
