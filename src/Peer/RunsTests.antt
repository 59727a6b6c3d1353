-- ===== src/Peer/RunsTests.antt =====
-- A connection on its way from peer_connection_create to COMPLETED (src/peer_connection.c).
use libpeer.Base.{◌≡◌, refl, true, some, [], ◌∷◌, ◌++◌, take, replicate, arith}
use libpeer.Agent.State.{Agent, IceCandidatePair, frozen}
use libpeer.Agent.Receive.{recv_datagram, agent_recv}
use libpeer.Agent.Completes.{connected, agent_recv_handshake}
use libpeer.Agent.Pairs.{
  agent_select_candidate_pair, agent_update_candidate_pairs, add_locals, select_loop, visit, choose,
}
use libpeer.Agent.Check.{agent_connectivity_check, is_inprogress, is_succeeded}
use libpeer.Agent.Tests.{
  endpoint, endpoint6, blank, stack, stack-IsLocals, pair, caller, callee, code, short_name,
}
use libpeer.Stun.Message.{StunMessage}
use libpeer.Stun.Write.{c_string}
use libpeer.Rtp.Encoder.{codec_opus, codec_none, rtp_encoder_init}
use libpeer.Rtp.Dispatch.{Statics}
use libpeer.Rtp.Decoder.{DecodeFunc, decode_generic, rtp_decoder_init}
use libpeer.Peer.State.{
  peer_checking, peer_connected, peer_completed, channel_none, PeerConnection, notified, Inputs,
  state_number, state_changed,
}
use libpeer.Peer.Loop.{
  peer_connection_loop, loop_in, loop_checking, loop_connected, begin_checking, is_zero,
  has_channel,
}
use libpeer.Peer.History.{notices}
use libpeer.Peer.Calls.{Run, watched, looped, checked}
use libpeer.Peer.Runs.{EndsWith, peer_connection_completed}
use libpeer.Peer.Create.{
  PeerConfiguration, zero_sctp, zero_encoder, peer_connection_create,
  peer_connection_oniceconnectionstatechange,
}
use libpeer.Peer.Tests.{opus, created, plain_dtls, at_twenty}

-- The caller after agent_select_candidate_pair, which counts the check.
abbrev counted : IceCandidatePair
counted = record pair { conncheck = 1 }

abbrev picked : Agent
picked = record caller {
  candidate_pairs = counted ∷ record pair { state = frozen; remote = 1 } ∷ [];
}

abbrev answered_by : StunMessage → Inputs
answered_by reply = record at_twenty {
  received = recv_datagram endpoint6 (take reply.size reply.buf);
  stun_at = 10;
}

abbrev opus_only : PeerConfiguration
opus_only = record {
  audio_codec = codec_opus;
  video_codec = codec_none;
  datachannel = channel_none;
  on_request_keyframe = true;
}

abbrev no_statics : Statics
no_statics = created.statics

-- The caller's connection with its callback.
abbrev fresh : PeerConnection
fresh = record created {
  sctp = zero_sctp;
  artp_encoder = record opus { seq_number = 0; timestamp = 0 };
  vrtp_encoder = zero_encoder;
  artp_decoder = decode_generic;
  vrtp_decoder = DecodeFunc.unset;
  remote_assrc = 0;
  remote_vssrc = 0;
  consent_request_time = 0;
}

fresh_lem :
    peer_connection_oniceconnectionstatechange
      (peer_connection_create opus_only caller no_statics)
      true
    ≡ fresh
unfolding peer_connection_oniceconnectionstatechange peer_connection_create rtp_encoder_init
    rtp_decoder_init
fresh_lem = refl

fresh_checking :
    begin_checking fresh
    ≡ some (record fresh { state = peer_checking }, notified peer_checking ∷ [])
unfolding begin_checking agent_update_candidate_pairs add_locals state_changed state_number
fresh_checking = refl

checking_connected :
    (reply : StunMessage)
    → agent_recv
        (λ key. key)
        code
        stack
        10
        picked
        (recv_datagram endpoint6 (take reply.size reply.buf))
        1400
      ≡ some (record { agent = connected picked 10 0 counted; sent = []; ret = some 0 })
    → peer_connection_loop plain_dtls
        (λ key. key)
        code
        (answered_by reply)
        (record fresh { state = peer_checking })
      ≡ some (
        record fresh {
          state = peer_connected;
          agent = record (connected picked 10 0 counted) { selected_pair = some 0 };
        },
        notified peer_connected ∷ [],
      )
unfolding peer_connection_loop loop_in loop_checking agent_select_candidate_pair select_loop visit
    choose agent_connectivity_check is_inprogress is_succeeded is_zero state_changed state_number
checking_connected reply e = rw e refl

connected_completed :
    (agent : Agent)
    → peer_connection_loop plain_dtls
        (λ key. key)
        code
        at_twenty
        (record fresh { state = peer_connected; agent = agent })
      ≡ some (record fresh { state = peer_completed; agent = agent }, notified peer_completed ∷ [])
unfolding peer_connection_loop loop_in loop_connected has_channel state_changed state_number
connected_completed agent = refl

-- The connection is completed with the callee's response.
peer_connection_completed_example :
    EndsWith
      (notices (
        []
        ++ (notified peer_checking ∷ [])
        ++ (notified peer_connected ∷ [])
        ++ (notified peer_completed ∷ [])))
      (peer_checking ∷ peer_connected ∷ peer_completed ∷ [])
unfolding c_string
peer_connection_completed_example =
    let (request, reply, e1, e2, e3) =
      agent_recv_handshake (λ key. key) code (λ key message. refl) picked callee stack stack blank
        (replicate 8 5) 0 1400 10 11 counted endpoint endpoint6 stack-IsLocals stack-IsLocals refl
        refl refl refl short_name short_name (record { four = refl; sixteen = refl })
        (omega arith) in
    let begun : Run (λ key. key) code fresh [] =
      rw (← fresh_lem) (watched true (Run.created opus_only caller no_statics)) in
    peer_connection_completed (λ key. key) code _ _
      (looped plain_dtls at_twenty
        (looped plain_dtls (answered_by reply) (checked begun fresh_checking)
          (checking_connected reply e3))
        (connected_completed _))
      refl
