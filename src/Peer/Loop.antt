-- ===== src/Peer/Loop.antt =====
-- peer_connection_loop and the calls that send (src/peer_connection.c).
use libpeer.Base.{
  ℕ, zero, suc, ◌-◌, ◌==◌, ltb, not, if◌then◌else◌, Bool, true, false, Option, none, some, List, [],
  ◌∷◌, ◌++◌, map, length, take, replicate, get_or,
}
use libpeer.Base.Memory.{◌>>=◌}
use libpeer.Agent.Receive.{Received, recv_error, recv_timeout, recv_datagram, agent_recv}
use libpeer.Agent.Pairs.{agent_select_candidate_pair, agent_update_candidate_pairs}
use libpeer.Agent.Check.{agent_connectivity_check, agent_send_consent_request}
use libpeer.Rtp.Header.{rtp_packet_validate, rtp_get_ssrc}
use libpeer.Rtp.Encoder.{Status, error, rtp_encoder_set_timestamp}
use libpeer.Rtp.Dispatch.{rtp_encoder_encode, rtp_decoder_decode}
use libpeer.Rtcp.{Probed, too_short, answer, rtcp_probe}
use libpeer.Sctp.Send.{sctp_create_association}
use libpeer.Sctp.Receive.{goes_on, sctp_incoming_data}
use libpeer.Peer.Feedback.{peer_connection_incoming_rtcp}
use libpeer.Peer.State.{
  PeerConnectionState, peer_closed, peer_checking, peer_connected, peer_completed, peer_failed,
  DataChannelType, channel_none, PeerConnection, PeerEvent, datagram, rtp, channel, keyframe, audio,
  video, Dtls, Inputs, consent_interval, keepalive_timeout, agent_buf_size, elapsed, state_changed,
}

-- peer_connection_close
unfoldable pub peer_connection_close : PeerConnection → PeerConnection
peer_connection_close pc = record pc { state = peer_closed }

unfoldable pub is_completed : PeerConnectionState → Bool
is_completed peer_completed = true
is_completed _ = false

-- peer_connection_send_audio: its value is `error` for -1, and the packets go to
-- peer_connection_outgoing_rtp_packet.
unfoldable pub peer_connection_send_audio :
    PeerConnection → List ℕ → Option (PeerConnection × (List PeerEvent) × Status)
peer_connection_send_audio pc buf =
    if not (is_completed pc.state) then some (pc, [], error) else (do
      encoded ← rtp_encoder_encode pc.artp_encoder buf
      some (record pc { artp_encoder = encoded.1.encoder }, map rtp encoded.1.packets, encoded.0))

-- peer_connection_send_video
unfoldable pub peer_connection_send_video :
    PeerConnection → List ℕ → Option (PeerConnection × (List PeerEvent) × Status)
peer_connection_send_video pc buf =
    if not (is_completed pc.state) then some (pc, [], error) else (do
      encoded ← rtp_encoder_encode pc.vrtp_encoder buf
      some (record pc { vrtp_encoder = encoded.1.encoder }, map rtp encoded.1.packets, encoded.0))

-- peer_connection_send_video_ts
unfoldable pub peer_connection_send_video_ts :
    PeerConnection → List ℕ → ℕ → Option (PeerConnection × (List PeerEvent) × Status)
peer_connection_send_video_ts pc buf rtp_timestamp =
    if not (is_completed pc.state) then some (pc, [], error) else (do
      encoded ← rtp_encoder_encode (rtp_encoder_set_timestamp pc.vrtp_encoder rtp_timestamp) buf
      some (record pc { vrtp_encoder = encoded.1.encoder }, map rtp encoded.1.packets, encoded.0))

-- How peer_connection_set_remote_description, with an answer that is not an update, and
-- peer_connection_create_answer end.
unfoldable pub begin_checking : PeerConnection → Option (PeerConnection × List PeerEvent)
begin_checking pc = do
  agent' ← agent_update_candidate_pairs pc.agent
  some (state_changed (record pc { agent = agent' }) peer_checking)

-- The answer of rtcp_probe as a condition: -1 counts as true.
unfoldable pub taken_for_rtcp : Probed → Bool
taken_for_rtcp too_short = true
taken_for_rtcp (answer yes') = yes'

unfoldable pub has_channel : DataChannelType → Bool
has_channel channel_none = false
has_channel _ = true

unfoldable pub is_zero : Option ℕ → Bool
is_zero (some zero) = true
is_zero _ = false

-- The bytes of a datagram, in the buffer that was cleared before.
unfoldable pub agent_buf : Received → List ℕ
agent_buf recv_error = replicate agent_buf_size 0
agent_buf recv_timeout = replicate agent_buf_size 0
agent_buf (recv_datagram addr bytes) =
    let got = take agent_buf_size bytes in got ++ replicate (agent_buf_size - length got) 0

-- dtls_srtp_probe (src/dtls_srtp.c)
unfoldable pub dtls_srtp_probe : List ℕ → Bool
dtls_srtp_probe buf = get_or buf 0 0 == 23

-- What sctp_incoming_data leaves, where it returns.
unfoldable pub incoming_channel : PeerConnection → List ℕ → Option (PeerConnection × List PeerEvent)
incoming_channel pc plain =
    let len = length plain in
    if len == 0 then some (pc, []) else (do
      incoming ← sctp_incoming_data len pc.sctp (plain ++ replicate (agent_buf_size - len) 0) len
      if goes_on len incoming
          then none
          else some (record pc { sctp = incoming.sctp }, map channel incoming.events))

-- A decrypted RTP packet goes to the decoder of its SSRC.
unfoldable pub incoming_rtp : PeerConnection → List ℕ → Option (PeerConnection × List PeerEvent)
incoming_rtp pc packet =
    let ssrc = rtp_get_ssrc packet in
    if ssrc == pc.remote_assrc
    then (do
      decoded ← rtp_decoder_decode pc.artp_decoder pc.statics packet
      some (record pc { statics = decoded.0 }, map audio decoded.1))
    else if ssrc == pc.remote_vssrc
    then (do
      decoded ← rtp_decoder_decode pc.vrtp_decoder pc.statics packet
      some (record pc { statics = decoded.0 }, map video decoded.1))
    else some (pc, [])

module _ (dtls : Dtls) where
  -- What the loop does with the `len` bytes that agent_recv has left in agent_buf.
  unfoldable pub dispatch : PeerConnection → List ℕ → ℕ → Option (PeerConnection × List PeerEvent)
  dispatch pc buf len =
      if taken_for_rtcp (rtcp_probe (take len buf))
      then (do
        let decrypted = dtls.decrypt_rtcp buf len
        calls ← peer_connection_incoming_rtcp pc.on_request_keyframe decrypted.0 decrypted.1
        some (pc, replicate calls keyframe))
      else if dtls_srtp_probe buf
      then incoming_channel pc (dtls.read (take len buf))
      else if rtp_packet_validate (take len buf)
      then (do
        let decrypted = dtls.decrypt_rtp buf len
        if decrypted.0 then incoming_rtp pc (take decrypted.2 decrypted.1) else some (pc, []))
      else some (pc, [])

  module _ (md5 : List ℕ → List ℕ) (hmac_sha1 : List ℕ → List ℕ → List ℕ) where
    -- case PEER_CONNECTION_CHECKING
    unfoldable pub loop_checking :
        Inputs → PeerConnection → Option (PeerConnection × List PeerEvent)
    loop_checking inputs pc = do
      selected ← agent_select_candidate_pair pc.agent
      let picked = record pc { agent = selected.0 }
      if not selected.1 then some (state_changed picked peer_failed) else (do
        outcome ←
            agent_connectivity_check md5 hmac_sha1 inputs.locals inputs.stun_at inputs.msg
              inputs.tie_breaker selected.0 inputs.received
        let checked = record pc { agent = outcome.agent }
        let (pc', events) =
            if is_zero outcome.ret then state_changed checked peer_connected else (checked, [])
        some (pc', map datagram outcome.sent ++ events))

    -- case PEER_CONNECTION_CONNECTED
    unfoldable pub loop_connected : PeerConnection → Option (PeerConnection × List PeerEvent)
    loop_connected pc =
        let shaken = dtls.handshake pc.agent in
        let pc1 = record pc { agent = shaken.1 } in
        if not shaken.0
        then some (pc1, [])
        else if has_channel pc.datachannel
        then (do
          created ← sctp_create_association pc.sctp
          let (pc', events) = state_changed (record pc1 { sctp = created.0 }) peer_completed
          some (pc', channel created.1 ∷ events))
        else some (state_changed pc1 peer_completed)

    -- The consent check of case PEER_CONNECTION_COMPLETED
    unfoldable pub loop_consent : Inputs → PeerConnection → Option (PeerConnection × List PeerEvent)
    loop_consent inputs pc =
        if ltb consent_interval (elapsed inputs.checked_at pc.consent_request_time)
        then (do
          request ← agent_send_consent_request md5 hmac_sha1 inputs.msg inputs.tie_breaker pc.agent
          some (
            record pc { consent_request_time = inputs.asked_at },
            elim request [ none ↦ [] | some sent ↦ datagram sent ∷ [] ],
          ))
        else some (pc, [])

    -- What follows agent_recv, by its value; `sent` is what it has sent.
    unfoldable pub take_datagram :
        Inputs
        → PeerConnection
        → List PeerEvent
        → Option ℕ
        → Option (PeerConnection × List PeerEvent)
    take_datagram inputs pc sent none = some (pc, sent)
    take_datagram inputs pc sent (some zero) = some (pc, sent)
    take_datagram inputs pc sent (some (suc n)) = do
      let noted = record pc { agent = record pc.agent { binding_request_time = inputs.arrived_at } }
      taken ← dispatch noted (agent_buf inputs.received) (suc n)
      some (taken.0, sent ++ taken.1)

    unfoldable pub loop_receive : Inputs → PeerConnection → Option (PeerConnection × List PeerEvent)
    loop_receive inputs pc = do
      outcome ←
          agent_recv md5 hmac_sha1 inputs.locals inputs.stun_at pc.agent inputs.received
            agent_buf_size
      take_datagram inputs (record pc { agent = outcome.agent }) (map datagram outcome.sent)
          outcome.ret

    -- The timeout
    unfoldable pub loop_timeout : Inputs → PeerConnection → PeerConnection × List PeerEvent
    loop_timeout inputs pc =
        if ltb keepalive_timeout (elapsed inputs.ended_at pc.agent.binding_request_time)
        then state_changed pc peer_closed
        else (pc, [])

    -- case PEER_CONNECTION_COMPLETED
    unfoldable pub loop_completed :
        Inputs → PeerConnection → Option (PeerConnection × List PeerEvent)
    loop_completed inputs pc = do
      asked ← loop_consent inputs pc
      received ← loop_receive inputs asked.0
      let ended = loop_timeout inputs received.0
      some (ended.0, asked.1 ++ (received.1 ++ ended.1))

    unfoldable pub loop_in :
        PeerConnectionState → Inputs → PeerConnection → Option (PeerConnection × List PeerEvent)
    loop_in peer_checking inputs pc = loop_checking inputs pc
    loop_in peer_connected inputs pc = loop_connected pc
    loop_in peer_completed inputs pc = loop_completed inputs pc
    loop_in _ inputs pc = some (pc, [])

    -- peer_connection_loop; `none` is what C leaves undefined, or a call of sctp_incoming_data that does not
    -- return.
    unfoldable pub peer_connection_loop :
        Inputs → PeerConnection → Option (PeerConnection × List PeerEvent)
    peer_connection_loop inputs pc = loop_in pc.state inputs pc
