-- ===== src/Peer/History.antt =====
-- What peer_connection_loop (src/peer_connection.c) tells oniceconnectionstatechange.
use libpeer.Base.{
  ℕ, zero, suc, ◌-◌, ◌≡◌, refl, ◌∙◌, ◌==◌, Option, none, some, List, [], ◌∷◌, ◌++◌, map, length,
  take, replicate, arith,
}
use libpeer.Base.Holds.{Holds, Holds-none, Holds-some, if-Holds, bind-Holds, then-Holds}
use libpeer.Agent.Receive.{Sent, Outcome, agent_recv}
use libpeer.Agent.Check.{agent_send_consent_request}
use libpeer.Rtp.Dispatch.{rtp_decoder_decode}
use libpeer.Rtp.Header.{rtp_packet_validate}
use libpeer.Sctp.State.{SctpEvent}
use libpeer.Sctp.Receive.{Incoming, goes_on, sctp_incoming_data}
use libpeer.Peer.Feedback.{peer_connection_incoming_rtcp}
use libpeer.Peer.State.{
  PeerConnectionState, PeerConnection, PeerEvent, datagram, rtp, channel, notified, keyframe, audio,
  video, Dtls, Inputs, agent_buf_size,
}
use libpeer.Rtcp.{rtcp_probe}
use libpeer.Peer.Loop.{
  taken_for_rtcp, dtls_srtp_probe, take_datagram, incoming_channel, incoming_rtp, dispatch,
  loop_consent, loop_receive, agent_buf,
}

-- The states that the callback was told.
unfoldable pub notices : List PeerEvent → List PeerConnectionState
notices [] = []
notices (notified state ∷ events) = state ∷ notices events
notices (datagram sent ∷ events) = notices events
notices (rtp packet ∷ events) = notices events
notices (channel event ∷ events) = notices events
notices (keyframe ∷ events) = notices events
notices (audio frame ∷ events) = notices events
notices (video frame ∷ events) = notices events

pub notices-nil : notices [] ≡ []
unfolding notices
notices-nil = refl

pub notices-append : (xs ys : List PeerEvent) → notices xs ≡ [] → notices (xs ++ ys) ≡ notices ys
unfolding notices
notices-append [] ys h = refl
notices-append (notified state ∷ xs) ys h = absurd (ground (arith, h))
notices-append (datagram sent ∷ xs) ys h = notices-append xs ys h
notices-append (rtp packet ∷ xs) ys h = notices-append xs ys h
notices-append (channel event ∷ xs) ys h = notices-append xs ys h
notices-append (keyframe ∷ xs) ys h = notices-append xs ys h
notices-append (audio frame ∷ xs) ys h = notices-append xs ys h
notices-append (video frame ∷ xs) ys h = notices-append xs ys h

pub notices-channel : (events : List SctpEvent) → notices (map channel events) ≡ []
unfolding notices
notices-channel [] = refl
notices-channel (e ∷ events) = notices-channel events

notices-audio : (frames : List (List ℕ)) → notices (map audio frames) ≡ []
unfolding notices
notices-audio [] = refl
notices-audio (f ∷ frames) = notices-audio frames

notices-video : (frames : List (List ℕ)) → notices (map video frames) ≡ []
unfolding notices
notices-video [] = refl
notices-video (f ∷ frames) = notices-video frames

notices-keyframe : (n : ℕ) → notices (replicate n keyframe) ≡ []
unfolding notices
notices-keyframe zero = refl
notices-keyframe (suc n) = notices-keyframe n

-- The state is as before, and the callback was not called.
abbrev pub IsQuiet : PeerConnection → PeerConnection × List PeerEvent → Type 0
IsQuiet pc result = (result.0.state ≡ pc.state) × (notices result.1 ≡ [])

incoming_channel-IsQuiet :
    (pc : PeerConnection) (plain : List ℕ) → Holds (IsQuiet pc) (incoming_channel pc plain)
unfolding incoming_channel
incoming_channel-IsQuiet pc plain =
    let P = IsQuiet pc in
    let len = length plain in
    if-Holds P (len == 0) _ _ (Holds-some P (pc, []) (refl, notices-nil)) (
      bind-Holds P
        (sctp_incoming_data len pc.sctp (plain ++ replicate (agent_buf_size - len) 0) len) _
        (λ (incoming : Incoming). if-Holds P (goes_on len incoming) _ _ (Holds-none P) (
          Holds-some P (record pc { sctp = incoming.sctp }, map channel incoming.events)
            (refl, notices-channel incoming.events))))

incoming_rtp-IsQuiet :
    (pc : PeerConnection) (packet : List ℕ) → Holds (IsQuiet pc) (incoming_rtp pc packet)
unfolding incoming_rtp
incoming_rtp-IsQuiet pc packet =
    let P = IsQuiet pc in
    if-Holds P _ _ _
      (bind-Holds P (rtp_decoder_decode pc.artp_decoder pc.statics packet) _
        (λ d. Holds-some P _ (refl, notices-audio d.1)))
      (if-Holds P _ _ _
        (bind-Holds P (rtp_decoder_decode pc.vrtp_decoder pc.statics packet) _
          (λ d. Holds-some P _ (refl, notices-video d.1)))
        (Holds-some P _ (refl, notices-nil)))

dispatch-IsQuiet :
    (dtls : Dtls) (pc : PeerConnection) (buf : List ℕ) (len : ℕ)
    → Holds (IsQuiet pc) (dispatch dtls pc buf len)
unfolding dispatch
dispatch-IsQuiet dtls pc buf len =
    let P = IsQuiet pc in
    let nothing = Holds-some P (pc, []) (refl, notices-nil) in
    if-Holds P (taken_for_rtcp (rtcp_probe (take len buf))) _ _
      (bind-Holds P
        (peer_connection_incoming_rtcp pc.on_request_keyframe (dtls.decrypt_rtcp buf len).0
          (dtls.decrypt_rtcp buf len).1)
        _ (λ calls. Holds-some P (pc, replicate calls keyframe) (refl, notices-keyframe calls)))
      (if-Holds P (dtls_srtp_probe buf) _ _ (incoming_channel-IsQuiet pc (dtls.read (take len buf)))
        (if-Holds P (rtp_packet_validate (take len buf)) _ _
          (if-Holds P (dtls.decrypt_rtp buf len).0 _ _
            (incoming_rtp-IsQuiet pc
              (take (dtls.decrypt_rtp buf len).2 (dtls.decrypt_rtp buf len).1))
            nothing)
          nothing))

pub notices-sent : (sent : List Sent) → notices (map datagram sent) ≡ []
unfolding notices
notices-sent [] = refl
notices-sent (s ∷ sent) = notices-sent sent

module _ (dtls : Dtls) (md5 : List ℕ → List ℕ) (hmac_sha1 : List ℕ → List ℕ → List ℕ)
    (inputs : Inputs) where
  pub loop_consent-IsQuiet :
      (pc : PeerConnection) → Holds (IsQuiet pc) (loop_consent dtls md5 hmac_sha1 inputs pc)
  unfolding loop_consent
  loop_consent-IsQuiet pc =
      let P = IsQuiet pc in
      if-Holds P _ _ _
        (bind-Holds P
          (agent_send_consent_request md5 hmac_sha1 inputs.msg inputs.tie_breaker pc.agent) _
          (λ request. Holds-some P _ (refl, asked request)))
        (Holds-some P _ (refl, notices-nil))
    where
      asked :
          (request : Option Sent)
          → notices (elim request [ none ↦ [] | some sent ↦ datagram sent ∷ [] ]) ≡ []
      asked none = notices-nil
      asked (some sent) = notices-sent (sent ∷ [])

  take_datagram-IsQuiet :
      (pc : PeerConnection) (sent : List Sent) (ret : Option ℕ)
      → Holds (IsQuiet pc) (take_datagram dtls md5 hmac_sha1 inputs pc (map datagram sent) ret)
  unfolding take_datagram
  take_datagram-IsQuiet pc sent none = Holds-some (IsQuiet pc) _ (refl, notices-sent sent)
  take_datagram-IsQuiet pc sent (some zero) = Holds-some (IsQuiet pc) _ (refl, notices-sent sent)
  take_datagram-IsQuiet pc sent (some (suc n)) =
      let noted = record pc {
        agent = record pc.agent { binding_request_time = inputs.arrived_at };
      } in
      then-Holds (IsQuiet pc) (IsQuiet noted)
        (dispatch dtls noted (agent_buf inputs.received) (suc n)) _
        (dispatch-IsQuiet dtls noted (agent_buf inputs.received) (suc n))
        (λ taken q.
          Holds-some (IsQuiet pc) _
            (q.0, notices-append (map datagram sent) taken.1 (notices-sent sent) ∙ q.1))

  pub loop_receive-IsQuiet :
      (pc : PeerConnection) → Holds (IsQuiet pc) (loop_receive dtls md5 hmac_sha1 inputs pc)
  unfolding loop_receive
  loop_receive-IsQuiet pc =
      bind-Holds (IsQuiet pc)
        (agent_recv md5 hmac_sha1 inputs.locals inputs.stun_at pc.agent inputs.received
          agent_buf_size)
        _
        (λ (outcome : Outcome).
          take_datagram-IsQuiet (record pc { agent = outcome.agent }) outcome.sent outcome.ret)
