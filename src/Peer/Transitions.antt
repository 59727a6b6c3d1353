-- ===== src/Peer/Transitions.antt =====
-- The states of a connection (src/peer_connection.c), and what oniceconnectionstatechange is told of them.
use libpeer.Base.{
  ℕ, ◌≡◌, refl, ◌∙◌, ◌==◌, ◌&&◌, ltb, not, if◌then◌else◌, Bool, true, false, List, [], ◌∷◌, ◌++◌,
  map, ◌⊎◌, inl, inr,
}
use libpeer.Base.Holds.{Holds, Holds-some, if-Holds, bind-Holds, then-Holds}
use libpeer.Agent.State.{Agent}
use libpeer.Agent.Receive.{Outcome}
use libpeer.Agent.Pairs.{agent_select_candidate_pair}
use libpeer.Agent.Check.{agent_connectivity_check}
use libpeer.Sctp.State.{Sctp, SctpEvent}
use libpeer.Sctp.Send.{sctp_create_association}
use libpeer.Peer.State.{
  PeerConnectionState, peer_closed, peer_new, peer_checking, peer_connected, peer_completed,
  peer_failed, peer_disconnected, PeerConnection, PeerEvent, datagram, channel, notified, Dtls,
  Inputs, state_number, state_changed, elapsed, keepalive_timeout,
}
use libpeer.Peer.Loop.{
  loop_checking, loop_connected, loop_consent, loop_receive, loop_timeout, loop_completed, loop_in,
  peer_connection_loop, is_zero, has_channel,
}
use libpeer.Peer.History.{
  notices, notices-nil, notices-append, notices-sent, IsQuiet, loop_consent-IsQuiet,
  loop_receive-IsQuiet,
}

-- The changes of state that a round of the loop makes.
pub data Changes : PeerConnectionState → PeerConnectionState → Type 0 where
  fails : Changes peer_checking peer_failed
  connects : Changes peer_checking peer_connected
  completes : Changes peer_connected peer_completed
  expires : Changes peer_completed peer_closed

-- A round that changes nothing, or makes a change and tells it once.
abbrev pub IsRound : PeerConnection → PeerConnection × List PeerEvent → Type 0
IsRound pc result =
    IsQuiet pc result ⊎ (Changes pc.state result.0.state × (notices result.1 ≡ result.0.state ∷ []))

pub notices-notified : (state : PeerConnectionState) → notices (notified state ∷ []) ≡ state ∷ []
unfolding notices
notices-notified state = refl

pub if-pair :
    (P : PeerConnection × List PeerEvent → Type 0) (b : Bool)
    (x y : PeerConnection × List PeerEvent)
    → P x
    → P y
    → P (if b then x else y)
if-pair P true x y hx hy = hx
if-pair P false x y hx hy = hy

-- STATE_CHANGED to a state that the old one changes to.
state_changed-IsRound :
    (pc pc' : PeerConnection) (state : PeerConnectionState)
    → pc'.state ≡ pc.state
    → Changes pc.state state
    → IsRound pc (state_changed pc' state)
unfolding state_changed
state_changed-IsRound pc pc' state same change =
    if-pair (IsRound pc) (pc'.onstate && not (state_number pc'.state == state_number state))
      (record pc' { state = state }, notified state ∷ []) (pc', [])
      (inr (change, notices-notified state)) (inl (same, notices-nil))

-- What is told later is behind what is silent.
after_quiet :
    (pc : PeerConnection) (before : List PeerEvent) (result : PeerConnection × List PeerEvent)
    → notices before ≡ []
    → IsRound pc result
    → IsRound pc (result.0, before ++ result.1)
after_quiet pc before result silent (inl (same, quiet)) =
    inl (same, notices-append before result.1 silent ∙ quiet)
after_quiet pc before result silent (inr (change, told)) =
    inr (change, notices-append before result.1 silent ∙ told)

module _ (dtls : Dtls) (md5 : List ℕ → List ℕ) (hmac_sha1 : List ℕ → List ℕ → List ℕ)
    (inputs : Inputs) where
  loop_checking-IsRound :
      (pc : PeerConnection)
      → pc.state ≡ peer_checking
      → Holds (IsRound pc) (loop_checking dtls md5 hmac_sha1 inputs pc)
  unfolding loop_checking
  loop_checking-IsRound pc e =
      let P = IsRound pc in
      bind-Holds P (agent_select_candidate_pair pc.agent) _ (λ (selected : Agent × Bool).
        if-Holds P (not selected.1) _ _
          (Holds-some P _ (
            state_changed-IsRound pc (record pc { agent = selected.0 }) peer_failed refl
              (rw e fails)))
          (bind-Holds P
            (agent_connectivity_check md5 hmac_sha1 inputs.locals inputs.stun_at inputs.msg
              inputs.tie_breaker selected.0 inputs.received)
            _
            (λ (outcome : Outcome).
              let checked = record pc { agent = outcome.agent } in
              let told : PeerConnection × List PeerEvent =
                if is_zero outcome.ret
                then state_changed checked peer_connected
                else (checked, []) in
              Holds-some P _ (
                after_quiet pc (map datagram outcome.sent) told (notices-sent outcome.sent) (
                  if-pair P (is_zero outcome.ret) (state_changed checked peer_connected)
                    (checked, [])
                    (state_changed-IsRound pc checked peer_connected refl (rw e connects))
                    (inl (refl, notices-nil)))))))

  loop_connected-IsRound :
      (pc : PeerConnection)
      → pc.state ≡ peer_connected
      → Holds (IsRound pc) (loop_connected dtls md5 hmac_sha1 pc)
  unfolding loop_connected
  loop_connected-IsRound pc e =
      let P = IsRound pc in
      let pc1 = record pc { agent = (dtls.handshake pc.agent).1 } in
      if-Holds P (not (dtls.handshake pc.agent).0) _ _
        (Holds-some P (pc1, []) (inl (refl, notices-nil)))
        (if-Holds P (has_channel pc.datachannel) _ _
          (bind-Holds P (sctp_create_association pc.sctp) _ (λ (created : Sctp × SctpEvent).
            Holds-some P _ (
              after_quiet pc (channel created.1 ∷ [])
                (state_changed (record pc1 { sctp = created.0 }) peer_completed)
                (unfold notices in refl)
                (state_changed-IsRound pc (record pc1 { sctp = created.0 }) peer_completed refl
                  (rw e completes)))))
          (Holds-some P _ (state_changed-IsRound pc pc1 peer_completed refl (rw e completes))))

  loop_timeout-IsRound :
      (pc pc' : PeerConnection)
      → pc'.state ≡ pc.state
      → pc.state ≡ peer_completed
      → IsRound pc (loop_timeout dtls md5 hmac_sha1 inputs pc')
  unfolding loop_timeout
  loop_timeout-IsRound pc pc' same e =
      if-pair (IsRound pc)
        (ltb keepalive_timeout (elapsed inputs.ended_at pc'.agent.binding_request_time))
        (state_changed pc' peer_closed) (pc', [])
        (state_changed-IsRound pc pc' peer_closed same (rw e expires)) (inl (same, notices-nil))

  loop_completed-IsRound :
      (pc : PeerConnection)
      → pc.state ≡ peer_completed
      → Holds (IsRound pc) (loop_completed dtls md5 hmac_sha1 inputs pc)
  unfolding loop_completed
  loop_completed-IsRound pc e =
      let P = IsRound pc in
      then-Holds P (IsQuiet pc) (loop_consent dtls md5 hmac_sha1 inputs pc) _
        (loop_consent-IsQuiet dtls md5 hmac_sha1 inputs pc)
        (λ asked q.
          then-Holds P (IsQuiet asked.0) (loop_receive dtls md5 hmac_sha1 inputs asked.0) _
            (loop_receive-IsQuiet dtls md5 hmac_sha1 inputs asked.0)
            (λ received q'.
              let ended = loop_timeout dtls md5 hmac_sha1 inputs received.0 in
              Holds-some P _ (
                after_quiet pc asked.1 (ended.0, received.1 ++ ended.1) q.1
                  (after_quiet pc received.1 ended q'.1
                    (loop_timeout-IsRound pc received.0 (q'.0 ∙ q.0) e)))))

  loop_in-IsRound :
      (state : PeerConnectionState) (pc : PeerConnection)
      → pc.state ≡ state
      → Holds (IsRound pc) (loop_in dtls md5 hmac_sha1 state inputs pc)
  unfolding loop_in
  loop_in-IsRound peer_checking pc e = loop_checking-IsRound pc e
  loop_in-IsRound peer_connected pc e = loop_connected-IsRound pc e
  loop_in-IsRound peer_completed pc e = loop_completed-IsRound pc e
  loop_in-IsRound peer_closed pc e = Holds-some (IsRound pc) (pc, []) (inl (refl, notices-nil))
  loop_in-IsRound peer_new pc e = Holds-some (IsRound pc) (pc, []) (inl (refl, notices-nil))
  loop_in-IsRound peer_failed pc e = Holds-some (IsRound pc) (pc, []) (inl (refl, notices-nil))
  loop_in-IsRound peer_disconnected pc e =
      Holds-some (IsRound pc) (pc, []) (inl (refl, notices-nil))

  pub peer_connection_loop-IsRound :
      (pc : PeerConnection) → Holds (IsRound pc) (peer_connection_loop dtls md5 hmac_sha1 inputs pc)
  unfolding peer_connection_loop
  peer_connection_loop-IsRound pc = loop_in-IsRound pc.state pc refl
