-- ===== src/Peer/Keepalive.antt =====
-- The parts of a round of peer_connection_loop in the state COMPLETED (src/peer_connection.c).
use libpeer.Base.{ℕ, ◌≤◌, ◌≡◌, refl, some, List, [], ◌++◌, le→ltb_false}
use libpeer.Peer.State.{
  PeerConnectionState, peer_completed, PeerConnection, PeerEvent, Dtls, Inputs, elapsed,
  consent_interval,
}
use libpeer.Peer.Loop.{
  loop_consent, loop_receive, loop_timeout, loop_completed, loop_in, peer_connection_loop,
}

module _ (dtls : Dtls) (md5 : List ℕ → List ℕ) (hmac_sha1 : List ℕ → List ℕ → List ℕ)
    (inputs : Inputs) where
  pub loop_consent_early :
      (pc : PeerConnection)
      → elapsed inputs.checked_at pc.consent_request_time ≤ consent_interval
      → loop_consent dtls md5 hmac_sha1 inputs pc ≡ some (pc, [])
  unfolding loop_consent
  loop_consent_early pc h =
      let early =
        le→ltb_false consent_interval (elapsed inputs.checked_at pc.consent_request_time) h in
      rw early refl

  pub loop_completed_by :
      (pc : PeerConnection) (asked received ended : PeerConnection × List PeerEvent)
      → pc.state ≡ peer_completed
      → loop_consent dtls md5 hmac_sha1 inputs pc ≡ some asked
      → loop_receive dtls md5 hmac_sha1 inputs asked.0 ≡ some received
      → loop_timeout dtls md5 hmac_sha1 inputs received.0 ≡ ended
      → peer_connection_loop dtls md5 hmac_sha1 inputs pc
        ≡ some (ended.0, asked.1 ++ (received.1 ++ ended.1))
  unfolding peer_connection_loop
  loop_completed_by pc asked received ended e e1 e2 e3 = in_state pc.state e
    where
      in_state :
          (state : PeerConnectionState)
          → state ≡ peer_completed
          → loop_in dtls md5 hmac_sha1 state inputs pc
            ≡ some (ended.0, asked.1 ++ (received.1 ++ ended.1))
      in_state state now = rw now (unfold loop_in loop_completed in rw (e1, e2, e3) refl)
