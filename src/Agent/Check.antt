-- ===== src/Agent/Check.antt =====
-- agent_connectivity_check and agent_send_consent_request (src/agent.c).
use libpeer.Base.{
  ℕ, ◌%◌, ◌==◌, if◌then◌else◌, Bool, true, false, Option, none, some, List, [], ◌∷◌, ◌++◌, take,
  replicate, get_elem?,
}
use libpeer.Base.Memory.{◌>>=◌}
use libpeer.Stun.Message.{StunMessage}
use libpeer.Agent.State.{Agent, IceCandidatePair, IceCandidateState, inprogress, succeeded}
use libpeer.Agent.Messages.{agent_create_binding_request}
use libpeer.Agent.Receive.{Locals, Sent, Received, Outcome, agent_recv}

-- AGENT_CONNCHECK_PERIOD
abbrev pub agent_conncheck_period : ℕ
agent_conncheck_period = 100

-- The arrays of a message after memset; the addresses, which no message that is sent reads, are left.
unfoldable pub cleared : StunMessage → StunMessage
cleared msg = record msg {
  stunclass = 0;
  stunmethod = 0;
  fingerprint = replicate 4 0;
  message_integrity = replicate 20 0;
  username = replicate 128 0;
  realm = replicate 64 0;
  nonce = replicate 64 0;
  buf = replicate 256 0;
  size = 0;
}

unfoldable pub is_inprogress : IceCandidateState → Bool
is_inprogress inprogress = true
is_inprogress _ = false

unfoldable pub is_succeeded : IceCandidateState → Bool
is_succeeded succeeded = true
is_succeeded _ = false

module _ (md5 : List ℕ → List ℕ) (hmac_sha1 : List ℕ → List ℕ → List ℕ) where
  -- A request to the remote candidate of the nominated pair, under the tie breaker that was drawn.
  unfoldable pub send_request : StunMessage → List ℕ → Agent → IceCandidatePair → Option Sent
  send_request msg tie_breaker agent pair = do
    msg' ← agent_create_binding_request md5 hmac_sha1 tie_breaker pair.priority agent (cleared msg)
    remote ← get_elem? agent.remote_candidates pair.remote
    some (record { addr = remote.addr; bytes = take msg'.size msg'.buf })

  -- agent_send_consent_request: what is sent, `none` for its -1 without a nominated pair.
  unfoldable pub agent_send_consent_request : StunMessage → List ℕ → Agent → Option (Option Sent)
  agent_send_consent_request msg tie_breaker agent = elim agent.nominated_pair [
    | none ↦ some none
    | some i ↦ do
      pair ← get_elem? agent.candidate_pairs i
      sent ← send_request msg tie_breaker agent pair
      some (some sent)
  ]

  -- agent_connectivity_check: `ret` is `none` for -1.
  unfoldable pub agent_connectivity_check :
      Locals → ℕ → StunMessage → List ℕ → Agent → Received → Option Outcome
  agent_connectivity_check locals now msg tie_breaker agent received = do
    i ← agent.nominated_pair
    pair ← get_elem? agent.candidate_pairs i
    if is_inprogress pair.state
        then (do
          requests ←
              if pair.conncheck % agent_conncheck_period == 0
              then (do sent ← send_request msg tie_breaker agent pair; some (sent ∷ []))
              else some []
          outcome ← agent_recv md5 hmac_sha1 locals now agent received 1400
          pair' ← get_elem? outcome.agent.candidate_pairs i
          some (
              if is_succeeded pair'.state
              then record {
                agent = record outcome.agent { selected_pair = agent.nominated_pair };
                sent = requests ++ outcome.sent;
                ret = some 0;
              }
              else record { agent = outcome.agent; sent = requests ++ outcome.sent; ret = none }))
        else some (record { agent = agent; sent = []; ret = none })
