-- ===== src/Agent/Completes.antt =====
-- The connectivity check of a pair between two agents (src/agent.c).
use libpeer.Base.{ℕ, ◌≤◌, ◌≡◌, refl, some, List, [], ◌∷◌, length, take, get_elem?, set}
use libpeer.Address.{Address}
use libpeer.Stun.Message.{StunMessage, default_id}
use libpeer.Stun.MappedWrite.{IsAddress}
use libpeer.Stun.Write.{c_string}
use libpeer.Agent.State.{Agent, IceCandidatePair, succeeded}
use libpeer.Agent.Messages.{name_pair, agent_create_binding_request}
use libpeer.Agent.Binding.{request-IsSealed}
use libpeer.Agent.Receive.{Locals, recv_datagram, succeed_nominated, agent_recv}
use libpeer.Agent.Check.{cleared}
use libpeer.Agent.Handshake.{IsLocals, request_answered, response_processed}

succeed_lem :
    (agent : Agent) (i : ℕ) (pair : IceCandidatePair)
    → agent.nominated_pair ≡ some i
    → get_elem? agent.candidate_pairs i ≡ some pair
    → succeed_nominated agent
      ≡ some (record agent {
        candidate_pairs = set agent.candidate_pairs i (record pair { state = succeeded });
      })
unfolding succeed_nominated
succeed_lem agent i pair e f = rw (e, f) refl

-- The agent when it has answered a request in the transaction `id`, and when its check has succeeded.
abbrev pub answered : Agent → ℕ → List ℕ → Agent
answered agent now id = record agent { transaction_id = id; binding_request_time = now }

abbrev pub connected : Agent → ℕ → ℕ → IceCandidatePair → Agent
connected agent now i pair = record agent {
  candidate_pairs = set agent.candidate_pairs i (record pair { state = succeeded });
  binding_request_time = now;
}

abbrev pub Handshakes :
    (List ℕ → List ℕ)
    → (List ℕ → List ℕ → List ℕ)
    → Agent
    → Agent
    → Locals
    → Locals
    → StunMessage
    → List ℕ
    → ℕ
    → ℕ
    → ℕ
    → ℕ
    → IceCandidatePair
    → Address
    → Address
    → Type 0
Handshakes md5 hmac_sha1 agent peer locals locals' msg tie_breaker i len now now' pair addr addr' =
    (request reply : StunMessage) × (agent_create_binding_request md5 hmac_sha1 tie_breaker
        pair.priority agent (cleared msg)
      ≡ some request)
    × (agent_recv md5 hmac_sha1 locals' now' peer
          (recv_datagram addr (take request.size request.buf)) len
        ≡ some (record {
          agent = answered peer now' default_id;
          sent = record { addr = addr; bytes = take reply.size reply.buf } ∷ [];
          ret = some 0;
        }))
    × (agent_recv md5 hmac_sha1 locals now agent (recv_datagram addr' (take reply.size reply.buf))
          len
        ≡ some (record { agent = connected agent now i pair; sent = []; ret = some 0 }))

-- An agent checks its nominated pair `i`, and the other agent's password is the one it was told. The
-- hypotheses: the code is of 20 bytes, the user names of the two agents have at most 128 characters,
-- the buffers receive 256 bytes or more. Then the request is created; the other agent takes it for valid,
-- and sends a response to where the request came from; and of the response the first agent sets the pair
-- to SUCCEEDED and notes the time. Both calls of agent_recv return 0.
pub agent_recv_handshake :
    (md5 : List ℕ → List ℕ) (hmac_sha1 : List ℕ → List ℕ → List ℕ)
    (digest : (key message : List ℕ) → length (hmac_sha1 key message) ≡ 20) (agent peer : Agent)
    (locals locals' : Locals) (msg : StunMessage) (tie_breaker : List ℕ) (i len now now' : ℕ)
    (pair : IceCandidatePair) (addr addr' : Address)
    → IsLocals locals
    → IsLocals locals'
    → length tie_breaker ≡ 8
    → agent.nominated_pair ≡ some i
    → get_elem? agent.candidate_pairs i ≡ some pair
    → c_string agent.remote_upwd ≡ c_string peer.local_upwd
    → length (name_pair agent.remote_ufrag agent.local_ufrag) ≤ 128
    → length (name_pair peer.local_ufrag peer.remote_ufrag) ≤ 128
    → IsAddress addr
    → 256 ≤ len
    → Handshakes md5 hmac_sha1 agent peer locals locals' msg tie_breaker i len now now' pair addr
        addr'
unfolding cleared
agent_recv_handshake md5 hmac_sha1 digest agent peer locals locals' msg tie_breaker i len now now'
      pair addr addr' l l' eight nominated found same short short' a wide =
    let (request, created, sealed) =
      request-IsSealed md5 hmac_sha1 digest agent tie_breaker pair.priority (cleared msg) eight refl
        refl short in
    let (reply, replied, sealed') =
      request_answered md5 hmac_sha1 digest locals' now' peer addr len default_id request l'
        (rw same at sealed) wide a short' in
    (
      request,
      reply,
      created,
      replied,
      response_processed md5 hmac_sha1 digest locals now agent _ addr' len default_id
          (c_string peer.local_upwd) reply l sealed' same wide
          (succeed_lem agent i pair nominated found),
    )
