-- ===== src/Agent/Receive.antt =====
-- What the agent does with a datagram: agent_process_stun_request, agent_process_stun_response and
-- agent_recv (src/agent.c).
use libpeer.Base.{
  ℕ, ◌-◌, ◌==◌, if◌then◌else◌, Option, none, some, List, [], ◌∷◌, ◌++◌, length, take, replicate,
  get_elem?, set,
}
use libpeer.Base.Memory.{store, ◌>>=◌}
use libpeer.Address.{Address}
use libpeer.Stun.Message.{
  StunMessage, class_request, class_response, method_binding, transaction_id,
}
use libpeer.Stun.Parse.{stun_parse_msg_buf, stun_probe}
use libpeer.Stun.Valid.{stun_msg_is_valid}
use libpeer.Agent.State.{Agent, succeeded}
use libpeer.Agent.Messages.{agent_create_binding_response}

-- What the local variables of the functions hold before they are assigned.
pub record Locals : Type 0 where
  pub incoming : StunMessage
  pub checked : StunMessage
  pub reply : StunMessage
  pub username : List ℕ
  pub mapped_address : List ℕ

-- A datagram that is sent, and its destination.
pub record Sent : Type 0 where
  pub addr : Address
  pub bytes : List ℕ

-- What agent_socket_recv gets: an error of the sockets, nothing within its time, or a datagram.
pub data Received : Type 0 where
  recv_error recv_timeout : Received
  recv_datagram : Address → List ℕ → Received

-- The agent, what it has sent, and what it returns: `none` for -1.
pub record Outcome : Type 0 where
  pub agent : Agent
  pub sent : List Sent
  pub ret : Option ℕ

-- An assignment to the state of the nominated pair, which is not null.
unfoldable pub succeed_nominated : Agent → Option Agent
succeed_nominated agent = do
  i ← agent.nominated_pair
  pair ← get_elem? agent.candidate_pairs i
  some (record agent {
    candidate_pairs = set agent.candidate_pairs i (record pair { state = succeeded });
  })

module _ (md5 : List ℕ → List ℕ) (hmac_sha1 : List ℕ → List ℕ → List ℕ) where
  -- agent_process_stun_request, at the time `now`.
  unfoldable pub agent_process_stun_request :
      Locals → ℕ → Agent → StunMessage → Address → Option Outcome
  agent_process_stun_request locals now agent stun_msg addr =
      let ignored : Outcome = record { agent = agent; sent = []; ret = some 0 } in
      if stun_msg.stunmethod == method_binding
      then (do
        valid ←
            stun_msg_is_valid hmac_sha1 locals.checked stun_msg.buf stun_msg.size agent.local_upwd
        if valid
            then (do
              let agent' = record agent { transaction_id = transaction_id stun_msg.buf }
              msg ←
                  agent_create_binding_response md5 hmac_sha1 locals.username locals.mapped_address
                    agent' locals.reply addr
              some (record {
                agent = record agent' { binding_request_time = now };
                sent = record { addr = addr; bytes = take msg.size msg.buf } ∷ [];
                ret = some 0;
              }))
            else some ignored)
      else some ignored

  -- agent_process_stun_response
  unfoldable pub agent_process_stun_response : Locals → ℕ → Agent → StunMessage → Option Agent
  agent_process_stun_response locals now agent stun_msg =
      if stun_msg.stunmethod == method_binding
      then (do
        valid ←
            stun_msg_is_valid hmac_sha1 locals.checked stun_msg.buf stun_msg.size agent.remote_upwd
        if valid
            then (do
              agent' ← succeed_nominated agent
              some (record agent' { binding_request_time = now }))
            else some agent)
      else some agent

  -- The `switch` on the class of a message.
  unfoldable pub process_stun : Locals → ℕ → Agent → StunMessage → Address → Option Outcome
  process_stun locals now agent stun_msg addr =
      if stun_msg.stunclass == class_request
      then agent_process_stun_request locals now agent stun_msg addr
      else if stun_msg.stunclass == class_response
      then (do
        agent' ← agent_process_stun_response locals now agent stun_msg
        some (record { agent = agent'; sent = []; ret = some 0 }))
      else some (record { agent = agent; sent = []; ret = some 0 })

  -- agent_recv into a buffer of `len` bytes, which agent_socket_recv clears first.
  unfoldable pub agent_recv : Locals → ℕ → Agent → Received → ℕ → Option Outcome
  agent_recv locals now agent recv_error len =
      some (record { agent = agent; sent = []; ret = none })
  agent_recv locals now agent recv_timeout len =
      some (record { agent = agent; sent = []; ret = some 0 })
  agent_recv locals now agent (recv_datagram addr bytes) len =
      let got = take len bytes in
      let size = length got in
      let rest : Outcome = record { agent = agent; sent = []; ret = some size } in
      if size == 0
      then some rest
      else if stun_probe (got ++ replicate (len - size) 0) len
      then (do
        buf ← store locals.incoming.buf 0 got
        msg ← stun_parse_msg_buf (record locals.incoming { buf = buf; size = size })
        process_stun locals now agent msg addr)
      else some rest
