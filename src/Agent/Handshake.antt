-- ===== src/Agent/Handshake.antt =====
-- Two agents that check a pair of candidates: a request, its response, and what they leave (src/agent.c).
use libpeer.Base.{
  ℕ, ◌+◌, ◌-◌, ◌^◌, ◌≤◌, ◌<◌, ◌≡◌, refl, ◌∙◌, some, List, [], ◌∷◌, ◌++◌, true, false, ◌==◌, length,
  length-take, take, replicate, append_assoc, take_all, arith,
}
use libpeer.Base.Memory.{store}
use libpeer.Address.{Address}
use libpeer.Stun.Message.{
  StunMessage, stun_header, class_request, class_response, method_binding, transaction_id,
  stun_class, stun_method,
}
use libpeer.Stun.MappedWrite.{IsAddress}
use libpeer.Stun.Parse.{stun_parse_msg_buf, stun_probe}
use libpeer.Stun.Valid.{stun_msg_is_valid}
use libpeer.Stun.Write.{c_string}
use libpeer.Stun.Written.{attrs_bytes}
use libpeer.Stun.Accept.{IsMessage}
use libpeer.Stun.Sealed.{
  IsSealed, sealed_bytes, sealed_sizes, sealed_id, same-IsSealed, sealed_valid, received-IsSealed,
  sealed_parsed,
}
use libpeer.Agent.State.{Agent}
use libpeer.Agent.Messages.{name_pair, agent_create_binding_response}
use libpeer.Agent.Response.{response-IsSealed}
use libpeer.Agent.Receive.{
  Locals, recv_datagram, succeed_nominated, agent_process_stun_request, agent_process_stun_response,
  process_stun, agent_recv,
}

-- The local variables, whatever their bytes are.
pub record IsLocals (locals : Locals) : Type 0 where
  pub incoming : IsMessage locals.incoming
  pub checked : IsMessage locals.checked
  pub reply_buf : length locals.reply.buf ≡ 256
  pub reply_name : length locals.reply.username ≡ 128
  pub name_array : length locals.username ≡ 584
  pub address_array : length locals.mapped_address ≡ 32

module _ (md5 : List ℕ → List ℕ) (hmac_sha1 : List ℕ → List ℕ → List ℕ)
    (digest : (key message : List ℕ) → length (hmac_sha1 key message) ≡ 20) where
  recv_by :
      (locals : Locals) (now : ℕ) (agent : Agent) (addr : Address) (bytes buf : List ℕ)
      (len size : ℕ) (msg : StunMessage)
      → length bytes ≡ size
      → size ≤ len
      → 1 ≤ size
      → stun_probe (bytes ++ replicate (len - size) 0) len ≡ true
      → store locals.incoming.buf 0 bytes ≡ some buf
      → stun_parse_msg_buf (record locals.incoming { buf = buf; size = size }) ≡ some msg
      → agent_recv md5 hmac_sha1 locals now agent (recv_datagram addr bytes) len
        ≡ process_stun md5 hmac_sha1 locals now agent msg addr
  unfolding agent_recv
  recv_by locals now agent addr bytes buf len size msg long fits some_bytes probed stored parsed =
      let all : take len bytes ≡ bytes = take_all len bytes (omega arith) in
      let here : (size == 0) ≡ false = ground arith in
      rw (all, long, here, probed, stored, parsed) refl

  -- The first bytes of a message are probed.
  probe_header :
      (type count : ℕ) (id body : List ℕ) (len : ℕ)
      → 20 ≤ len
      → stun_probe (stun_header type count id ++ body) len ≡ true
  unfolding stun_probe stun_header
  probe_header type count id body len h = ground arith

  -- agent_recv on a message that was finished by someone with some password
  recv-IsSealed :
      (locals : Locals) (now : ℕ) (agent : Agent) (addr : Address) (len type : ℕ)
      (id password : List ℕ) (sent : StunMessage)
      → IsLocals locals
      → IsSealed hmac_sha1 sent type id password
      → 256 ≤ len
      → type < 2 ^ 16
      → (msg : StunMessage) × (agent_recv md5 hmac_sha1 locals now agent
            (recv_datagram addr (take sent.size sent.buf))
            len
          ≡ process_stun md5 hmac_sha1 locals now agent msg addr)
        × (msg.stunclass ≡ stun_class type)
        × (msg.stunmethod ≡ stun_method type)
        × IsSealed hmac_sha1 msg type id password
  recv-IsSealed locals now agent addr len type id password sent l s wide small =
      let (buf, stored, received) =
        received-IsSealed hmac_sha1 md5 digest sent type id password locals.incoming s
          l.incoming.buf_size in
      let (whole, _, _) =
        sealed_sizes hmac_sha1 (record locals.incoming { buf = buf; size = sent.size }) type id
          password received in
      let (whole', least, most) = sealed_sizes hmac_sha1 sent type id password s in
      let bytes = sealed_bytes hmac_sha1 sent type id password s in
      let zeros : List ℕ = replicate (len - sent.size) 0 in
      let probed : stun_probe (take sent.size sent.buf ++ zeros) len ≡ true =
        let attrs = attrs_bytes ((s.attrs ++ (s.mi ∷ [])) ++ (s.fp ∷ [])) in
        rw (bytes, append_assoc (stun_header type (length attrs) id) attrs zeros)
          (probe_header type (length attrs) id (attrs ++ zeros) len (omega arith)) in
      let here : IsMessage (record locals.incoming { buf = buf; size = sent.size }) = record {
        buf_size = whole;
        code_size = l.incoming.code_size;
        print_size = l.incoming.print_size;
      } in
      let (msg, parsed, same_buf, same_size, class, method) =
        sealed_parsed hmac_sha1 md5 digest (record locals.incoming { buf = buf; size = sent.size })
          type id password received here small in
      (
        msg,
        recv_by locals now agent addr (take sent.size sent.buf) buf len sent.size msg
            (omega (arith, length-take sent.size sent.buf)) (omega arith) (omega arith) probed
            stored parsed,
        class,
        method,
        same-IsSealed hmac_sha1 (record locals.incoming { buf = buf; size = sent.size }) msg type id
            password received same_buf same_size,
      )

  request_by :
      (locals : Locals) (now : ℕ) (agent : Agent) (addr : Address) (msg reply : StunMessage)
      (id : List ℕ)
      → msg.stunclass ≡ class_request
      → msg.stunmethod ≡ method_binding
      → stun_msg_is_valid hmac_sha1 locals.checked msg.buf msg.size agent.local_upwd ≡ some true
      → transaction_id msg.buf ≡ id
      → agent_create_binding_response md5 hmac_sha1 locals.username locals.mapped_address
          (record agent { transaction_id = id })
          locals.reply
          addr
        ≡ some reply
      → process_stun md5 hmac_sha1 locals now agent msg addr
        ≡ some (record {
          agent = record agent { transaction_id = id; binding_request_time = now };
          sent = record { addr = addr; bytes = take reply.size reply.buf } ∷ [];
          ret = some 0;
        })
  unfolding process_stun agent_process_stun_request
  request_by locals now agent addr msg reply id class method valid named replied =
      rw (class, method, valid, named, replied) refl

  -- A request under the agent's own password is answered under it, in the same transaction.
  pub request_answered :
      (locals : Locals) (now : ℕ) (agent : Agent) (addr : Address) (len : ℕ) (id : List ℕ)
      (sent : StunMessage)
      → IsLocals locals
      → IsSealed hmac_sha1 sent (class_request + method_binding) id (c_string agent.local_upwd)
      → 256 ≤ len
      → IsAddress addr
      → length (name_pair agent.local_ufrag agent.remote_ufrag) ≤ 128
      → (reply : StunMessage) × (agent_recv md5 hmac_sha1 locals now agent
            (recv_datagram addr (take sent.size sent.buf))
            len
          ≡ some (record {
            agent = record agent { transaction_id = id; binding_request_time = now };
            sent = record { addr = addr; bytes = take reply.size reply.buf } ∷ [];
            ret = some 0;
          }))
        × IsSealed hmac_sha1 reply (class_response + method_binding) id (c_string agent.local_upwd)
  unfolding stun_class stun_method
  request_answered locals now agent addr len id sent l s wide a short =
      let type = class_request + method_binding in
      let password = c_string agent.local_upwd in
      let (msg, received, class, method, s') =
        recv-IsSealed locals now agent addr len type id password sent l s wide (omega arith) in
      let agent' = record agent { transaction_id = id } in
      let (reply, replied, sealed) =
        response-IsSealed md5 hmac_sha1 digest agent' locals.username locals.mapped_address
          locals.reply addr l.name_array l.address_array l.reply_buf l.reply_name s.written.named a
          short in
      (
        reply,
        received
            ∙ request_by locals now agent addr msg reply id class method
                (sealed_valid hmac_sha1 md5 digest msg type id password locals.checked
                  agent.local_upwd s' l.checked (omega arith) refl)
                (sealed_id hmac_sha1 msg type id password s') replied,
        sealed,
      )

  response_by :
      (locals : Locals) (now : ℕ) (agent agent' : Agent) (addr : Address) (msg : StunMessage)
      → msg.stunclass ≡ class_response
      → msg.stunmethod ≡ method_binding
      → stun_msg_is_valid hmac_sha1 locals.checked msg.buf msg.size agent.remote_upwd ≡ some true
      → succeed_nominated agent ≡ some agent'
      → process_stun md5 hmac_sha1 locals now agent msg addr
        ≡ some (record {
          agent = record agent' { binding_request_time = now };
          sent = [];
          ret = some 0;
        })
  unfolding process_stun agent_process_stun_response
  response_by locals now agent agent' addr msg class method valid done =
      rw (class, method, valid, done) refl

  -- A response under the password of the peer is success.
  pub response_processed :
      (locals : Locals) (now : ℕ) (agent agent' : Agent) (addr : Address) (len : ℕ)
      (id password : List ℕ) (sent : StunMessage)
      → IsLocals locals
      → IsSealed hmac_sha1 sent (class_response + method_binding) id password
      → c_string agent.remote_upwd ≡ password
      → 256 ≤ len
      → succeed_nominated agent ≡ some agent'
      → agent_recv md5 hmac_sha1 locals now agent (recv_datagram addr (take sent.size sent.buf)) len
        ≡ some (record {
          agent = record agent' { binding_request_time = now };
          sent = [];
          ret = some 0;
        })
  unfolding stun_class stun_method
  response_processed locals now agent agent' addr len id password sent l s same wide done =
      let type = class_response + method_binding in
      let (msg, received, class, method, s') =
        recv-IsSealed locals now agent addr len type id password sent l s wide (omega arith) in
      received
      ∙ response_by locals now agent agent' addr msg class method
          (sealed_valid hmac_sha1 md5 digest msg type id password locals.checked agent.remote_upwd
            s' l.checked (omega arith) same)
          done
