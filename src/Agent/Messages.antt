-- ===== src/Agent/Messages.antt =====
-- The messages of the agent: agent_create_binding_response and agent_create_binding_request (src/agent.c).
use libpeer.Base.{ℕ, suc, ◌+◌, Option, none, some, List, ◌∷◌, ◌++◌, length, take, drop, replicate}
use libpeer.Base.Word.{be32}
use libpeer.Base.Memory.{◌>>=◌}
use libpeer.Address.{Address}
use libpeer.Stun.Message.{
  StunMessage, magic_cookie, class_request, class_response, method_binding, set_transaction_id,
  stun_msg_create,
}
use libpeer.Stun.Mapped.{stun_set_mapped_address}
use libpeer.Stun.Write.{
  attr_username, attr_xor_mapped_address, c_string, short_term, stun_msg_write_attr,
  stun_msg_finish,
}
use libpeer.Rtcp.{le32}
use libpeer.Agent.State.{Agent, AgentMode, controlled, controlling}

-- More members of StunAttrType.
abbrev pub attr_priority : ℕ
attr_priority = 0x0024

abbrev pub attr_use_candidate : ℕ
attr_use_candidate = 0x0025

abbrev pub attr_ice_controlled : ℕ
attr_ice_controlled = 0x8029

abbrev pub attr_ice_controlling : ℕ
attr_ice_controlling = 0x802a

-- "%s:%s" in an array of 584 characters.
unfoldable pub name_pair : List ℕ → List ℕ → List ℕ
name_pair ufrag ufrag' = take 583 (c_string ufrag ++ (58 ∷ c_string ufrag'))

-- The array when a string has been printed into it.
unfoldable pub printed : List ℕ → List ℕ → List ℕ
printed string mem = string ++ (0 ∷ drop (suc (length string)) mem)

-- The role of the agent in a request: the tie breaker is the 8 bytes of a random number.
unfoldable pub write_role : AgentMode → List ℕ → StunMessage → Option StunMessage
write_role controlling tie_breaker msg = do
  using ← stun_msg_write_attr msg attr_use_candidate 0 none
  stun_msg_write_attr using attr_ice_controlling 8 (some tie_breaker)
write_role controlled tie_breaker msg =
    stun_msg_write_attr msg attr_ice_controlled 8 (some tie_breaker)

module _ (md5 : List ℕ → List ℕ) (hmac_sha1 : List ℕ → List ℕ → List ℕ) where
  -- agent_create_binding_response; `username` and `mapped_address` are what its local arrays hold.
  unfoldable pub agent_create_binding_response :
      List ℕ → List ℕ → Agent → StunMessage → Address → Option StunMessage
  agent_create_binding_response username mapped_address agent msg addr = do
    let created = stun_msg_create msg (class_response + method_binding)
    let begun = record created { buf = set_transaction_id created.buf agent.transaction_id }
    let name = name_pair agent.local_ufrag agent.remote_ufrag
    set ← stun_set_mapped_address mapped_address (be32 magic_cookie ++ agent.transaction_id) addr
    let (value, size) = set
    addressed ← stun_msg_write_attr begun attr_xor_mapped_address size (some value)
    named ← stun_msg_write_attr addressed attr_username (length name) (some (printed name username))
    stun_msg_finish md5 hmac_sha1 named short_term (c_string agent.local_upwd)

  -- agent_create_binding_request, `priority` being that of the nominated pair.
  unfoldable pub agent_create_binding_request :
      List ℕ → ℕ → Agent → StunMessage → Option StunMessage
  agent_create_binding_request tie_breaker priority agent msg = do
    let created = stun_msg_create msg (class_request + method_binding)
    let name = name_pair agent.remote_ufrag agent.local_ufrag
    named ←
        stun_msg_write_attr created attr_username (length name)
          (some (printed name (replicate 584 0)))
    ranked ← stun_msg_write_attr named attr_priority 4 (some (le32 priority))
    ready ← write_role agent.mode tie_breaker ranked
    stun_msg_finish md5 hmac_sha1 ready short_term (c_string agent.remote_upwd)
