-- ===== src/Agent/Binding.antt =====
-- The binding requests and responses of the agent are finished messages (src/agent.c).
use libpeer.Base.{
  ℕ, suc, ◌+◌, ◌≤◌, ◌≡◌, refl, none, some, List, [], ◌∷◌, length, length-drop, drop, replicate,
  take_all, arith,
}
use libpeer.Base.Memory.{load}
use libpeer.Stun.Message.{StunMessage, class_request, method_binding, stun_msg_create, default_id}
use libpeer.Stun.Write.{
  padded, value_bytes, attr_username, c_string, short_term, stun_msg_write_attr, stun_msg_finish,
}
use libpeer.Stun.Build.{IsBuilt, create-IsBuilt, build_username, build_skipped}
use libpeer.Stun.Sealed.{IsSealed, finish-IsSealed}
use libpeer.Rtcp.{le32}
use libpeer.Agent.State.{Agent, AgentMode, controlled, controlling}
use libpeer.Agent.Messages.{
  name_pair, printed, attr_priority, attr_use_candidate, attr_ice_controlling, attr_ice_controlled,
  write_role, agent_create_binding_request,
}

padded_small : (n : ℕ) → n ≤ 128 → padded n ≤ 128
unfolding padded
padded_small n h = omega arith

-- A value that is all of its memory.
whole_value : (mem : List ℕ) → value_bytes (some mem) (length mem) ≡ some mem
unfolding value_bytes load
whole_value mem = ground (arith, take_all (length mem) mem (omega arith))

module _ (msg : StunMessage) (type : ℕ) (id : List ℕ) (size : ℕ) (b : IsBuilt msg type id size)
    (tie_breaker : List ℕ) (eight : length tie_breaker ≡ 8) (fits : size + 16 ≤ 256) where
  -- The attributes of the agent's role.
  role-IsBuilt :
      (mode : AgentMode)
      → (msg' : StunMessage) × (size' : ℕ) × (write_role mode tie_breaker msg ≡ some msg')
        × (size' ≤ size + 16)
        × IsBuilt msg' type id size'
  unfolding write_role
  role-IsBuilt controlled =
      let (msg', written, built) =
        build_skipped msg type id size attr_ice_controlled 8 (some tie_breaker) tie_breaker b
          (omega arith) (ground arith) (rw eight at (whole_value tie_breaker)) eight
          (unfold padded in omega arith) in
      (msg', size + (padded 8 + 4), written, unfold padded in omega arith, built)
  role-IsBuilt controlling =
      let (using, first, built) =
        build_skipped msg type id size attr_use_candidate 0 none [] b (omega arith) (ground arith)
          (unfold value_bytes in refl) refl (unfold padded in omega arith) in
      let (msg', second, built') =
        build_skipped using type id (size + (padded 0 + 4)) attr_ice_controlling 8
          (some tie_breaker) tie_breaker built (omega arith) (ground arith)
          (rw eight at (whole_value tie_breaker)) eight (unfold padded in omega arith) in
      (
        msg',
        size + (padded 0 + 4) + (padded 8 + 4),
        rw first second,
        unfold padded in omega arith,
        built',
      )

-- A name in an array of 584 characters.
pub name-IsBuilt :
    (msg : StunMessage) (type : ℕ) (id : List ℕ) (size : ℕ) (name mem : List ℕ)
    → IsBuilt msg type id size
    → length name ≤ 128
    → length mem ≡ 584
    → size + 132 ≤ 256
    → (msg' : StunMessage) × (size' : ℕ) × (stun_msg_write_attr msg attr_username
          (length name)
          (some (printed name mem))
        ≡ some msg')
      × (size' ≤ size + 132)
      × IsBuilt msg' type id size'
unfolding printed
name-IsBuilt msg type id size name mem b short array fits =
    let small = padded_small (length name) short in
    let (msg', written, built) =
      build_username msg type id size name (0 ∷ drop (suc (length name)) mem) b small
        (omega (arith, length-drop (suc (length name)) mem)) (omega arith) in
    (msg', size + (padded (length name) + 4), written, omega arith, built)

module _ (md5 : List ℕ → List ℕ) (hmac_sha1 : List ℕ → List ℕ → List ℕ)
    (digest : (key message : List ℕ) → length (hmac_sha1 key message) ≡ 20) (agent : Agent) where
  request_by :
      (tie_breaker : List ℕ) (priority : ℕ) (msg named ranked ready msg' : StunMessage)
      (name : List ℕ)
      → name_pair agent.remote_ufrag agent.local_ufrag ≡ name
      → stun_msg_write_attr
          (stun_msg_create msg (class_request + method_binding))
          attr_username
          (length name)
          (some (printed name (replicate 584 0)))
        ≡ some named
      → stun_msg_write_attr named attr_priority 4 (some (le32 priority)) ≡ some ranked
      → write_role agent.mode tie_breaker ranked ≡ some ready
      → stun_msg_finish md5 hmac_sha1 ready short_term (c_string agent.remote_upwd) ≡ some msg'
      → agent_create_binding_request md5 hmac_sha1 tie_breaker priority agent msg ≡ some msg'
  unfolding agent_create_binding_request
  request_by tie_breaker priority msg named ranked ready msg' name e0 e1 e2 e3 e4 =
      rw (e0, e1, e2, e3) e4

  -- agent_create_binding_request
  pub request-IsSealed :
      (tie_breaker : List ℕ) (priority : ℕ) (msg : StunMessage)
      → length tie_breaker ≡ 8
      → length msg.buf ≡ 256
      → length msg.username ≡ 128
      → length (name_pair agent.remote_ufrag agent.local_ufrag) ≤ 128
      → (msg' : StunMessage) × (agent_create_binding_request md5 hmac_sha1 tie_breaker priority
            agent msg
          ≡ some msg')
        × IsSealed hmac_sha1 msg'
            (class_request + method_binding)
            default_id
            (c_string agent.remote_upwd)
  request-IsSealed tie_breaker priority msg eight whole kept short =
      let type = class_request + method_binding in
      let name = name_pair agent.remote_ufrag agent.local_ufrag in
      let zeros : List ℕ = replicate 584 0 in
      let created = create-IsBuilt msg type whole kept in
      let array : length zeros ≡ 584 = refl in
      let (named, size, e1, fits, b1) =
        name-IsBuilt (stun_msg_create msg type) type default_id 20 name zeros created short array
          (omega arith) in
      let (ranked, e2, b2) =
        build_skipped named type default_id size attr_priority 4 (some (le32 priority))
          (le32 priority) b1 (omega arith) (ground arith)
          (unfold le32 in whole_value (le32 priority)) (unfold le32 in refl)
          (unfold padded in omega arith) in
      let (ready, size', e3, fits', b3) =
        role-IsBuilt ranked type default_id (size + (padded 4 + 4)) b2 tie_breaker eight
          (unfold padded in omega arith) agent.mode in
      let (msg', e4, sealed) =
        finish-IsSealed hmac_sha1 md5 digest ready type default_id (c_string agent.remote_upwd)
          size' b3 (unfold padded in omega arith) in
      (
        msg',
        request_by tie_breaker priority msg named ranked ready msg' name refl e1 e2 e3 e4,
        sealed,
      )
