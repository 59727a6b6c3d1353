-- ===== src/Agent/Response.antt =====
-- The binding responses of the agent are finished messages (src/agent.c).
use libpeer.Base.{
  ℕ, ◌+◌, ◌≤◌, ◌≡◌, ◌≢◌, ◌⊎◌, inl, inr, refl, some, List, [], ◌∷◌, ◌++◌, length, get_or, arith,
}
use libpeer.Base.Word.{be32}
use libpeer.Base.Memory.{load-append}
use libpeer.Address.{Address}
use libpeer.Stun.Message.{
  StunMessage, magic_cookie, class_response, method_binding, set_transaction_id, stun_msg_create,
  default_id,
}
use libpeer.Stun.Mapped.{stun_set_mapped_address}
use libpeer.Stun.MappedWrite.{set_mapped_lem, IsAddress}
use libpeer.Stun.Write.{
  padded, value_bytes, attr_username, attr_xor_mapped_address, c_string, short_term,
  stun_msg_write_attr, stun_msg_finish,
}
use libpeer.Stun.Build.{IsBuilt, create-IsBuilt, build_address, set_id-IsWritten}
use libpeer.Stun.Sealed.{IsSealed, finish-IsSealed}
use libpeer.Agent.State.{Agent}
use libpeer.Agent.Messages.{name_pair, printed, agent_create_binding_response}
use libpeer.Agent.Binding.{name-IsBuilt}

-- The array the address is written into.
address-IsBuilt :
    (msg : StunMessage) (type : ℕ) (id : List ℕ) (size : ℕ) (mem mask : List ℕ) (addr : Address)
    → IsBuilt msg type id size
    → length mem ≡ 32
    → length mask ≡ 16
    → IsAddress addr
    → size + 24 ≤ 256
    → (filled : List ℕ) × (len : ℕ) × (msg' : StunMessage) × (size' : ℕ) × (stun_set_mapped_address
          mem mask addr
        ≡ some (filled, len))
      × (stun_msg_write_attr msg attr_xor_mapped_address len (some filled) ≡ some msg')
      × (size' ≤ size + 24)
      × IsBuilt msg' type id size'
unfolding value_bytes
address-IsBuilt msg type id size [] mask addr b array wide a fits = absurd (omega arith)
address-IsBuilt msg type id size (x ∷ rest) mask addr b array wide a fits =
    let (family, bytes, rest', len, set, long, sizes) =
      set_mapped_lem x rest mask addr (omega arith) (omega arith) a in
    let readable : (get_or (x ∷ (family ∷ bytes)) 1 0 ≢ 2) ⊎ (20 ≤ length (x ∷ (family ∷ bytes))) =
      elim sizes [ inl both ↦ inl (λ e. omega (arith, both)) | inr e ↦ inr (omega arith) ] in
    let small : padded len + 4 ≤ 24 = unfold padded in omega (arith, sizes) in
    let (msg', written, built) =
      build_address msg type id size len (some (x ∷ (family ∷ (bytes ++ rest'))))
        (x ∷ (family ∷ bytes)) b (load-append (x ∷ (family ∷ bytes)) rest' len (omega arith))
        (omega arith) (omega (arith, sizes)) readable (omega arith) in
    (
      x ∷ (family ∷ (bytes ++ rest')),
      len,
      msg',
      size + (padded len + 4),
      set,
      written,
      omega arith,
      built,
    )

module _ (md5 : List ℕ → List ℕ) (hmac_sha1 : List ℕ → List ℕ → List ℕ)
    (digest : (key message : List ℕ) → length (hmac_sha1 key message) ≡ 20) (agent : Agent) where
  response_by :
      (username mapped_address filled name : List ℕ) (len : ℕ)
      (msg begun addressed named msg' : StunMessage) (addr : Address)
      → record (stun_msg_create msg (class_response + method_binding)) {
        buf =
            set_transaction_id
              (stun_msg_create msg (class_response + method_binding)).buf
              agent.transaction_id;
      }
        ≡ begun
      → name_pair agent.local_ufrag agent.remote_ufrag ≡ name
      → stun_set_mapped_address mapped_address (be32 magic_cookie ++ agent.transaction_id) addr
        ≡ some (filled, len)
      → stun_msg_write_attr begun attr_xor_mapped_address len (some filled) ≡ some addressed
      → stun_msg_write_attr addressed attr_username (length name) (some (printed name username))
        ≡ some named
      → stun_msg_finish md5 hmac_sha1 named short_term (c_string agent.local_upwd) ≡ some msg'
      → agent_create_binding_response md5 hmac_sha1 username mapped_address agent msg addr
        ≡ some msg'
  unfolding agent_create_binding_response
  response_by username mapped_address filled name len msg begun addressed named msg' addr e0 e1 e2
        e3 e4 e5 =
      rw (e0, e1, e2, e3, e4) e5

  -- agent_create_binding_response
  pub response-IsSealed :
      (username mapped_address : List ℕ) (msg : StunMessage) (addr : Address)
      → length username ≡ 584
      → length mapped_address ≡ 32
      → length msg.buf ≡ 256
      → length msg.username ≡ 128
      → length agent.transaction_id ≡ 12
      → IsAddress addr
      → length (name_pair agent.local_ufrag agent.remote_ufrag) ≤ 128
      → (msg' : StunMessage) × (agent_create_binding_response md5 hmac_sha1 username mapped_address
            agent msg addr
          ≡ some msg')
        × IsSealed hmac_sha1 msg'
            (class_response + method_binding)
            agent.transaction_id
            (c_string agent.local_upwd)
  response-IsSealed username mapped_address msg addr array array' whole kept named a short =
      let type = class_response + method_binding in
      let created = stun_msg_create msg type in
      let begun = record created { buf = set_transaction_id created.buf agent.transaction_id } in
      let name = name_pair agent.local_ufrag agent.remote_ufrag in
      let b0 = create-IsBuilt msg type whole kept in
      let b1 : IsBuilt begun type agent.transaction_id 20 = record {
        attrs = b0.attrs;
        tail = b0.tail;
        written =
            set_id-IsWritten created.buf created.size type default_id agent.transaction_id b0.attrs
              b0.tail b0.written named;
        sized = b0.sized;
        valid = b0.valid;
        readable = b0.readable;
        name_size = b0.name_size;
      } in
      let (filled, len, addressed, size, e2, e3, fits, b2) =
        address-IsBuilt begun type agent.transaction_id 20 mapped_address
          (be32 magic_cookie ++ agent.transaction_id) addr b1 array' (omega arith) a
          (omega arith) in
      let (finishing, size', e4, fits', b3) =
        name-IsBuilt addressed type agent.transaction_id size name username b2 short array
          (omega arith) in
      let (msg', e5, sealed) =
        finish-IsSealed hmac_sha1 md5 digest finishing type agent.transaction_id
          (c_string agent.local_upwd) size' b3 (omega arith) in
      (
        msg',
        response_by username mapped_address filled name len msg begun addressed finishing msg' addr
            refl refl e2 e3 e4 e5,
        sealed,
      )
