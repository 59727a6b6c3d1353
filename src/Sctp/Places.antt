-- ===== src/Sctp/Places.antt =====
-- Where a round of sctp_incoming_data (src/sctp.c) leaves the position.
use libpeer.Base.{
  ℕ, ◌+◌, ◌-◌, ◌≡◌, refl, ◌∙◌, ◌==◌, Bool, true, false, if◌then◌else◌, List, Option, none, some,
  get_or, arith, ◌⊎◌, inl, inr, Option-cases,
}
use libpeer.Base.Holds.{Holds, Holds-none, Holds-some, from_Holds, if-Holds, bind-Holds}
use libpeer.Base.Memory.{store, load, ◌>>=◌}
use libpeer.Sctp.State.{sctp_sack, sctp_cookie_echo, sctp_cookie_ack, sctp_abort}
use libpeer.Sctp.Receive.{
  Incoming, write_out, emit, connect, word16, acknowledge_open, deliver, receive_data, receive_init,
  find_cookie, receive_init_ack, receive_cookie_echo, receive_abort, receive_chunk, answer_chunk,
  incoming_round,
}

-- What there is of a result is at `p` or at `q`.
abbrev StandsAt : ℕ → ℕ → Incoming → Type 0
StandsAt p q incoming = (incoming.pos ≡ p) ⊎ (incoming.pos ≡ q)

stays : (p q : ℕ) (incoming : Incoming) → incoming.pos ≡ p → Holds (StandsAt p q) (some incoming)
stays p q incoming e = Holds-some (StandsAt p q) incoming (inl e)

moves : (p q : ℕ) (incoming : Incoming) → incoming.pos ≡ q → Holds (StandsAt p q) (some incoming)
moves p q incoming e = Holds-some (StandsAt p q) incoming (inr e)

write_out-StandsAt :
    (p q : ℕ) (incoming : Incoming) (at : ℕ) (bytes : List ℕ) (f : Incoming → Option Incoming)
    → ((i : Incoming) → i.pos ≡ incoming.pos → Holds (StandsAt p q) (f i))
    → Holds (StandsAt p q) (write_out incoming at bytes >>= f)
unfolding write_out
write_out-StandsAt p q incoming at bytes f h =
    elim (Option-cases (store incoming.sctp.buf at bytes)) [
      | inl e ↦ rw e (Holds-none (StandsAt p q))
      | inr (buf', e) ↦
          rw e (h (record incoming { sctp = record incoming.sctp { buf = buf' } }) refl)
    ]

acknowledge_open-StandsAt :
    (p q : ℕ) (incoming : Incoming)
    → incoming.pos ≡ q
    → Holds (StandsAt p q) (acknowledge_open incoming)
unfolding acknowledge_open
acknowledge_open-StandsAt p q incoming e =
    write_out-StandsAt p q incoming 28 _ _ (λ i same. moves p q _ (same ∙ e))

deliver-StandsAt :
    (p q : ℕ) (incoming : Incoming) (buf chunk : List ℕ) (pos : ℕ)
    → incoming.pos ≡ q
    → Holds (StandsAt p q) (deliver incoming buf chunk pos)
unfolding deliver emit
deliver-StandsAt p q incoming buf chunk pos e = if-Holds (StandsAt p q) _ _ _ (moves p q _ e) (
    if-Holds (StandsAt p q) _ _ _ (Holds-none (StandsAt p q)) (
      bind-Holds (StandsAt p q) (load buf (pos + 16) (word16 chunk 2 - 16)) _
        (λ bytes. moves p q _ e)))

receive_data-StandsAt :
    (incoming : Incoming) (buf : List ℕ) (len : ℕ)
    → Holds (StandsAt incoming.pos len) (receive_data incoming buf len)
unfolding receive_data
receive_data-StandsAt incoming buf len =
    let p = incoming.pos in
    bind-Holds (StandsAt p len) (load buf p 16) _ (λ chunk.
      write_out-StandsAt p len incoming 12 _ _ (λ sack same.
        let acked = record sack { pos = len; reply = 28 } in
        if-Holds (StandsAt p len) _ _ _
          (bind-Holds (StandsAt p len) (load buf (p + 16) 1) _ (λ first.
            if-Holds (StandsAt p len) _ _ _ (acknowledge_open-StandsAt p len acked refl)
              (moves p len _ refl)))
          (if-Holds (StandsAt p len) _ _ _ (deliver-StandsAt p len acked buf chunk p refl)
            (moves p len _ refl))))

receive_init-StandsAt :
    (q : ℕ) (incoming : Incoming) (buf : List ℕ)
    → Holds (StandsAt incoming.pos q) (receive_init incoming buf)
unfolding receive_init
receive_init-StandsAt q incoming buf =
    bind-Holds (StandsAt incoming.pos q) (load buf 16 4) _ (λ tag.
      write_out-StandsAt incoming.pos q incoming 12 _ _ (λ ack same. stays incoming.pos q _ same))

receive_init_ack-StandsAt :
    (q : ℕ) (incoming : Incoming) (buf : List ℕ)
    → Holds (StandsAt incoming.pos q) (receive_init_ack incoming buf)
unfolding receive_init_ack
receive_init_ack-StandsAt q incoming buf =
    let p = incoming.pos in
    bind-Holds (StandsAt p q) (load buf 12 4) _ (λ common.
      bind-Holds (StandsAt p q) (load buf 16 4) _ (λ tag.
        bind-Holds (StandsAt p q) (find_cookie _ buf 0 _) _ (λ i.
          bind-Holds (StandsAt p q) (load buf (32 + i) 4) _ (λ param.
            if-Holds (StandsAt p q) _ _ _ (Holds-none (StandsAt p q)) (
              bind-Holds (StandsAt p q) (load buf (32 + i + 4) (word16 param 2 - 4)) _ (λ value.
                write_out-StandsAt p q incoming 12 _ _ (λ echo same. stays p q _ same)))))))

if_pos : (b : Bool) (x y : Incoming) (p : ℕ) → x.pos ≡ p → y.pos ≡ p → (if b then x else y).pos ≡ p
if_pos true x y p hx hy = hx
if_pos false x y p hx hy = hy

connect_pos : (incoming : Incoming) → (connect incoming).pos ≡ incoming.pos
unfolding connect emit
connect_pos incoming =
    if_pos incoming.sctp.connected _ _ incoming.pos refl
      (if_pos incoming.sctp.onopen _ _ incoming.pos refl refl)

receive_abort_pos : (incoming : Incoming) → (receive_abort incoming).pos ≡ incoming.pos
unfolding receive_abort emit
receive_abort_pos incoming = if_pos incoming.sctp.onclose _ _ incoming.pos refl refl

receive_cookie_echo-StandsAt :
    (incoming : Incoming) (len : ℕ)
    → Holds (StandsAt incoming.pos len) (receive_cookie_echo incoming len)
unfolding receive_cookie_echo
receive_cookie_echo-StandsAt incoming len =
    write_out-StandsAt incoming.pos len incoming 12 _ _ (λ typed same.
      write_out-StandsAt incoming.pos len typed 14 _ _ (λ ack same'.
        moves incoming.pos len _ (connect_pos (record ack { pos = len; reply = 16 }))))

receive_chunk-StandsAt :
    (incoming : Incoming) (buf : List ℕ) (len type : ℕ)
    → Holds (StandsAt incoming.pos len) (receive_chunk incoming buf len type)
unfolding receive_chunk
receive_chunk-StandsAt incoming buf len type =
    let p = incoming.pos in
    if-Holds (StandsAt p len) _ _ _ (receive_data-StandsAt incoming buf len) (
      if-Holds (StandsAt p len) _ _ _ (receive_init-StandsAt len incoming buf) (
        if-Holds (StandsAt p len) _ _ _ (receive_init_ack-StandsAt len incoming buf) (
          if-Holds (StandsAt p len) (type == sctp_sack) (some incoming) _ (stays p len _ refl) (
            if-Holds (StandsAt p len) (type == sctp_cookie_echo) _ _
              (receive_cookie_echo-StandsAt incoming len)
              (if-Holds (StandsAt p len) (type == sctp_cookie_ack) (some (connect incoming)) _
                (stays p len _ (connect_pos incoming))
                (if-Holds (StandsAt p len) (type == sctp_abort) (some (receive_abort incoming))
                  (some (record incoming { reply = 0 }))
                  (stays p len _ (receive_abort_pos incoming))
                  (stays p len (record incoming { reply = 0 }) refl)))))))

answer_chunk-StandsAt :
    (q : ℕ) (incoming : Incoming) → Holds (StandsAt incoming.pos q) (answer_chunk incoming)
unfolding answer_chunk emit
answer_chunk-StandsAt q incoming =
    let p = incoming.pos in
    write_out-StandsAt p q incoming 0 _ _ (λ headed same.
      if-Holds (StandsAt p q) _ _ _ (stays p q _ same) (
        bind-Holds (StandsAt p q) (load headed.sctp.buf 0 _) _ (λ packet.
          write_out-StandsAt p q headed 8 _ _ (λ summed same'.
            bind-Holds (StandsAt p q) (load summed.sctp.buf 0 _) _
              (λ sent. stays p q _ (same' ∙ same))))))

pub round_cases :
    (buf : List ℕ) (len : ℕ) (incoming : Incoming)
    → (incoming_round buf len incoming ≡ none)
      ⊎ ((next : Incoming) × (common : List ℕ) × (incoming_round buf len incoming ≡ some next)
          × (load buf incoming.pos 4 ≡ some common)
          × ((next.pos ≡ incoming.pos + word16 common 2) ⊎ (next.pos ≡ len + word16 common 2)))
unfolding incoming_round
round_cases buf len incoming = elim (Option-cases (load buf incoming.pos 4)) [
  | inl e ↦ rw e (inl refl)
  | inr (common, e) ↦ elim (Option-cases (receive_chunk incoming buf len (get_or common 0 0))) [
    | inl e' ↦ rw (e, e') (inl refl)
    | inr (switched, e') ↦ elim (Option-cases (answer_chunk switched)) [
      | inl e'' ↦ rw (e, e', e'') (inl refl)
      | inr (answered, e'') ↦
          let there = rw e' at (receive_chunk-StandsAt incoming buf len (get_or common 0 0)) in
          let same = rw e'' at (answer_chunk-StandsAt switched.pos switched) in
          rw (e, e', e'')
            (inr (
              record answered { pos = answered.pos + word16 common 2 },
              common,
              refl,
              refl,
              places answered.pos switched.pos incoming.pos len (word16 common 2)
                  (from_Holds (StandsAt switched.pos switched.pos) _ answered refl same)
                  (from_Holds (StandsAt incoming.pos len) _ switched refl there),
            ))
    ]
  ]
]
  where
    places :
        (a s p len w : ℕ)
        → (a ≡ s) ⊎ (a ≡ s)
        → (s ≡ p) ⊎ (s ≡ len)
        → (a + w ≡ p + w) ⊎ (a + w ≡ len + w)
    places a s p len w h h' = omega arith
