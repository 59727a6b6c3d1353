-- ===== src/Sctp/Endless.antt =====
-- A chunk that sctp_incoming_data (src/sctp.c) does not know, of the length zero.
use libpeer.Base.{
  ℕ, zero, suc, ◌+◌, ◌<◌, ◌≤◌, ◌≡◌, refl, sym, ◌∙◌, ◌==◌, true, false, List, [], ◌∷◌, ◌++◌, Option,
  some, length, length-append, length-replicate, arith, append_assoc, append-nil,
}
use libpeer.Base.Word.{be32}
use libpeer.Base.Memory.{load, store_fits, load-middle}
use libpeer.Sctp.State.{Sctp, sctp_header, checksummed}
use libpeer.Sctp.Receive.{
  Incoming, word16, receive_chunk, incoming_round, goes_on, incoming_loop, sctp_incoming_data,
}
use libpeer.Sctp.Wire.{begin, sctp_incoming_data-checksummed}
use libpeer.Sctp.Answer.{answer_none}
use libpeer.Sctp.Data.{round_by, goes_on_first}

other : (type k : ℕ) → 11 < type → k ≤ 11 → (type == k) ≡ false
other type k h small = ground arith

receive_chunk_unknown :
    (incoming : Incoming) (buf : List ℕ) (len type : ℕ)
    → 11 < type
    → receive_chunk incoming buf len type ≡ some (record incoming { reply = 0 })
unfolding receive_chunk
receive_chunk_unknown incoming buf len type h =
    rw
      (
        other type 0 h (omega arith),
        other type 1 h (omega arith),
        other type 2 h (omega arith),
        other type 3 h (omega arith),
        other type 10 h (omega arith),
        other type 11 h (omega arith),
        other type 6 h (omega arith),
      )
      refl

-- The round leaves everything that the loop looks at as it was.
stands_round :
    (buf : List ℕ) (len type flags : ℕ) (incoming : Incoming)
    → load buf 12 4 ≡ some (type ∷ flags ∷ 0 ∷ 0 ∷ [])
    → 11 < type
    → incoming.pos ≡ 12
    → length incoming.sctp.buf ≡ 1300
    → length incoming.sctp.verification_tag ≡ 4
    → (buf' : List ℕ) × (length buf' ≡ 1300)
      × (incoming_round buf len incoming
          ≡ some
              (record incoming { sctp = record incoming.sctp { buf = buf' }; pos = 12; reply = 0 }))
unfolding word16
stands_round buf len type flags incoming l unknown here size tag =
    let (buf', stored, same) = store_fits incoming.sctp.buf (sctp_header incoming.sctp) 0 (
      unfold sctp_header in omega (arith, length-append incoming.sctp.verification_tag (be32 0))) in
    let at12 = record incoming { pos = 12 } in
    (
      buf',
      omega arith,
      moved buf len incoming here (
          round_by buf (type ∷ flags ∷ 0 ∷ 0 ∷ []) len at12 _ _ l
            (receive_chunk_unknown at12 buf len type unknown)
            (answer_none incoming.sctp 12 incoming.events buf' stored)),
    )
  where
    moved :
        {result : Option Incoming} (buf : List ℕ) (len : ℕ) (incoming : Incoming)
        → incoming.pos ≡ 12
        → incoming_round buf len (record incoming { pos = 12 }) ≡ result
        → incoming_round buf len incoming ≡ result
    moved buf len incoming e h = rw (← e) at h

stands :
    (rounds : ℕ) (buf : List ℕ) (len type flags : ℕ) (incoming : Incoming)
    → load buf 12 4 ≡ some (type ∷ flags ∷ 0 ∷ 0 ∷ [])
    → 11 < type
    → 16 ≤ len
    → incoming.pos ≡ 12
    → length incoming.sctp.buf ≡ 1300
    → length incoming.sctp.verification_tag ≡ 4
    → (last : Incoming) × (incoming_loop rounds buf len incoming ≡ some last)
      × (goes_on len last ≡ true)
unfolding incoming_loop
stands zero buf len type flags incoming l unknown enough here size tag =
    (incoming, refl, goes_on_first len incoming here enough)
stands (suc rounds) buf len type flags incoming l unknown enough here size tag =
    let (buf', size', round) = stands_round buf len type flags incoming l unknown here size tag in
    let next = record incoming {
      sctp = record incoming.sctp { buf = buf' };
      pos = 12;
      reply = 0;
    } in
    let (last, e, on) = stands rounds buf len type flags next l unknown enough refl size' tag in
    (last, rw (goes_on_first len incoming here enough, round) e, on)

-- The loop has not ended after so many rounds.
abbrev pub GoesOn : ℕ → Sctp → List ℕ → ℕ → Type 0
GoesOn rounds rx packet len =
    (last : Incoming) × (sctp_incoming_data rounds rx packet len ≡ some last)
    × (goes_on len last ≡ true)

-- A packet with a valid checksum whose first chunk is of a type above 11 and has a zero in its length field
-- keeps the loop going: after any number of rounds the condition of the loop holds.
pub sctp_incoming_data_endless :
    (rounds : ℕ) (rx : Sctp) (h : List ℕ) (type flags : ℕ) (rest : List ℕ)
    → length h ≡ 8
    → length rx.verification_tag ≡ 4
    → 11 < type
    → let chunk = type ∷ flags ∷ 0 ∷ 0 ∷ rest in
      GoesOn rounds rx (checksummed (h ++ (be32 0 ++ chunk))) (12 + length chunk)
sctp_incoming_data_endless rounds rx h type flags rest e tag unknown =
    let common = type ∷ flags ∷ 0 ∷ 0 ∷ [] in
    let chunk = common ++ rest in
    let buf = h ++ (be32 0 ++ chunk) in
    let enters =
      rw (append-nil (checksummed buf), append-nil chunk) at
        (sctp_incoming_data-checksummed rounds rx h chunk [] e) in
    let shape : buf ≡ (h ++ be32 0) ++ (common ++ rest) = sym (append_assoc h (be32 0) chunk) in
    let first : load buf 12 4 ≡ some common =
      rw shape (
        load-middle (h ++ be32 0) common rest 12 4 (omega (arith, length-append h (be32 0)))
          refl) in
    let (last, ends, on) =
      stands rounds buf (12 + length chunk) type flags (begin rx) first unknown (omega arith) refl
        (length-replicate {A = ℕ} 1300 0) tag in
    (last, enters ∙ ends, on)
