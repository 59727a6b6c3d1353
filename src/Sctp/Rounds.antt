-- ===== src/Sctp/Rounds.antt =====
-- When the loop of sctp_incoming_data (src/sctp.c) ends.
use libpeer.Base.{
  ℕ, zero, suc, ◌+◌, ◌≤◌, ◌≡◌, refl, sym, ap, ◌∙◌, ◌==◌, not, Bool, true, false, if◌then◌else◌,
  List, [], Option, none, some, get_or, arith, ◌⊎◌, inl, inr, Bool-cases, Option-cases,
}
use libpeer.Base.Word.{be32, read32}
use libpeer.Base.Memory.{store, load}
use libpeer.Sctp.State.{Sctp}
use libpeer.Sctp.Checksum.{sctp_get_checksum}
use libpeer.Sctp.Wire.{begin}
use libpeer.Sctp.Receive.{Incoming, word16, goes_on, incoming_loop, sctp_incoming_data}
use libpeer.Sctp.Places.{round_cases}

-- At a chunk whose length is zero.
abbrev pub StandsStill : List ℕ → Incoming → Type 0
StandsStill buf incoming =
    (common : List ℕ) × (load buf incoming.pos 4 ≡ some common) × (word16 common 2 ≡ 0)

abbrev pub Ends : List ℕ → ℕ → Option Incoming → Type 0
Ends buf len result =
    (result ≡ none)
    ⊎ ((last : Incoming) × (result ≡ some last)
        × ((goes_on len last ≡ false) ⊎ StandsStill buf last))

further :
    (rounds len p n w : ℕ) (next : Incoming) (buf common : List ℕ)
    → w ≡ word16 common 2
    → load buf p 4 ≡ some common
    → next.pos ≡ n
    → (n ≡ p + w) ⊎ (n ≡ len + w)
    → (len ≤ p + suc rounds) ⊎ (w ≡ 0)
    → (len ≤ next.pos + rounds) ⊎ StandsStill buf next
further rounds len p n zero next buf common ew l en (inl same) h =
    inr (common, (let here : next.pos ≡ p = omega arith in rw (here, l) refl), sym ew)
further rounds len p n zero next buf common ew l en (inr moved) h = inl (omega arith)
further rounds len p n (suc w) next buf common ew l en (inl same) (inl h) = inl (omega arith)
further rounds len p n (suc w) next buf common ew l en (inl same) (inr h) = absurd (omega arith)
further rounds len p n (suc w) next buf common ew l en (inr moved) h = inl (omega arith)

abbrev bytes_of : Option (List ℕ) → List ℕ
bytes_of none = []
bytes_of (some bytes) = bytes

width :
    (p len rounds : ℕ) (buf common : List ℕ)
    → load buf p 4 ≡ some common
    → (len ≤ p + suc rounds) ⊎ ((c : List ℕ) × (load buf p 4 ≡ some c) × (word16 c 2 ≡ 0))
    → (len ≤ p + suc rounds) ⊎ (word16 common 2 ≡ 0)
width p len rounds buf common l (inl h) = inl h
width p len rounds buf common l (inr (c, l', z)) =
    let same : c ≡ common = ap bytes_of (sym l' ∙ l) in
    inr (ap (λ (xs : List ℕ). word16 xs 2) (sym same) ∙ z)

incoming_loop-Ends :
    (rounds : ℕ) (buf : List ℕ) (len : ℕ) (incoming : Incoming)
    → (len ≤ incoming.pos + rounds) ⊎ StandsStill buf incoming
    → Ends buf len (incoming_loop rounds buf len incoming)
unfolding incoming_loop
incoming_loop-Ends zero buf len incoming (inl h) =
    inr (incoming, refl, inl (unfold goes_on in ground arith))
incoming_loop-Ends zero buf len incoming (inr h) = inr (incoming, refl, inr h)
incoming_loop-Ends (suc rounds) buf len incoming h = elim (Bool-cases (goes_on len incoming)) [
  | inr e ↦ rw e (inr (incoming, refl, inl e))
  | inl e ↦ elim (round_cases buf len incoming) [
    | inl e' ↦ rw (e, e') (inl refl)
    | inr (next, common, e', l, place) ↦
        rw (e, e')
          (incoming_loop-Ends rounds buf len next (
            further rounds len incoming.pos next.pos (word16 common 2) next buf common refl l refl
              place (width incoming.pos len rounds buf common l h)))
  ]
]

-- What a packet is read from: its memory with the checksum zero.
abbrev pub Zeroed : List ℕ → List ℕ → Type 0
Zeroed buf zeroed = store buf 8 (be32 0) ≡ some zeroed

-- Whatever was received, `len` rounds are enough, unless the loop comes to a chunk whose length field is
-- zero: after them sctp_incoming_data has ended, has accessed memory that is not there, or stands at such
-- a chunk.
pub sctp_incoming_data-Ends :
    (sctp : Sctp) (buf : List ℕ) (len : ℕ)
    → (sctp_incoming_data len sctp buf len ≡ none)
      ⊎ ((zeroed : List ℕ) × (Zeroed buf zeroed)
          × Ends zeroed len (sctp_incoming_data len sctp buf len))
unfolding sctp_incoming_data
sctp_incoming_data-Ends sctp buf len = elim (Option-cases (load buf 8 4)) [
  | inl e ↦ rw e (inl refl)
  | inr (sum, e) ↦ elim (Option-cases (store buf 8 (be32 0))) [
    | inl e' ↦ rw (e, e') (inl refl)
    | inr (zeroed, e') ↦ elim (Option-cases (load zeroed 0 len)) [
      | inl e'' ↦ rw (e, e', e'') (inl refl)
      | inr (packet, e'') ↦
          rw (e, e', e'')
            (inr (
              zeroed,
              refl,
              checked zeroed (
                  not (
                    read32 (get_or sum 3 0) (get_or sum 2 0) (get_or sum 1 0) (get_or sum 0 0)
                    == sctp_get_checksum packet)),
            ))
    ]
  ]
]
  where
    refused :
        (zeroed : List ℕ)
        → Ends zeroed len (some (record { sctp = sctp; pos = len; reply = 0; events = [] }))
    refused zeroed = inr (
      record { sctp = sctp; pos = len; reply = 0; events = [] },
      refl,
      inl (unfold goes_on in ground arith),
    )

    checked :
        (zeroed : List ℕ) (wrong : Bool)
        → Ends zeroed len (
            if wrong
            then some (record { sctp = sctp; pos = len; reply = 0; events = [] })
            else incoming_loop len zeroed len (begin sctp))
    checked zeroed true = refused zeroed
    checked zeroed false = incoming_loop-Ends len zeroed len (begin sctp) (inl (omega arith))
