-- ===== src/Av1/Stored.antt =====
-- The elements that av1_parse_temporal_unit stores (src/rtp.c), whatever bytes it is given.
use libpeer.Base.{
  ℕ, zero, suc, ◌+◌, ◌-◌, ◌≤◌, ◌<◌, ◌≡◌, refl, sym, ap, ◌∙◌, Bool, false, List, [], ◌∷◌, ◌++◌, some,
  arith, to_ℕ, length, length-append, take, drop, take-append-drop, take-append_exact, append_assoc,
  All, All-append, All-drop, Option-cases, inl, inr,
}
use libpeer.Base.Word.{IsByte}
use libpeer.Av1.Obu.{
  Av1ObuElement, has_extension, has_size_field, obu_sizes, element_of, take_obu, Progress,
  parse_obu, parsed, parse_loop, parse_temporal_unit, max_obu_per_tu,
}
use libpeer.Av1.Elements.{IsElement}
use libpeer.Av1.Parse.{parse_loop_stop, parse_loop_step}
use libpeer.Av1.Found.{clear_size, IsFound, element_of-IsFound}

element_of-IsElement :
    (hdr hdr_size len_size payload_size : ℕ) (rest : List ℕ)
    → hdr < 256
    → hdr_size ≡ 1 + to_ℕ (has_extension hdr)
    → IsElement (element_of hdr hdr_size len_size payload_size rest)
unfolding element_of has_size_field has_extension
element_of-IsElement hdr hdr_size len_size payload_size rest lt e = record {
  byte = omega (arith, clear_size hdr lt);
  no_size = ground (arith, clear_size hdr lt);
  header = ground (arith, clear_size hdr lt);
  plain = λ h. ground (arith, clear_size hdr lt);
}

-- `rest` is what is left of the buffer.
abbrev IsEnd : List ℕ → List ℕ → Type 0
IsEnd buf rest = buf ≡ take (length buf - length rest) buf ++ rest

behind-IsEnd : (buf before rest : List ℕ) → buf ≡ before ++ rest → IsEnd buf rest
behind-IsEnd buf before rest e =
    let size : length buf - length rest ≡ length before =
      omega (arith, ap (λ (xs : List ℕ). length xs) e, length-append before rest) in
    let front : take (length buf - length rest) buf ≡ before =
      ap (take (length buf - length rest)) e ∙ take-append_exact _ before rest size in
    e ∙ ap (λ xs. xs ++ rest) (sym front)

drop-IsEnd : (buf rest : List ℕ) (n : ℕ) → IsEnd buf rest → IsEnd buf (drop n rest)
drop-IsEnd buf rest n e =
    let before = take (length buf - length rest) buf in
    behind-IsEnd buf (before ++ take n rest) (drop n rest) (
      e
      ∙ (ap (λ xs. before ++ xs) (sym (take-append-drop n rest))
          ∙ sym (append_assoc before (take n rest) (drop n rest))))

-- What holds while the loop runs.
record IsParsing (buf : List ℕ) (s : Progress) : Type 0 where
  pub found : All (IsFound buf) s.elements
  pub reached : IsEnd buf s.rest
  pub stored : All IsElement s.elements
  pub few : length s.elements ≤ max_obu_per_tu
  pub bytes : All IsByte s.rest

take_obu-IsParsing :
    (buf : List ℕ) (hdr : ℕ) (behind : List ℕ) (sizes : ℕ × ℕ × ℕ) (s s' : Progress)
    → hdr < 256
    → s.rest ≡ hdr ∷ behind
    → IsParsing buf s
    → obu_sizes hdr (1 + to_ℕ (has_extension hdr)) s.rest ≡ some sizes
    → take_obu hdr (1 + to_ℕ (has_extension hdr)) sizes s ≡ some s'
    → IsParsing buf s'
unfolding take_obu
take_obu-IsParsing buf hdr behind (payload_size, len_size, consumed) s s' lt here p known taken =
    let hdr_size = 1 + to_ℕ (has_extension hdr) in
    let e' = element_of hdr hdr_size len_size payload_size s.rest in
    let before = take (length buf - length s.rest) buf in
    let f : IsFound buf e' = rw here (
      element_of-IsFound buf before hdr len_size payload_size consumed behind lt
        (p.reached ∙ ap (λ xs. before ++ xs) here) (rw here at known)) in
    let found' = All-append (IsFound buf) s.elements (e' ∷ []) p.found (f, tt) in
    let reached' = drop-IsEnd buf s.rest consumed p.reached in
    let bytes' = All-drop IsByte consumed s.rest p.bytes in
    let v = element_of-IsElement hdr hdr_size len_size payload_size s.rest lt refl in
    let stored' = All-append IsElement s.elements (e' ∷ []) p.stored (v, tt) in
    ground (
      arith,
      bytes',
      stored',
      found',
      reached',
      length-append s.elements (e' ∷ []),
      p.stored,
      p.found,
      p.few,
    )

parse_obu-IsParsing :
    (buf : List ℕ) (hdr : ℕ) (behind : List ℕ) (s s' : Progress)
    → hdr < 256
    → s.rest ≡ hdr ∷ behind
    → IsParsing buf s
    → parse_obu hdr s ≡ some s'
    → IsParsing buf s'
unfolding parse_obu
parse_obu-IsParsing buf hdr behind s s' lt here p h =
    let hdr_size = 1 + to_ℕ (has_extension hdr) in
    elim (Option-cases (obu_sizes hdr hdr_size s.rest)) [
      | inl e ↦ absurd (ground (arith, e))
      | inr (sizes, e) ↦
          take_obu-IsParsing buf hdr behind sizes s s' lt here p e (ground (arith, e))
    ]

parse_loop-IsParsing :
    (buf : List ℕ) (fuel : ℕ) (before : List Av1ObuElement) (m : Bool) (rest : List ℕ)
    (elements : List Av1ObuElement) (n : Bool)
    → IsParsing buf (record { elements = before; new_sequence = m; rest = rest })
    → parse_loop fuel before m rest ≡ parsed elements n
    → All IsElement elements × All (IsFound buf) elements × (length elements ≤ max_obu_per_tu)
parse_loop-IsParsing buf zero before m [] elements n p h =
    let same : before ≡ elements = unfold parse_loop in ground (arith, h) in
    rw (← same) (p.stored, p.found, p.few)
parse_loop-IsParsing buf (suc fuel) before m [] elements n p h =
    let same : before ≡ elements = unfold parse_loop in ground (arith, h) in
    rw (← same) (p.stored, p.found, p.few)
parse_loop-IsParsing buf zero before m (hdr ∷ rest) elements n p h =
    absurd (unfold parse_loop in ground (arith, h))
parse_loop-IsParsing buf (suc fuel) before m (hdr ∷ rest) elements n p h =
    let s : Progress = record { elements = before; new_sequence = m; rest = hdr ∷ rest } in
    elim (Option-cases (parse_obu hdr s)) [
      | inl e ↦ absurd (ground (arith, parse_loop_stop fuel before m hdr rest e))
      | inr (s', e) ↦
          parse_loop-IsParsing buf fuel s'.elements s'.new_sequence s'.rest elements n
            (parse_obu-IsParsing buf hdr rest s s' (p.bytes.0) refl p e)
            (sym (parse_loop_step fuel before m hdr rest s' e) ∙ h)
    ]

pub parse_temporal_unit-IsElement :
    (buf : List ℕ) (elements : List Av1ObuElement) (n : Bool)
    → All IsByte buf
    → parse_temporal_unit buf ≡ parsed elements n
    → All IsElement elements × All (IsFound buf) elements × (length elements ≤ max_obu_per_tu)
unfolding parse_temporal_unit
parse_temporal_unit-IsElement buf elements n bytes h =
    parse_loop-IsParsing buf (length buf) [] false buf elements n
      (record {
        found = tt;
        reached = behind-IsEnd buf [] buf refl;
        stored = tt;
        few = omega arith;
        bytes = bytes;
      })
      h
