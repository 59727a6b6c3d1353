-- ===== src/Av1/Parse.antt =====
-- What av1_parse_temporal_unit finds (src/rtp.c): it ends on every input, and it finds the OBUs of a
-- well-formed temporal unit.
use libpeer.Base.{
  ℕ, zero, suc, ◌+◌, ◌/◌, ◌%◌, ◌^◌, ◌≤◌, ◌<◌, ◌≡◌, ◌≢◌, refl, ap, sym, ◌∙◌, Bool, true, false, ◌||◌,
  List, [], ◌∷◌, ◌++◌, none, some, arith, ◌==◌, to_ℕ, if◌then◌else◌, length, length-append,
  length-drop, All, append-nil, append_assoc, inl, inr, drop, bit_and, bit_or, take-append_exact,
  drop-append_exact, drop-drop, Option-cases,
}
use libpeer.Base.Bits.{table, all_below}
use libpeer.Leb128.{leb128_size, leb128_write, leb128_read}
use libpeer.Leb128.RoundTrip.{leb128_read-write, length-leb128_write}
use libpeer.Av1.Obu.{
  Av1ObuElement, obu_type, has_extension, has_size_field, is_dropped, obu_sizes, element_of,
  take_obu, Progress, parse_obu, parsed, malformed, out_of_fuel, parse_loop, parse_temporal_unit,
  max_obu_per_tu, sequence_header,
}
use libpeer.Av1.Elements.{IsElement, low_overhead, extension_bytes}
use libpeer.Av1.Depay.{temporal_delimiter}
use libpeer.Av1.Simulation.{all_low_overhead}

-- A round consumes a byte or more.
take_obu_shrinks :
    (hdr hdr_size payload_size len_size consumed : ℕ) (s s' : Progress)
    → 0 < consumed
    → 0 < length s.rest
    → take_obu hdr hdr_size (payload_size, len_size, consumed) s ≡ some s'
    → length s'.rest < length s.rest
unfolding take_obu
take_obu_shrinks hdr hdr_size payload_size len_size consumed s s' pos full h =
    ground (arith, length-drop consumed s.rest)

parse_obu_shrinks :
    (hdr : ℕ) (s s' : Progress)
    → 0 < length s.rest
    → parse_obu hdr s ≡ some s'
    → length s'.rest < length s.rest
unfolding parse_obu obu_sizes
parse_obu_shrinks hdr s s' full h =
    let hdr_size = 1 + to_ℕ (has_extension hdr) in grind (arith, take_obu_shrinks)

module _ (fuel : ℕ) (elements : List Av1ObuElement) (n : Bool) (hdr : ℕ) (rest : List ℕ) where
  abbrev begun : Progress
  begun = record { elements = elements; new_sequence = n; rest = hdr ∷ rest }

  pub parse_loop_stop :
      parse_obu hdr begun ≡ none → parse_loop (suc fuel) elements n (hdr ∷ rest) ≡ malformed
  unfolding parse_loop
  parse_loop_stop h = ground arith

  pub parse_loop_step :
      (s : Progress)
      → parse_obu hdr begun ≡ some s
      → parse_loop (suc fuel) elements n (hdr ∷ rest)
        ≡ parse_loop fuel s.elements s.new_sequence s.rest
  unfolding parse_loop
  parse_loop_step s h = ground arith

parse_loop_ends :
    (fuel : ℕ) (elements : List Av1ObuElement) (n : Bool) (rest : List ℕ)
    → length rest ≤ fuel
    → parse_loop fuel elements n rest ≢ out_of_fuel
parse_loop_ends zero elements n [] h = unfold parse_loop in λ e. cc
parse_loop_ends (suc fuel) elements n [] h = unfold parse_loop in λ e. cc
parse_loop_ends zero elements n (hdr ∷ rest) h = absurd (omega arith)
parse_loop_ends (suc fuel) elements n (hdr ∷ rest) h =
    let s : Progress = record { elements = elements; new_sequence = n; rest = hdr ∷ rest } in
    elim (Option-cases (parse_obu hdr s)) [
      | inl e ↦ λ x. cc (parse_loop_stop fuel elements n hdr rest e)
      | inr (s', e) ↦ λ x.
          parse_loop_ends fuel s'.elements s'.new_sequence s'.rest
            (omega (arith, parse_obu_shrinks hdr s s' (omega arith) e))
            (sym (parse_loop_step fuel elements n hdr rest s' e) ∙ x)
    ]

-- av1_parse_temporal_unit ends on every input: its bytes are rounds enough.
pub parse_temporal_unit-ne-out_of_fuel : (buf : List ℕ) → parse_temporal_unit buf ≢ out_of_fuel
unfolding parse_temporal_unit
parse_temporal_unit-ne-out_of_fuel buf = parse_loop_ends (length buf) [] false buf (omega arith)

set_table :
    (h : ℕ)
    → h < 256
    → (if h / 2 ^ 1 % 2 == 1 then 0 else bit_or h 0x02) ≡ (if h / 2 ^ 1 % 2 == 1 then 0 else h + 2)
unfolding all_below
set_table = table 256 _ _ refl

clear_table :
    (h : ℕ)
    → h < 256
    → (if h / 2 ^ 1 % 2 == 1 then 0 else bit_and (h + 2) 0xfd)
      ≡ (if h / 2 ^ 1 % 2 == 1 then 0 else h)
unfolding all_below
clear_table = table 256 _ _ refl

-- The header bytes of an OBU with obu_has_size_field set, and what clearing the flag gives back.
header_bits :
    (h : ℕ)
    → h < 256
    → has_size_field h ≡ false
    → (bit_or h 0x02 ≡ h + 2) × (bit_and (h + 2) 0xfd ≡ h)
unfolding has_size_field
header_bits h lt clear = ground (arith, set_table h lt, clear_table h lt)

-- The header with the flag set has the same type and extension flag.
header_fields :
    (h : ℕ)
    → has_size_field h ≡ false
    → (has_size_field (h + 2) ≡ true)
      × (has_extension (h + 2) ≡ has_extension h)
      × (obu_type (h + 2) ≡ obu_type h)
unfolding has_size_field has_extension obu_type
header_fields h clear = ground arith

parse_by_sizes :
    (hdr hdr_size : ℕ) (s : Progress) (sizes : ℕ × ℕ × ℕ)
    → 1 + to_ℕ (has_extension hdr) ≡ hdr_size
    → hdr_size ≤ length s.rest
    → obu_sizes hdr hdr_size s.rest ≡ some sizes
    → parse_obu hdr s ≡ take_obu hdr hdr_size sizes s
unfolding parse_obu
parse_by_sizes hdr hdr_size s sizes header fits found = ground arith

-- The sequence header flag of a list of elements.
abbrev pub has_sequence_header : List Av1ObuElement → Bool
has_sequence_header [] = false
has_sequence_header (e ∷ elements) =
    obu_type e.hdr0 == sequence_header || has_sequence_header elements

-- An element that av1_parse_temporal_unit does not drop.
abbrev pub IsForwarded : Av1ObuElement → Type 0
IsForwarded e = is_dropped (obu_type e.hdr0) ≡ false

module _ (e : Av1ObuElement) (v : IsElement e) (forwarded : IsForwarded e)
    (small : length e.payload < 2 ^ 56) (elements : List Av1ObuElement) (n : Bool) (tail : List ℕ)
    (room : length elements < max_obu_per_tu) where
  abbrev bytes : List ℕ
  bytes =
      (e.hdr0 + 2) ∷ (extension_bytes e ++ (leb128_write (length e.payload) ++ (e.payload ++ tail)))

  abbrev size_of_payload : ℕ
  size_of_payload = leb128_size (length e.payload)

  abbrev behind_header : List ℕ
  behind_header = leb128_write (length e.payload) ++ (e.payload ++ tail)

  drop_header : drop e.hdr_size bytes ≡ behind_header
  drop_header = ground (arith, v)

  drop_size : drop (e.hdr_size + size_of_payload) bytes ≡ e.payload ++ tail
  drop_size =
      sym (drop-drop size_of_payload e.hdr_size bytes)
      ∙ rw drop_header (
          drop-append_exact size_of_payload (leb128_write (length e.payload)) (e.payload ++ tail)
            (sym (length-leb128_write (length e.payload))))

  drop_payload : drop (e.hdr_size + size_of_payload + length e.payload) bytes ≡ tail
  drop_payload =
      sym (drop-drop (length e.payload) (e.hdr_size + size_of_payload) bytes)
      ∙ rw drop_size (drop-append_exact (length e.payload) e.payload tail refl)

  read_size : leb128_read (drop e.hdr_size bytes) ≡ some (length e.payload, size_of_payload)
  read_size = rw drop_header (leb128_read-write (length e.payload) (e.payload ++ tail) small)

  length-bytes : length bytes ≡ e.hdr_size + size_of_payload + length e.payload + length tail
  length-bytes = ground (
    arith,
    v,
    length-append (extension_bytes e) behind_header,
    length-append (leb128_write (length e.payload)) (e.payload ++ tail),
    length-append e.payload tail,
    length-leb128_write (length e.payload),
  )

  stored : element_of (e.hdr0 + 2) e.hdr_size size_of_payload (length e.payload) bytes ≡ e
  unfolding element_of
  stored =
      ground (
        arith,
        v,
        header_bits e.hdr0,
        drop_size,
        take-append_exact (length e.payload) e.payload tail,
      )

  abbrev reached : Progress
  reached = record { elements = elements; new_sequence = n; rest = bytes }

  -- One round takes the whole element.
  parse_element :
      parse_obu (e.hdr0 + 2) reached
      ≡ some (record {
        elements = elements ++ (e ∷ []);
        new_sequence = n || obu_type e.hdr0 == sequence_header;
        rest = tail;
      })
  parse_element =
      let (flag, extended, typed) = header_fields e.hdr0 v.no_size in
      let sizes : ℕ × ℕ × ℕ =
        (length e.payload, size_of_payload, e.hdr_size + size_of_payload + length e.payload) in
      let found : obu_sizes (e.hdr0 + 2) e.hdr_size bytes ≡ some sizes =
        unfold obu_sizes in ground (arith, flag, read_size) in
      let header : 1 + to_ℕ (has_extension (e.hdr0 + 2)) ≡ e.hdr_size =
        ground (arith, extended, v) in
      parse_by_sizes (e.hdr0 + 2) e.hdr_size reached sizes header (omega (arith, length-bytes))
        found
      ∙ (unfold take_obu in ground (arith, typed, length-bytes, stored, drop_payload, forwarded))

-- An OBU of the low-overhead format in front of `tail`, with its brackets moved.
low_overhead-append :
    (e : Av1ObuElement) (tail : List ℕ)
    → IsElement e
    → low_overhead e ++ tail
      ≡ (e.hdr0 + 2)
        ∷ (extension_bytes e ++ (leb128_write (length e.payload) ++ (e.payload ++ tail)))
unfolding low_overhead
low_overhead-append e tail v =
    let (flag, cleared) = header_bits e.hdr0 v.byte v.no_size in
    rw flag (
      ap (λ (xs : List ℕ). (e.hdr0 + 2) ∷ xs)
        (append_assoc (extension_bytes e) (leb128_write (length e.payload) ++ e.payload) tail
          ∙ ap (λ (xs : List ℕ). extension_bytes e ++ xs)
              (append_assoc (leb128_write (length e.payload)) e.payload tail)))

-- What the round trip asks of an element: the packetizer keeps it, and its size can be written.
pub record CanTravel (e : Av1ObuElement) : Type 0 where
  pub element : IsElement e
  pub forwarded : is_dropped (obu_type e.hdr0) ≡ false
  pub small : length e.payload < 2 ^ 56

pub IsElement-of_travel :
    (elements : List Av1ObuElement) → All CanTravel elements → All IsElement elements
IsElement-of_travel [] v = tt
IsElement-of_travel (e ∷ elements) (v, vs) = (v.element, IsElement-of_travel elements vs)

or_assoc : (a b c : Bool) → (a || b) || c ≡ a || (b || c)
or_assoc a b c = ground arith

parse_elements :
    (elements before : List Av1ObuElement) (n : Bool) (fuel : ℕ)
    → All CanTravel elements
    → length before + length elements ≤ max_obu_per_tu
    → length (all_low_overhead elements) ≤ fuel
    → parse_loop fuel before n (all_low_overhead elements)
      ≡ parsed (before ++ elements) (n || has_sequence_header elements)
parse_elements [] before n zero v room enough =
    unfold parse_loop in ground (arith, append-nil before)
parse_elements [] before n (suc fuel) v room enough =
    unfold parse_loop in ground (arith, append-nil before)
parse_elements (e ∷ elements) before n zero (v, vs) room enough =
    absurd (unfold low_overhead in omega arith)
parse_elements (e ∷ elements) before n (suc fuel) (v, vs) room enough =
    let tail = all_low_overhead elements in
    let grown : length (low_overhead e ++ tail) ≡ length (low_overhead e) + length tail =
      length-append (low_overhead e) tail in
    let some_bytes : 0 < length (low_overhead e) = unfold low_overhead in omega arith in
    let s : Progress = record {
      elements = before ++ (e ∷ []);
      new_sequence = n || obu_type e.hdr0 == sequence_header;
      rest = tail;
    } in
    rw (low_overhead-append e tail v.element) (
      parse_loop_step fuel before n (e.hdr0 + 2) _ s
        (parse_element e v.element v.forwarded v.small before n tail (omega arith))
      ∙ parse_elements elements (before ++ (e ∷ [])) s.new_sequence fuel vs
          (omega (arith, length-append before (e ∷ []))) (omega arith)
      ∙ rw (append_assoc, or_assoc))

-- The temporal delimiter in front of a unit is skipped.
parse_delimiter :
    (fuel : ℕ) (before : List Av1ObuElement) (n : Bool) (rest : List ℕ)
    → parse_loop (suc fuel) before n (0x12 ∷ 0x00 ∷ rest) ≡ parse_loop fuel before n rest
parse_delimiter fuel before n rest =
    parse_loop_step fuel before n 0x12 (0x00 ∷ rest)
      (record { elements = before; new_sequence = n; rest = rest })
      (unfold parse_obu obu_sizes take_obu leb128_read has_size_field has_extension obu_type
          is_dropped in
        ground arith)

-- Of a temporal unit in the low-overhead format, at most 32 OBUs of kinds that are forwarded behind the
-- temporal delimiter, av1_parse_temporal_unit finds exactly those OBUs, in order, each without its size
-- field, and whether a sequence header is among them.
pub parse-low_overhead :
    (elements : List Av1ObuElement)
    → All CanTravel elements
    → length elements ≤ max_obu_per_tu
    → parse_temporal_unit (temporal_delimiter ++ all_low_overhead elements)
      ≡ parsed elements (has_sequence_header elements)
unfolding parse_temporal_unit
parse-low_overhead elements v room =
    parse_delimiter (suc (length (all_low_overhead elements))) [] false (all_low_overhead elements)
    ∙ parse_elements elements [] false (suc (length (all_low_overhead elements))) v (omega arith)
        (omega arith)
