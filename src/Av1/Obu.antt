-- ===== src/Av1/Obu.antt =====
-- The OBU headers and elements of src/rtp.c, and av1_parse_temporal_unit, which splits a temporal unit
-- into the elements that go on the wire.
use libpeer.Base.{
  ℕ, zero, suc, ◌+◌, ◌-◌, ◌/◌, ◌%◌, ◌^◌, Bool, false, ◌||◌, List, [], ◌∷◌, ◌++◌, Option, none, some,
  ltb, leb, ◌==◌, to_ℕ, if◌then◌else◌, length, get_or, take, drop, bit_and,
}
use libpeer.Leb128.{leb128_read}

-- OBU_HDR_TYPE, OBU_HDR_HAS_EXTENSION and OBU_HDR_HAS_SIZE_FIELD
unfoldable pub obu_type : ℕ → ℕ
obu_type h = h / 2 ^ 3 % 16

unfoldable pub has_extension : ℕ → Bool
has_extension h = h / 2 ^ 2 % 2 == 1

unfoldable pub has_size_field : ℕ → Bool
has_size_field h = h / 2 ^ 1 % 2 == 1

-- struct Av1ObuElement: `payload` is the memory that `payload` and `payload_size` delimit.
pub record Av1ObuElement : Type 0 where
  pub hdr0 : ℕ
  pub hdr1 : ℕ
  pub hdr_size : ℕ
  pub payload : List ℕ

-- AV1_MAX_OBU_PER_TU
abbrev pub max_obu_per_tu : ℕ
max_obu_per_tu = 32

-- OBU_TYPE_TEMPORAL_DELIMITER, OBU_TYPE_TILE_LIST and OBU_TYPE_PADDING are not forwarded.
unfoldable pub is_dropped : ℕ → Bool
is_dropped type = type == 2 || type == 8 || type == 15

-- OBU_TYPE_SEQUENCE_HEADER
abbrev pub sequence_header : ℕ
sequence_header = 1

-- The sizes of the OBU at the head of `rest`: its payload, its obu_size field and the bytes consumed.
-- `none` is a malformed obu_size.
unfoldable pub obu_sizes : ℕ → ℕ → List ℕ → Option (ℕ × ℕ × ℕ)
unfolding has_size_field
obu_sizes hdr hdr_size rest =
    if has_size_field hdr
    then elim (leb128_read (drop hdr_size rest)) [
      | none ↦ none
      | some (payload_size, len_size) ↦
          some (payload_size, len_size, hdr_size + len_size + payload_size)
    ]
    else some (length rest - hdr_size, 0, length rest)

-- The element that is stored for an OBU.
unfoldable pub element_of : ℕ → ℕ → ℕ → ℕ → List ℕ → Av1ObuElement
element_of hdr hdr_size len_size payload_size rest = record {
  hdr0 = bit_and hdr 0xfd;
  hdr1 = if ltb 1 hdr_size then get_or rest 1 0 else 0;
  hdr_size = hdr_size;
  payload = take payload_size (drop (hdr_size + len_size) rest);
}

-- What the loop carries: the elements stored, new_coded_video_sequence, and the bytes from `pos` on.
pub record Progress : Type 0 where
  pub elements : List Av1ObuElement
  pub new_sequence : Bool
  pub rest : List ℕ

-- The end of one round: the `switch` on the type, and `pos += consumed`.
unfoldable pub take_obu : ℕ → ℕ → ℕ × ℕ × ℕ → Progress → Option Progress
unfolding obu_type is_dropped element_of
take_obu hdr hdr_size (payload_size, len_size, consumed) s =
    if ltb (length s.rest) consumed
    then none
    else if is_dropped (obu_type hdr)
    then some (record s { rest = drop consumed s.rest })
    else if leb max_obu_per_tu (length s.elements)
    then none
    else some (record {
      elements = s.elements ++ (element_of hdr hdr_size len_size payload_size s.rest ∷ []);
      new_sequence = s.new_sequence || obu_type hdr == sequence_header;
      rest = drop consumed s.rest;
    })

-- One round of the loop on the byte `hdr` at `pos`; `none` is the return value -1.
unfoldable pub parse_obu : ℕ → Progress → Option Progress
parse_obu hdr s =
    let hdr_size = 1 + to_ℕ (has_extension hdr) in
    if ltb (length s.rest) hdr_size then none else elim (obu_sizes hdr hdr_size s.rest) [
      | none ↦ none
      | some sizes ↦ take_obu hdr hdr_size sizes s
    ]

pub data Parsed : Type 0 where
  parsed : List Av1ObuElement → Bool → Parsed
  malformed out_of_fuel : Parsed

unfoldable pub parse_loop : ℕ → List Av1ObuElement → Bool → List ℕ → Parsed
parse_loop fuel elements new_sequence [] = parsed elements new_sequence
parse_loop zero elements new_sequence (hdr ∷ rest) = out_of_fuel
parse_loop (suc fuel) elements new_sequence (hdr ∷ rest) =
    elim (parse_obu hdr
      (record { elements = elements; new_sequence = new_sequence; rest = hdr ∷ rest })) [
        | none ↦ malformed
        | some s ↦ parse_loop fuel s.elements s.new_sequence s.rest
      ]

-- av1_parse_temporal_unit: each round consumes a byte or more, so the bytes are fuel enough.
unfoldable pub parse_temporal_unit : List ℕ → Parsed
parse_temporal_unit buf = parse_loop (length buf) [] false buf
