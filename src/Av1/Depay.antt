-- ===== src/Av1/Depay.antt =====
-- Av1Depacketizer, av1_depay_reset, av1_depay_close_obu and av1_depay_packet of src/rtp.c: RTP packets
-- become temporal units again.
use libpeer.Base.{
  ℕ, zero, suc, ◌+◌, ◌-◌, ◌*◌, ◌/◌, ◌%◌, ◌^◌, Bool, true, false, not, ◌&&◌, ◌||◌, List, [], ◌∷◌,
  ◌++◌, Option, none, some, ltb, leb, ◌==◌, to_ℕ, if◌then◌else◌, length, get_or, take, drop, bit_or,
}
use libpeer.Base.Word.{u16}
use libpeer.Leb128.{leb128_size, leb128_write, leb128_read}
use libpeer.Rtp.Header.{csrccount, extension, padding, markerbit, seq_number}
use libpeer.Av1.Obu.{has_extension, has_size_field}

-- CONFIG_MAX_AV1_TU_SIZE, the size of `buf`
abbrev pub max_tu_size : ℕ
max_tu_size = 256 * 1024

-- av1_temporal_delimiter
abbrev pub temporal_delimiter : List ℕ
temporal_delimiter = 0x12 ∷ 0x00 ∷ []

-- struct Av1Depacketizer: `tu` is the first tu_len bytes of `buf`, and `obu` the obu_len bytes behind them.
pub record Depay : Type 0 where
  pub tu : List ℕ
  pub obu : List ℕ
  pub obu_open : Bool
  pub next_seq : ℕ
  pub have_seq : Bool
  pub dropping : Bool
  pub started : Bool

-- av1_depay_reset
unfoldable pub depay_reset : Depay → Depay
depay_reset d = record d { tu = temporal_delimiter; obu = []; obu_open = false }

-- The end of av1_depay_close_obu: the obu_size field is spliced in behind the header.
unfoldable pub splice_size : Depay → ℕ → List ℕ → ℕ → Option Depay
splice_size d hdr tail hdr_size =
    let payload_size = length d.obu - hdr_size in
    if ltb max_tu_size (length d.tu + length d.obu + leb128_size payload_size)
    then none
    else some (record d {
      tu =
          d.tu
          ++ (bit_or hdr 0x02
              ∷ (take (hdr_size - 1) tail
                  ++ (leb128_write payload_size ++ drop (hdr_size - 1) tail)));
      obu = [];
    })

-- av1_depay_close_obu on the OBU `hdr ∷ tail`; `none` is the return value -1.
unfoldable pub close_nonempty : Depay → ℕ → List ℕ → Option Depay
close_nonempty d hdr tail =
    let hdr_size = 1 + to_ℕ (has_extension hdr) in
    if ltb (length d.obu) hdr_size
    then none
    else if has_size_field hdr
    then some (record d { tu = d.tu ++ d.obu; obu = [] })
    else splice_size d hdr tail hdr_size

-- av1_depay_close_obu: there is nothing to close where obu_len is 0.
unfoldable pub close_obu : Depay → Option Depay
close_obu d = elim d.obu [ [] ↦ some d | hdr ∷ tail ↦ close_nonempty d hdr tail ]

-- The length of the next element and of its length field; `none` is a malformed length. With w set, only
-- the first w - 1 elements carry a length.
unfoldable pub element_length : ℕ → ℕ → List ℕ → Option (ℕ × ℕ)
element_length w element rest =
    if not (w == 0) && element == w then some (length rest, 0) else leb128_read rest

-- One round of the loop over the elements: the new state and the bytes from the new `pos` on. `none` is
-- the jump to `corrupt`.
unfoldable pub take_element : Bool → Depay → ℕ → List ℕ → Option (Depay × List ℕ)
take_element y d len rest =
    let joined = record d { obu = d.obu ++ take len rest } in
    let rest' = drop len rest in
    if ltb (length rest) len
    then none
    else if ltb max_tu_size (length d.tu + length d.obu + len)
    then none
    else if ltb 0 (length rest') || not y
    then elim (close_obu joined) [ none ↦ none | some d' ↦ some (d', rest') ]
    else some (record joined { obu_open = true }, rest')

pub data Looped : Type 0 where
  done : Depay → Looped
  corrupt out_of_fuel : Looped

-- The loop over the elements, `rest` being the payload from `pos` on.
unfoldable pub element_loop : ℕ → ℕ → Bool → ℕ → Depay → List ℕ → Looped
element_loop fuel w y element d [] = done d
element_loop zero w y element d (b ∷ rest) = out_of_fuel
element_loop (suc fuel) w y element d (b ∷ rest) =
    let element' = if w == 0 then element else element + 1 in
    elim (element_length w element' (b ∷ rest)) [
      | none ↦ corrupt
      | some (len, len_bytes) ↦ elim (take_element y d len (drop len_bytes (b ∷ rest))) [
        | none ↦ corrupt
        | some (d', rest') ↦ element_loop fuel w y element' d' rest'
      ]
    ]

-- The return value: -1, or the size of the packet without its padding.
pub data Returned : Type 0 where
  minus_one : Returned
  size : ℕ → Returned
  stuck : Returned

-- What a call of av1_depay_packet leaves: its state, the temporal units given to `on_packet`, its value.
pub record Outcome : Type 0 where
  pub depay : Depay
  pub units : List (List ℕ)
  pub returned : Returned

-- The label `corrupt`.
unfoldable pub give_up : Depay → Outcome
unfolding depay_reset
give_up d = record {
  depay = record (depay_reset d) { dropping = true };
  units = [];
  returned = minus_one;
}

-- The end of the packet: at the marker bit the temporal unit is complete.
unfoldable pub finish_packet : ℕ → ℕ → Depay → Outcome
finish_packet marker total d =
    if marker == 0
    then record { depay = d; units = []; returned = size total }
    else if d.obu_open
    then give_up d
    else record {
      depay = depay_reset d;
      units = if ltb 2 (length d.tu) then d.tu ∷ [] else [];
      returned = size total;
    }

-- The elements behind the aggregation header `aggr`, once Z agrees with the OBU left open.
unfoldable pub depay_elements : ℕ → ℕ → ℕ → List ℕ → Depay → Outcome
depay_elements marker total aggr payload d =
    elim (element_loop (length payload) (aggr / 2 ^ 4 % 4) (aggr / 2 ^ 6 % 2 == 1) 0
      (record d { obu_open = false }) payload) [
        | done d' ↦ finish_packet marker total d'
        | corrupt ↦ give_up d
        | out_of_fuel ↦ record { depay = d; units = []; returned = stuck }
      ]

-- A packet with an aggregation header: N ends the dropping, and Z has to agree with `obu_open`.
unfoldable pub depay_payload : ℕ → ℕ → ℕ → List ℕ → Depay → Outcome
depay_payload marker total aggr payload d =
    let resumed = if d.dropping then depay_reset (record d { dropping = false }) else d in
    if d.dropping && aggr / 2 ^ 3 % 2 == 0
    then record { depay = d; units = []; returned = size total }
    else if aggr / 2 ^ 7 % 2 == to_ℕ resumed.obu_open
    then depay_elements marker total aggr payload resumed
    else record {
      depay = record (depay_reset resumed) { dropping = true };
      units = [];
      returned = size total;
    }

-- The sequence has to go on without a gap.
unfoldable pub track_sequence : Depay → ℕ → Depay
unfolding depay_reset
track_sequence d seq =
    let tracked =
      if d.have_seq && not (seq == d.next_seq)
      then record (depay_reset d) { dropping = true }
      else d in
    record tracked { have_seq = true; next_seq = u16 (seq + 1) }

-- The size of the RTP header with its csrc list and its extension; `none` is the return value -1.
unfoldable pub rtp_header_size : List ℕ → Option ℕ
rtp_header_size buf =
    let csrc = 12 + csrccount buf * 4 in
    let words = get_or buf (csrc + 2) 0 * 2 ^ 8 + get_or buf (csrc + 3) 0 in
    let whole = if extension buf == 0 then csrc else csrc + (4 + words * 4) in
    if not (extension buf == 0) && ltb (length buf) (csrc + 4)
    then none
    else if ltb (length buf) whole
    then none
    else some whole

-- The size of the packet without its padding, which the last byte counts.
unfoldable pub unpadded_size : List ℕ → ℕ → Option ℕ
unpadded_size buf hdr_size =
    let count = if ltb 0 (length buf) then get_or buf (length buf - 1) 0 else 0 in
    if padding buf == 0
    then some (length buf)
    else if count == 0 || ltb (length buf - hdr_size) count
    then none
    else some (length buf - count)

-- What is left of a packet whose sizes are known.
unfoldable pub depay_sized : Depay → List ℕ → ℕ → ℕ → Outcome
depay_sized d buf hdr_size total =
    let tracked = track_sequence d (seq_number buf) in
    if leb total (hdr_size + 1)
    then record { depay = tracked; units = []; returned = size total }
    else depay_payload (markerbit buf) total (get_or buf hdr_size 0)
        (take (total - hdr_size - 1) (drop (hdr_size + 1) buf)) tracked

-- The first call resets, and drops until a coded video sequence begins.
unfoldable pub depay_start : Depay → Depay
unfolding depay_reset
depay_start d = if d.started then d else record (depay_reset d) { started = true; dropping = true }

-- av1_depay_packet
unfoldable pub av1_depay_packet : Depay → List ℕ → Outcome
av1_depay_packet d buf =
    let begun = depay_start d in
    elim (rtp_header_size buf) [
      | none ↦ record { depay = begun; units = []; returned = minus_one }
      | some hdr_size ↦ elim (unpadded_size buf hdr_size) [
        | none ↦ record { depay = begun; units = []; returned = minus_one }
        | some total ↦ depay_sized begun buf hdr_size total
      ]
    ]

-- Calls of av1_depay_packet one after the other, and the temporal units delivered.
unfoldable pub feed : Depay → List (List ℕ) → Depay × List (List ℕ)
feed d [] = (d, [])
feed d (packet ∷ packets) =
    let o = av1_depay_packet d packet in
    let (d', units) = feed o.depay packets in (d', o.units ++ units)
