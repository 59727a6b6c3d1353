-- ===== src/H264/Decode.antt =====
-- rtp_decode_h264 (src/rtp.c).
use libpeer.Base.{
  ℕ, ◌+◌, ◌*◌, ◌/◌, ◌%◌, ◌==◌, ltb, if◌then◌else◌, ◌&&◌, Option, none, some, List, [], ◌∷◌, ◌++◌,
  length, drop,
}
use libpeer.Base.Memory.{◌>>=◌}

-- CONFIG_MAX_NALU_SIZE
abbrev pub max_nalu_size : ℕ
max_nalu_size = 10240

-- What a packet leaves: the bytes of nalu_buf in front of `offset`, the units handed to on_packet, and the
-- value returned.
pub record Decoded : Type 0 where
  pub nalu : List ℕ
  pub units : List (List ℕ)
  pub ret : ℕ

-- NALU_START_4BYTECODE in the memory of a little-endian machine
abbrev pub start_code : List ℕ
start_code = 0 ∷ 0 ∷ 0 ∷ 1 ∷ []

-- An append to nalu_buf; `none` is one beyond its end.
unfoldable pub append_nalu : List ℕ → List ℕ → Option (List ℕ)
append_nalu nalu bytes =
    if ltb max_nalu_size (length nalu + length bytes) then none else some (nalu ++ bytes)

-- A fragment with the given indicator and header, and `size` as the packet's size.
unfoldable pub decode_fragment : List ℕ → ℕ → ℕ → List ℕ → Option Decoded
decode_fragment nalu indicator header bytes =
    let type = indicator / 128 % 2 * 128 + indicator / 32 % 4 * 32 + header % 32 in
    if header / 128 % 2 == 1
    then (do
      begun ← append_nalu (start_code ++ (type ∷ [])) bytes
      some (record { nalu = begun; units = []; ret = 0 }))
    else if ltb (length nalu) max_nalu_size
    then (do
      longer ← append_nalu nalu bytes
      some (
          if header / 64 % 2 == 1
          then record { nalu = []; units = longer ∷ []; ret = 0 }
          else record { nalu = longer; units = []; ret = 0 }))
    else some (record { nalu = nalu; units = []; ret = 0 })

-- rtp_decode_h264 on the payload of a packet; a payload too short for its headers is read beyond its end.
unfoldable pub decode_payload : List ℕ → ℕ → List ℕ → Option Decoded
decode_payload nalu size [] = none
decode_payload nalu size (indicator ∷ payload) =
    if ltb 0 (indicator % 32) && ltb (indicator % 32) 24
    then (do
      unit ← append_nalu start_code (indicator ∷ payload)
      some (record { nalu = unit; units = unit ∷ []; ret = size }))
    else elim payload [ [] ↦ none | header ∷ bytes ↦ decode_fragment nalu indicator header bytes ]

-- rtp_decode_h264
unfoldable pub rtp_decode_h264 : List ℕ → List ℕ → Option Decoded
rtp_decode_h264 nalu buf = decode_payload nalu (length buf) (drop 12 buf)

-- The calls on packets one after another: what is left in nalu_buf, and all units.
unfoldable pub decode_each : List ℕ → List (List ℕ) → Option (List ℕ × List (List ℕ))
decode_each nalu [] = some (nalu, [])
decode_each nalu (packet ∷ packets) = do
  first ← rtp_decode_h264 nalu packet
  rest ← decode_each first.nalu packets
  some (rest.0, first.units ++ rest.1)
