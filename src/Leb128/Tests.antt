-- ===== src/Leb128/Tests.antt =====
-- The sizes of av1_leb128_write and av1_leb128_read at concrete values (src/rtp.c).
use libpeer.Base.{ℕ, ◌^◌, ◌≤◌, ◌<◌, ◌≡◌, refl, List, [], ◌∷◌, ◌++◌, none, some, length, arith}
use libpeer.Leb128.{leb128_write, leb128_size, leb128_read}
use libpeer.Leb128.RoundTrip.{length-leb128_write, leb128_read-write, leb128_size_bounds}
use libpeer.Leb128.Reject.{leb128_read_range, leb128_read_too_wide}

read_300 : leb128_read (0xac ∷ 0x02 ∷ 0x09 ∷ []) ≡ some (300, 2)
unfolding leb128_read
read_300 = refl

read_cut_off : leb128_read (0xac ∷ []) ≡ none
unfolding leb128_read
read_cut_off = refl

leb128_read-write_example : leb128_read (leb128_write 300 ++ (7 ∷ [])) ≡ some (300, leb128_size 300)
leb128_read-write_example = leb128_read-write 300 (7 ∷ []) (omega arith)

leb128_size_bounds_example : (1 ≤ leb128_size 300) × (leb128_size 300 ≤ 2)
leb128_size_bounds_example = leb128_size_bounds 1 300 (omega arith)

abbrev three_bytes : List ℕ
three_bytes = 0xac ∷ 0x02 ∷ 0x09 ∷ []

leb128_read_range_example : (300 < 2 ^ 56) × (1 ≤ 2) × (2 ≤ 8) × (2 ≤ length three_bytes)
leb128_read_range_example =
    leb128_read_range three_bytes 300 2 (omega arith, (omega arith, (omega arith, tt))) read_300

leb128_read_too_wide_example :
    (9 ≤ length (leb128_write (2 ^ 56))) × (leb128_read (leb128_write (2 ^ 56) ++ (7 ∷ [])) ≡ none)
leb128_read_too_wide_example = leb128_read_too_wide (2 ^ 56) (7 ∷ []) (omega arith)

length-leb128_write_example : length (leb128_write 300) ≡ leb128_size 300
length-leb128_write_example = length-leb128_write 300
