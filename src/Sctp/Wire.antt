-- ===== src/Sctp/Wire.antt =====
-- What goes through sctp_incoming_data (src/sctp.c) for a packet of one chunk.
use libpeer.Base.{
  ℕ, suc, ◌+◌, ◌^◌, ◌<◌, ◌≡◌, refl, sym, ◌==◌, true, false, List, [], ◌++◌, some, length,
  length-append, take, drop, replicate, get_or, arith, append_assoc, take-append_exact,
  drop-append_exact, eq→==,
}
use libpeer.Base.Word.{be16, be32, read32, read32-be32}
use libpeer.Base.Memory.{store, load, store-append, load-append, load-middle}
use libpeer.Rtcp.{le32}
use libpeer.Sctp.Checksum.{sctp_get_checksum}
use libpeer.Sctp.Sum.{sctp_get_checksum_bound}
use libpeer.Sctp.State.{Sctp, sctp_header, checksummed}
use libpeer.Sctp.Receive.{Incoming, incoming_round, goes_on, incoming_loop, sctp_incoming_data}

-- The ports and the tag, in front of the checksum.
abbrev pub front : Sctp → List ℕ
front sctp = be16 sctp.local_port ++ (be16 sctp.remote_port ++ sctp.verification_tag)

pub length-front : (sctp : Sctp) → length sctp.verification_tag ≡ 4 → length (front sctp) ≡ 8
length-front sctp h = omega (arith)

pub sctp_header-append :
    (sctp : Sctp) (xs : List ℕ) → sctp_header sctp ++ xs ≡ front sctp ++ (be32 0 ++ xs)
unfolding sctp_header
sctp_header-append sctp xs = rw (append_assoc sctp.verification_tag (be32 0) xs) refl

pub checksummed-append :
    (h chunk : List ℕ)
    → length h ≡ 8
    → checksummed (h ++ (be32 0 ++ chunk))
      ≡ h ++ (le32 (sctp_get_checksum (h ++ (be32 0 ++ chunk))) ++ chunk)
unfolding checksummed
checksummed-append h chunk e =
    let first : take 8 (h ++ (be32 0 ++ chunk)) ≡ h =
      take-append_exact 8 h (be32 0 ++ chunk) (sym e) in
    let last : drop 12 (h ++ (be32 0 ++ chunk)) ≡ chunk =
      rw (← append_assoc h (be32 0) chunk)
        (drop-append_exact 12 (h ++ be32 0) chunk (omega (arith, length-append h (be32 0)))) in
    rw (first, last) refl

-- Where the loop starts.
abbrev pub begin : Sctp → Incoming
begin sctp = record {
  sctp = record sctp { buf = replicate 1300 0 };
  pos = 12;
  reply = 0;
  events = [];
}

incoming_by :
    (rounds : ℕ) (sctp : Sctp) (buf : List ℕ) (len : ℕ) (sum zeroed packet : List ℕ)
    → load buf 8 4 ≡ some sum
    → store buf 8 (be32 0) ≡ some zeroed
    → load zeroed 0 len ≡ some packet
    → (read32 (get_or sum 3 0) (get_or sum 2 0) (get_or sum 1 0) (get_or sum 0 0)
        == sctp_get_checksum packet)
      ≡ true
    → sctp_incoming_data rounds sctp buf len ≡ incoming_loop rounds zeroed len (begin sctp)
unfolding sctp_incoming_data
incoming_by rounds sctp buf len sum zeroed packet e1 e2 e3 e4 = rw (e1, e2, e3, e4) refl

sum_read :
    (x : ℕ)
    → x < 2 ^ 32
    → (read32
          (get_or (le32 x) 3 0)
          (get_or (le32 x) 2 0)
          (get_or (le32 x) 1 0)
          (get_or (le32 x) 0 0)
        == x)
      ≡ true
unfolding le32
sum_read x h = eq→== _ x (read32-be32 x h)

pub length-le32 : (x : ℕ) → length (le32 x) ≡ 4
unfolding le32
length-le32 x = refl

-- A packet with its checksum goes to the loop, the field of the checksum zero.
pub sctp_incoming_data-checksummed :
    (rounds : ℕ) (sctp : Sctp) (h chunk tail : List ℕ)
    → length h ≡ 8
    → sctp_incoming_data rounds sctp
        (checksummed (h ++ (be32 0 ++ chunk)) ++ tail)
        (12 + length chunk)
      ≡ incoming_loop rounds (h ++ (be32 0 ++ (chunk ++ tail))) (12 + length chunk) (begin sctp)
sctp_incoming_data-checksummed rounds sctp h chunk tail e =
    let packet = h ++ (be32 0 ++ chunk) in
    let sum = le32 (sctp_get_checksum packet) in
    let shape : checksummed packet ++ tail ≡ h ++ (sum ++ (chunk ++ tail)) =
      rw
        (
          checksummed-append h chunk e,
          append_assoc h (sum ++ chunk) tail,
          append_assoc sum chunk tail,
        )
        refl in
    let joined : packet ++ tail ≡ h ++ (be32 0 ++ (chunk ++ tail)) =
      rw (append_assoc h (be32 0 ++ chunk) tail) refl in
    let whole : load (h ++ (be32 0 ++ (chunk ++ tail))) 0 (12 + length chunk) ≡ some packet =
      rw (← joined) (
        load-append packet tail (12 + length chunk)
          (omega (arith, length-append h (be32 0 ++ chunk)))) in
    rw shape (
      incoming_by rounds sctp (h ++ (sum ++ (chunk ++ tail))) (12 + length chunk) sum
        (h ++ (be32 0 ++ (chunk ++ tail))) packet
        (load-middle h sum (chunk ++ tail) 8 4 (sym e) (sym (length-le32 _)))
        (store-append h sum (chunk ++ tail) (be32 0) 8 (sym e) (sym (length-le32 _))) whole
        (sum_read (sctp_get_checksum packet) (sctp_get_checksum_bound packet)))

-- The loop ends behind its first chunk.
pub incoming_loop_once :
    (rounds : ℕ) (buf : List ℕ) (len : ℕ) (incoming next : Incoming)
    → goes_on len incoming ≡ true
    → incoming_round buf len incoming ≡ some next
    → goes_on len next ≡ false
    → incoming_loop (suc (suc rounds)) buf len incoming ≡ some next
unfolding incoming_loop
incoming_loop_once rounds buf len incoming next e1 e2 e3 = rw (e1, e2, e3) refl
