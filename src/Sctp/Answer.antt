-- ===== src/Sctp/Answer.antt =====
-- What goes out behind the switch of sctp_incoming_data (src/sctp.c).
use libpeer.Base.{
  ℕ, zero, suc, ◌+◌, ◌*◌, ◌/◌, ◌%◌, ◌≡◌, refl, sym, ap, ◌==◌, false, List, [], ◌∷◌, ◌++◌, some,
  length, length-append, replicate, arith, append_assoc,
}
use libpeer.Base.Word.{be32}
use libpeer.Base.Memory.{store, load, store-append, load-append}
use libpeer.Rtcp.{le32}
use libpeer.Sctp.Checksum.{sctp_get_checksum}
use libpeer.Sctp.State.{Sctp, SctpEvent, written, sctp_header, checksummed}
use libpeer.Sctp.Receive.{Incoming, write_out, emit, answer_chunk}
use libpeer.Sctp.Wire.{front, length-front, sctp_header-append, checksummed-append, length-le32}

pub write_out_by :
    (incoming : Incoming) (at : ℕ) (bytes buf' : List ℕ)
    → store incoming.sctp.buf at bytes ≡ some buf'
    → write_out incoming at bytes
      ≡ some (record incoming { sctp = record incoming.sctp { buf = buf' } })
unfolding write_out
write_out_by incoming at bytes buf' e = rw e refl

answer_by :
    (sctp : Sctp) (pos reply size : ℕ) (events : List SctpEvent) (buf1 packet buf2 sent : List ℕ)
    → store sctp.buf 0 (sctp_header sctp) ≡ some buf1
    → (reply == 0) ≡ false
    → 4 * ((reply + 3) / 4) ≡ size
    → load buf1 0 size ≡ some packet
    → store buf1 8 (le32 (sctp_get_checksum packet)) ≡ some buf2
    → load buf2 0 size ≡ some sent
    → answer_chunk (record { sctp = sctp; pos = pos; reply = reply; events = events })
      ≡ some (record {
        sctp = record sctp { buf = buf2 };
        pos = pos;
        reply = size;
        events = events ++ (written sent ∷ []);
      })
unfolding answer_chunk write_out emit
answer_by sctp pos reply size events buf1 packet buf2 sent e1 e2 e3 e4 e5 e6 =
    rw (e1, e2, e3, e4, e5, e6) refl

header_size :
    (sctp : Sctp) (a : List ℕ)
    → length sctp.verification_tag ≡ 4
    → length a ≡ 12
    → length (sctp_header sctp) ≡ length a
unfolding sctp_header
header_size sctp a t la = omega (arith, length-append sctp.verification_tag (be32 0))

store_front :
    (buf a c header : List ℕ)
    → buf ≡ a ++ c
    → length header ≡ length a
    → store buf 0 header ≡ some (header ++ c)
store_front buf a c header e same = rw e (store-append [] a c header 0 refl same)

pub length-checksummed :
    (h chunk : List ℕ)
    → length h ≡ 8
    → length (checksummed (h ++ (be32 0 ++ chunk))) ≡ 12 + length chunk
length-checksummed h chunk e =
    let sum = sctp_get_checksum (h ++ (be32 0 ++ chunk)) in
    rw (checksummed-append h chunk e) (
      omega (
        arith,
        length-append h (le32 sum ++ chunk),
        length-append (le32 sum) chunk,
        length-le32 sum,
      ))

pub answer_none :
    (sctp : Sctp) (pos : ℕ) (events : List SctpEvent) (buf' : List ℕ)
    → store sctp.buf 0 (sctp_header sctp) ≡ some buf'
    → answer_chunk (record { sctp = sctp; pos = pos; reply = 0; events = events })
      ≡ some (record { sctp = record sctp { buf = buf' }; pos = pos; reply = 0; events = events })
unfolding answer_chunk write_out
answer_none sctp pos events buf' e = rw e refl

-- The chunk of the answer goes out behind the header, with the checksum of both, and stays in `buf`.
pub answer_chunk-checksummed :
    (sctp : Sctp) (pos reply : ℕ) (events : List SctpEvent) (a chunk c : List ℕ)
    → length sctp.verification_tag ≡ 4
    → length a ≡ 12
    → sctp.buf ≡ a ++ (chunk ++ c)
    → reply ≡ 12 + length chunk
    → reply % 4 ≡ 0
    → let sent = checksummed (front sctp ++ (be32 0 ++ chunk)) in
      answer_chunk (record { sctp = sctp; pos = pos; reply = reply; events = events })
      ≡ some (record {
        sctp = record sctp { buf = sent ++ c };
        pos = pos;
        reply = reply;
        events = events ++ (written sent ∷ []);
      })
answer_chunk-checksummed sctp pos reply events a chunk c t la eb er four =
    let h = front sctp in
    let lh : length h ≡ 8 = length-front sctp t in
    let packet = h ++ (be32 0 ++ chunk) in
    let sum = le32 (sctp_get_checksum packet) in
    let lengths = length-append h (be32 0 ++ chunk) in
    let headed : store sctp.buf 0 (sctp_header sctp) ≡ some (packet ++ c) =
      rw (append_assoc h (be32 0 ++ chunk) c, ← sctp_header-append sctp (chunk ++ c))
        (store_front sctp.buf a (chunk ++ c) (sctp_header sctp) eb (header_size sctp a t la)) in
    let shape : checksummed packet ≡ h ++ (sum ++ chunk) = checksummed-append h chunk lh in
    let summed : store (packet ++ c) 8 sum ≡ some (checksummed packet ++ c) =
      rw
        (
          shape,
          append_assoc h (be32 0 ++ chunk) c,
          append_assoc h (sum ++ chunk) c,
          append_assoc sum chunk c,
        )
        (store-append h (be32 0) (chunk ++ c) sum 8 (sym lh) (length-le32 _)) in
    let same : length (checksummed packet) ≡ reply = rw shape (
      omega (
        arith,
        length-append h (sum ++ chunk),
        length-append sum chunk,
        length-le32 (sctp_get_checksum packet),
      )) in
    answer_by sctp pos reply reply events (packet ++ c) packet (checksummed packet ++ c)
      (checksummed packet) headed (ground arith) (omega arith)
      (load-append packet c reply (omega arith)) summed
      (load-append (checksummed packet) c reply (sym same))

abbrev pub zeros : ℕ → List ℕ
zeros n = replicate n 0

zeros_add : (k m n : ℕ) → k ≡ m + n → zeros k ≡ zeros m ++ zeros n
zeros_add k zero n e = ap zeros (omega arith)
zeros_add zero (suc m) n e = absurd (omega arith)
zeros_add (suc k) (suc m) n e = ap (λ (xs : List ℕ). 0 ∷ xs) (zeros_add k m n (omega arith))

-- The cleared buffer has room for `n` bytes behind the header.
pub zeros_split : (m n k : ℕ) → zeros (m + (n + k)) ≡ zeros m ++ (zeros n ++ zeros k)
zeros_split m n k = rw (zeros_add _ m (n + k) refl, zeros_add _ n k refl) refl
