-- ===== src/Sctp/Data.antt =====
-- A DATA chunk in sctp_incoming_data (src/sctp.c).
use libpeer.Base.{
  ℕ, suc, ◌+◌, ◌-◌, ◌^◌, ◌<◌, ◌≤◌, ◌≡◌, refl, sym, ap, ◌∙◌, ltb, true, false, List, [], ◌∷◌, ◌++◌,
  Option, some, length, length-append, length-replicate, take, drop, get_or, arith, append_assoc,
  ◌⊎◌, inl, inr,
}
use libpeer.Base.Word.{be16, be32, read16-be16}
use libpeer.Base.Memory.{store, load, store-append, load-middle}
use libpeer.Sctp.State.{
  Sctp, written, message, checksummed, data_chunk, sctp_sack, ppid_domstring, ppid_binary,
}
use libpeer.Sctp.Receive.{
  Incoming, write_out, emit, deliver, word16, word32, receive_data, receive_chunk, answer_chunk,
  incoming_round, goes_on, sctp_incoming_data,
}
use libpeer.Sctp.Wire.{
  front, length-front, begin, sctp_incoming_data-checksummed, incoming_loop_once,
}
use libpeer.Sctp.Answer.{write_out_by, answer_chunk-checksummed, zeros, zeros_split}

-- The SACK for one TSN; the last four bytes are not written.
abbrev pub sack_start : ℕ → List ℕ
sack_start tsn = sctp_sack ∷ 0 ∷ (be16 16 ++ (be32 tsn ++ be32 2))

abbrev pub sack_chunk : ℕ → List ℕ
sack_chunk tsn = sack_start tsn ++ zeros 4

-- PPID_STRING and PPID_BINARY
abbrev pub IsText : ℕ → Type 0
IsText ppid = (ppid ≡ ppid_domstring) ⊎ (ppid ≡ ppid_binary)

deliver_by :
    (incoming : Incoming) (buf chunk bytes : List ℕ) (pos n sid : ℕ)
    → incoming.sctp.onmessage ≡ true
    → word16 chunk 2 ≡ n + 16
    → word16 chunk 8 ≡ sid
    → load buf (pos + 16) n ≡ some bytes
    → deliver incoming buf chunk pos ≡ some (emit incoming (message bytes sid))
unfolding deliver
deliver_by incoming buf chunk bytes pos n sid e1 e2 e3 e4 =
    let enough : ltb (n + 16) 16 ≡ false = ground arith in
    let less : n + 16 - 16 ≡ n = omega arith in rw (e1, e2, enough, less, e4, e3) refl

receive_data_by :
    (incoming acked : Incoming) (buf chunk : List ℕ) (len : ℕ) (result : Option Incoming)
    → load buf incoming.pos 16 ≡ some chunk
    → write_out incoming 12 (sctp_sack ∷ 0 ∷ (be16 16 ++ (take 4 (drop 4 chunk) ++ be32 2)))
      ≡ some acked
    → IsText (word32 chunk 12)
    → deliver (record acked { pos = len; reply = 28 }) buf chunk incoming.pos ≡ result
    → receive_data incoming buf len ≡ result
unfolding receive_data
receive_data_by incoming acked buf chunk len result e1 e2 (inl e3) e4 = rw (e1, e2, e3, e4) refl
receive_data_by incoming acked buf chunk len result e1 e2 (inr e3) e4 = rw (e1, e2, e3, e4) refl

pub round_by :
    (buf common : List ℕ) (len : ℕ) (incoming switched answered : Incoming)
    → load buf incoming.pos 4 ≡ some common
    → receive_chunk incoming buf len (get_or common 0 0) ≡ some switched
    → answer_chunk switched ≡ some answered
    → incoming_round buf len incoming
      ≡ some (record answered { pos = answered.pos + word16 common 2 })
unfolding incoming_round
round_by buf common len incoming switched answered e1 e2 e3 = rw (e1, e2, e3) refl

pub room :
    (n k : ℕ) (bytes : List ℕ)
    → length bytes ≡ n
    → 12 + (n + k) ≡ 1300
    → store (zeros 1300) 12 bytes ≡ some (zeros 12 ++ (bytes ++ zeros k))
room n k bytes e whole =
    let split : zeros 1300 ≡ zeros 12 ++ (zeros n ++ zeros k) =
      ap zeros (sym whole) ∙ zeros_split 12 n k in
    rw split (
      store-append (zeros 12) (zeros n) (zeros k) bytes 12 refl
        (omega (arith, length-replicate {A = ℕ} n 0)))

word32-IsText : (ppid : ℕ) → IsText ppid → IsText (word32 (be32 ppid) 0)
unfolding word32
word32-IsText ppid (inl h) = rw h (inl refl)
word32-IsText ppid (inr h) = rw h (inr refl)

-- What the switch makes of a message.
receive_data-message :
    (rx : Sctp) (iube tsn sid sqn ppid len : ℕ) (head bytes rest : List ℕ)
    → length head ≡ 12
    → rx.onmessage ≡ true
    → IsText ppid
    → length bytes + 16 < 2 ^ 16
    → sid < 2 ^ 16
    → receive_data
        (begin rx)
        (head ++ (data_chunk iube (length bytes + 16) tsn sid sqn ppid ++ (bytes ++ rest)))
        len
      ≡ some (record {
        sctp = record rx { buf = zeros 12 ++ (sack_start tsn ++ zeros 1276) };
        pos = len;
        reply = 28;
        events = message bytes sid ∷ [];
      })
unfolding emit data_chunk word32 word16
receive_data-message rx iube tsn sid sqn ppid len head bytes rest e on text fits small =
    let chunk = data_chunk iube (length bytes + 16) tsn sid sqn ppid in
    let buf = head ++ (chunk ++ (bytes ++ rest)) in
    let split : buf ≡ (head ++ chunk) ++ (bytes ++ rest) =
      sym (append_assoc head chunk (bytes ++ rest)) in
    let body : load buf (12 + 16) (length bytes) ≡ some bytes = rw split (
      load-middle (head ++ chunk) bytes rest 28 (length bytes)
        (omega (arith, length-append head chunk)) refl) in
    let acked = record (begin rx) {
      sctp = record rx { buf = zeros 12 ++ (sack_start tsn ++ zeros 1276) };
    } in
    receive_data_by (begin rx) acked buf chunk len _
      (load-middle head chunk (bytes ++ rest) 12 16 (sym e) refl)
      (write_out_by (begin rx) 12 (sack_start tsn) _ (room 12 1276 (sack_start tsn) refl refl))
      (word32-IsText ppid text)
      (deliver_by (record acked { pos = len; reply = 28 }) buf chunk bytes 12 (length bytes) sid on
        (read16-be16 (length bytes + 16) fits) (read16-be16 sid small) body)

-- What is left of the receiver behind a message, and what it has given out.
abbrev pub sack_packet : Sctp → ℕ → List ℕ
sack_packet rx tsn = checksummed (front rx ++ (be32 0 ++ sack_chunk tsn))

abbrev pub after_data : Sctp → ℕ → Sctp
after_data rx tsn = record rx { buf = sack_packet rx tsn ++ zeros 1272 }

data_round :
    (rx : Sctp) (iube tsn sid sqn ppid len : ℕ) (head bytes rest : List ℕ)
    → length head ≡ 12
    → length rx.verification_tag ≡ 4
    → rx.onmessage ≡ true
    → IsText ppid
    → length bytes + 16 < 2 ^ 16
    → sid < 2 ^ 16
    → incoming_round
        (head ++ (data_chunk iube (length bytes + 16) tsn sid sqn ppid ++ (bytes ++ rest)))
        len
        (begin rx)
      ≡ some (record {
        sctp = after_data rx tsn;
        pos = len + word16 (be16 (length bytes + 16)) 0;
        reply = 28;
        events = message bytes sid ∷ written (sack_packet rx tsn) ∷ [];
      })
unfolding data_chunk word16 receive_chunk
data_round rx iube tsn sid sqn ppid len head bytes rest e tag on text fits small =
    let size = be16 (length bytes + 16) in
    let behind = be32 tsn ++ (be16 sid ++ (be16 sqn ++ (be32 ppid ++ (bytes ++ rest)))) in
    round_by _ (0 ∷ iube ∷ size) len (begin rx) _ _
      (load-middle head (0 ∷ iube ∷ size) behind 12 4 (sym e) refl)
      (receive_data-message rx iube tsn sid sqn ppid len head bytes rest e on text fits small)
      (answer_chunk-checksummed (record rx { buf = zeros 12 ++ (sack_start tsn ++ zeros 1276) }) len
        28 (message bytes sid ∷ []) (zeros 12) (sack_chunk tsn) (zeros 1272) tag refl refl refl
        refl)

pub goes_on_first :
    (len : ℕ) (incoming : Incoming) → incoming.pos ≡ 12 → 16 ≤ len → goes_on len incoming ≡ true
unfolding goes_on
goes_on_first len incoming e h = rw e (ground arith)

pub goes_on_last :
    (len : ℕ) (incoming : Incoming) → len ≤ incoming.pos → goes_on len incoming ≡ false
unfolding goes_on
goes_on_last len incoming h = ground arith

-- A packet with one message, whatever stands behind it in memory, is delivered and acknowledged.
pub sctp_incoming_data_message :
    (rounds : ℕ) (tx rx : Sctp) (iube tsn sid sqn ppid : ℕ) (bytes pad tail : List ℕ)
    → length tx.verification_tag ≡ 4
    → length rx.verification_tag ≡ 4
    → rx.onmessage ≡ true
    → IsText ppid
    → length bytes + 16 < 2 ^ 16
    → sid < 2 ^ 16
    → let chunk = data_chunk iube (length bytes + 16) tsn sid sqn ppid ++ (bytes ++ pad) in
      sctp_incoming_data
        (suc (suc rounds))
        rx
        (checksummed (front tx ++ (be32 0 ++ chunk)) ++ tail)
        (12 + length chunk)
      ≡ some (record {
        sctp = after_data rx tsn;
        pos = 12 + length chunk + word16 (be16 (length bytes + 16)) 0;
        reply = 28;
        events = message bytes sid ∷ written (sack_packet rx tsn) ∷ [];
      })
sctp_incoming_data_message rounds tx rx iube tsn sid sqn ppid bytes pad tail ttag rtag on text fits
      small =
    let first = data_chunk iube (length bytes + 16) tsn sid sqn ppid in
    let chunk = first ++ (bytes ++ pad) in
    let len = 12 + length chunk in
    let sixteen : length first ≡ 16 = unfold data_chunk in refl in
    let enough : 16 ≤ len = omega (arith, length-append first (bytes ++ pad)) in
    let head = front tx ++ be32 0 in
    let split : front tx ++ (be32 0 ++ (chunk ++ tail))
        ≡ head ++ (first ++ (bytes ++ (pad ++ tail))) =
      rw (append_assoc first (bytes ++ pad) tail, append_assoc bytes pad tail)
        (sym (append_assoc (front tx) (be32 0) _)) in
    let round =
      data_round rx iube tsn sid sqn ppid len head bytes (pad ++ tail)
        (omega (arith, length-append (front tx) (be32 0), length-front tx ttag)) rtag on text fits
        small in
    rw
      (
        sctp_incoming_data-checksummed (suc (suc rounds)) rx (front tx) chunk tail
            (length-front tx ttag),
        split,
      )
      (incoming_loop_once rounds _ len (begin rx) _ (goes_on_first len (begin rx) refl enough) round
        (goes_on_last len _ (omega arith)))
