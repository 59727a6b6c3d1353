-- ===== src/Sctp/Fragments.antt =====
-- One fragment of a message, sent by sctp_outgoing_data and taken by sctp_incoming_data (src/sctp.c).
use libpeer.Base.{
  ℕ, suc, ◌+◌, ◌%◌, ◌-◌, ◌^◌, ◌<◌, ◌≤◌, ◌≡◌, refl, ap, ltb, ◌==◌, true, false, if◌then◌else◌, List,
  [], ◌∷◌, ◌++◌, Option, some, length, length-append, length-replicate, take, drop, replicate,
  arith, append-nil,
}
use libpeer.Base.Word.{be16, be32, u32}
use libpeer.Base.Memory.{store, ◌>>=◌, store_fits}
use libpeer.Sctp.State.{
  Sctp, SctpEvent, written, message, opened, closed, payload_max, sctp_mtu, checksummed, data_chunk,
}
use libpeer.Sctp.Send.{SctpSent, data_packet, padding_len, send_fragment, send_loop}
use libpeer.Sctp.Receive.{word16, sctp_incoming_data}
use libpeer.Sctp.Answer.{length-checksummed}
use libpeer.Sctp.Wire.{front, length-front, sctp_header-append}
use libpeer.Sctp.Data.{IsText, after_data, sack_packet, sctp_incoming_data_message}

-- The packets that go out reach the other side in order; the value is what it gives out.
unfoldable pub receive_all : ℕ → Sctp → List SctpEvent → Option (Sctp × List SctpEvent)
receive_all rounds rx [] = some (rx, [])
receive_all rounds rx (written packet ∷ events) = do
  incoming ← sctp_incoming_data rounds rx packet (length packet)
  later ← receive_all rounds incoming.sctp events
  some (later.0, incoming.events ++ later.1)
receive_all rounds rx (message bytes sid ∷ events) = receive_all rounds rx events
receive_all rounds rx (opened ∷ events) = receive_all rounds rx events
receive_all rounds rx (closed ∷ events) = receive_all rounds rx events

-- The bytes that onmessage was given on a stream, one call behind the other.
unfoldable pub content : ℕ → List SctpEvent → List ℕ
content stream [] = []
content stream (message bytes sid ∷ events) =
    let later = content stream events in if sid == stream then bytes ++ later else later
content stream (written packet ∷ events) = content stream events
content stream (opened ∷ events) = content stream events
content stream (closed ∷ events) = content stream events

-- A packet of at most SCTP_MTU bytes, of full words.
unfoldable pub IsWhole : SctpEvent → Type 0
IsWhole (written packet) = (length packet ≤ sctp_mtu) × (length packet % 4 ≡ 0)
IsWhole (message bytes sid) = (length bytes ≤ sctp_mtu) × (sid ≡ 0)
IsWhole opened = Unit
IsWhole closed = Unit

abbrev fragment_chunk : Sctp → ℕ → ℕ → ℕ → List ℕ → ℕ → List ℕ
fragment_chunk tx iube sqn ppid bytes n =
    data_chunk iube (length bytes + 16) tx.tsn 0 sqn ppid ++ (bytes ++ replicate n 0)

data_packet-front :
    (tx : Sctp) (iube sqn ppid : ℕ) (bytes : List ℕ) (n : ℕ)
    → data_packet tx iube sqn ppid bytes n
      ≡ checksummed (front tx ++ (be32 0 ++ fragment_chunk tx iube sqn ppid bytes n))
unfolding data_packet
data_packet-front tx iube sqn ppid bytes n =
    ap checksummed (sctp_header-append tx (fragment_chunk tx iube sqn ppid bytes n))

pub length-data_packet :
    (tx : Sctp) (iube sqn ppid : ℕ) (bytes : List ℕ) (n : ℕ)
    → length tx.verification_tag ≡ 4
    → length (data_packet tx iube sqn ppid bytes n) ≡ 28 + length bytes + n
unfolding data_chunk
length-data_packet tx iube sqn ppid bytes n tag = rw (data_packet-front tx iube sqn ppid bytes n) (
    omega (
      arith,
      length-checksummed (front tx) (fragment_chunk tx iube sqn ppid bytes n) (length-front tx tag),
      length-append bytes (replicate n 0),
      length-replicate {A = ℕ} n 0,
    ))

pub data_packet_received :
    (rounds : ℕ) (tx rx : Sctp) (iube sqn ppid : ℕ) (bytes : List ℕ) (n : ℕ)
    → length tx.verification_tag ≡ 4
    → length rx.verification_tag ≡ 4
    → rx.onmessage ≡ true
    → IsText ppid
    → length bytes + 16 < 2 ^ 16
    → (pos : ℕ) × (sctp_incoming_data
          (suc (suc rounds))
          rx
          (data_packet tx iube sqn ppid bytes n)
          (length (data_packet tx iube sqn ppid bytes n))
        ≡ some (record {
          sctp = after_data rx tx.tsn;
          pos = pos;
          reply = 28;
          events = message bytes 0 ∷ written (sack_packet rx tx.tsn) ∷ [];
        }))
data_packet_received rounds tx rx iube sqn ppid bytes n ttag rtag on text fits =
    let chunk = fragment_chunk tx iube sqn ppid bytes n in
    let packet = checksummed (front tx ++ (be32 0 ++ chunk)) in
    let size : length packet ≡ 12 + length chunk =
      length-checksummed (front tx) chunk (length-front tx ttag) in
    let arrived =
      sctp_incoming_data_message rounds tx rx iube tx.tsn 0 sqn ppid bytes (replicate n 0) [] ttag
        rtag on text fits (omega arith) in
    (
      12 + length chunk + word16 (be16 (length bytes + 16)) 0,
      rw (data_packet-front tx iube sqn ppid bytes n, size) (rw (append-nil packet) at arrived),
    )

send_fragment_by :
    (tx : Sctp) (iube sqn ppid : ℕ) (bytes : List ℕ) (n cleared : ℕ) (buf' : List ℕ)
    → store tx.buf 0 (data_packet tx iube sqn ppid bytes n ++ replicate cleared 0) ≡ some buf'
    → send_fragment tx iube sqn ppid bytes n cleared
      ≡ some
          (record tx { buf = buf'; tsn = u32 (tx.tsn + 1) }, data_packet tx iube sqn ppid bytes n)
unfolding send_fragment
send_fragment_by tx iube sqn ppid bytes n cleared buf' e = rw e refl

-- A fragment that fits the buffer goes out.
pub send_fragment_fits :
    (tx : Sctp) (iube sqn ppid : ℕ) (bytes : List ℕ) (n cleared : ℕ)
    → length tx.verification_tag ≡ 4
    → length tx.buf ≡ 1300
    → 28 + length bytes + n + cleared ≤ 1300
    → (buf' : List ℕ) × (length buf' ≡ 1300)
      × (send_fragment tx iube sqn ppid bytes n cleared
          ≡ some (
            record tx { buf = buf'; tsn = u32 (tx.tsn + 1) },
            data_packet tx iube sqn ppid bytes n,
          ))
send_fragment_fits tx iube sqn ppid bytes n cleared tag size fits =
    let packet = data_packet tx iube sqn ppid bytes n in
    let (buf', stored, same) = store_fits tx.buf (packet ++ replicate cleared 0) 0 (
      omega (
        arith,
        length-append packet (replicate cleared 0),
        length-replicate {A = ℕ} cleared 0,
        length-data_packet tx iube sqn ppid bytes n tag,
      )) in
    (buf', omega arith, send_fragment_by tx iube sqn ppid bytes n cleared buf' stored)

pub send_loop_more :
    (fuel : ℕ) (tx : Sctp) (iube sqn ppid : ℕ) (bytes : List ℕ) (first : Sctp × List ℕ)
    (others : SctpSent)
    → ltb payload_max (length bytes) ≡ true
    → send_fragment tx iube sqn ppid (take payload_max bytes) 0 0 ≡ some first
    → send_loop fuel first.0 4 sqn ppid (drop payload_max bytes) ≡ some others
    → send_loop (suc fuel) tx iube sqn ppid bytes
      ≡ some (record others { events = written first.1 ∷ others.events })
unfolding send_loop
send_loop_more fuel tx iube sqn ppid bytes first others e1 e2 e3 = rw (e1, e2, e3) refl

pub send_loop_last :
    (fuel : ℕ) (tx : Sctp) (iube sqn ppid : ℕ) (bytes : List ℕ) (last : Sctp × List ℕ)
    → ltb payload_max (length bytes) ≡ false
    → (length bytes == 0) ≡ false
    → send_fragment tx
        (iube + 1)
        sqn
        ppid
        bytes
        (padding_len (length bytes))
        (payload_max - (length bytes + padding_len (length bytes)))
      ≡ some last
    → send_loop (suc fuel) tx iube sqn ppid bytes
      ≡ some (record { sctp = last.0; events = written last.1 ∷ []; rest = length bytes })
unfolding send_loop
send_loop_last fuel tx iube sqn ppid bytes last e1 e2 e3 = rw (e1, e2, e3) refl

pub receive_all_packet :
    (rounds : ℕ) (rx rx' : Sctp) (packet : List ℕ) (pos reply : ℕ) (given : List SctpEvent)
    (events : List SctpEvent) (later : Sctp × List SctpEvent)
    → sctp_incoming_data rounds rx packet (length packet)
      ≡ some (record { sctp = rx'; pos = pos; reply = reply; events = given })
    → receive_all rounds rx' events ≡ some later
    → receive_all rounds rx (written packet ∷ events) ≡ some (later.0, given ++ later.1)
unfolding receive_all
receive_all_packet rounds rx rx' packet pos reply given events later e1 e2 = rw (e1, e2) refl

pub padding_fits :
    (n : ℕ)
    → n ≤ payload_max
    → (n + padding_len n ≤ payload_max) × ((28 + n + padding_len n) % 4 ≡ 0)
unfolding padding_len
padding_fits n h = (omega arith, omega arith)
