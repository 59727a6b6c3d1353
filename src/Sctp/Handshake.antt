-- ===== src/Sctp/Handshake.antt =====
-- The four packets that set an association up (src/sctp.c).
use libpeer.Base.{
  ℕ, suc, ◌≡◌, refl, ap, true, false, List, [], ◌∷◌, ◌++◌, some, length, length-replicate, arith,
}
use libpeer.Base.Word.{be16, be32}
use libpeer.Base.Memory.{store, load, store-append, store_fits}
use libpeer.Rtcp.{le32}
use libpeer.Sctp.State.{
  Sctp, written, opened, sctp_header, checksummed, sctp_init, sctp_init_ack, sctp_cookie_echo,
  sctp_cookie_ack,
}
use libpeer.Sctp.Send.{init_chunk, sctp_create_association}
use libpeer.Sctp.Receive.{emit, word16, receive_chunk}
use libpeer.Sctp.Wire.{front, begin}
use libpeer.Sctp.Answer.{write_out_by, answer_none, answer_chunk-checksummed, zeros}
use libpeer.Sctp.Data.{round_by, room}
use libpeer.Sctp.Arrive.{
  connect_by, receive_cookie_echo_by, arrive, arrive_chunk, receive_init_by, find_cookie_first,
  receive_init_ack_by, tag,
}

abbrev init_ack_chunk : ℕ → List ℕ
init_ack_chunk tsn = init_chunk sctp_init_ack 28 tsn ++ (be16 7 ++ (be16 8 ++ be32 2))

abbrev cookie_echo_chunk : List ℕ
cookie_echo_chunk = sctp_cookie_echo ∷ 0 ∷ (be16 8 ++ be32 2)

abbrev cookie_ack_chunk : List ℕ
cookie_ack_chunk = sctp_cookie_ack ∷ 0 ∷ be16 4

-- The packet with a chunk that an association of the tag sends.
abbrev answer : Sctp → List ℕ → List ℕ
answer sctp chunk =
    checksummed (front (record sctp { verification_tag = tag }) ++ (be32 0 ++ chunk))

abbrev answered : Sctp → List ℕ → ℕ → Sctp
answered sctp chunk k = record sctp { verification_tag = tag; buf = answer sctp chunk ++ zeros k }

init_arrives :
    (rounds : ℕ) (b : Sctp) (tsn : ℕ)
    → arrive (suc (suc rounds)) b (
        checksummed
          ((be16 5000 ++ (be16 5000 ++ be32 0)) ++ (be32 0 ++ init_chunk sctp_init 20 tsn)))
      ≡ some
          (answered b (init_ack_chunk b.tsn) 1260, written (answer b (init_ack_chunk b.tsn)) ∷ [])
unfolding load receive_chunk init_chunk word16
init_arrives rounds b tsn =
    let h = be16 5000 ++ (be16 5000 ++ be32 0) in
    let chunk = init_chunk sctp_init 20 tsn in
    let room' = zeros 12 ++ (init_ack_chunk b.tsn ++ zeros 1260) in
    arrive_chunk rounds b h chunk _ refl (omega arith)
      (round_by (h ++ (be32 0 ++ chunk)) (1 ∷ 0 ∷ be16 20) 32 (begin b) _ _ refl
        (receive_init_by (begin b) (record (begin b) { sctp = record b { buf = room' } }) _ tag refl
          (write_out_by (begin b) 12 (init_ack_chunk b.tsn) room'
            (room 28 1260 (init_ack_chunk b.tsn) refl refl)))
        (answer_chunk-checksummed (record b { buf = room'; verification_tag = tag }) 12 40 []
          (zeros 12) (init_ack_chunk b.tsn) (zeros 1260) refl refl refl refl refl))
      (omega arith)

init_ack_arrives :
    (rounds : ℕ) (a b : Sctp)
    → arrive (suc (suc rounds)) a (answer b (init_ack_chunk b.tsn))
      ≡ some (answered a cookie_echo_chunk 1280, written (answer a cookie_echo_chunk) ∷ [])
unfolding load receive_chunk init_chunk word16
init_ack_arrives rounds a b =
    let h = front (record b { verification_tag = tag }) in
    let chunk = init_ack_chunk b.tsn in
    let buf = h ++ (be32 0 ++ chunk) in
    let room' = zeros 12 ++ (cookie_echo_chunk ++ zeros 1280) in
    arrive_chunk rounds a h chunk _ refl (omega arith)
      (round_by buf (2 ∷ 0 ∷ be16 28) 40 (begin a) _ _ refl
        (receive_init_ack_by (begin a) (record (begin a) { sctp = record a { buf = room' } }) buf
          (2 ∷ 0 ∷ be16 28) tag (be16 7 ++ be16 8) (be32 2) 4 7148 refl refl refl
          (find_cookie_first 7147 7148 buf (be16 7) refl refl refl) refl refl refl
          (write_out_by (begin a) 12 cookie_echo_chunk room'
            (room 8 1280 cookie_echo_chunk refl refl)))
        (answer_chunk-checksummed (record a { buf = room'; verification_tag = tag }) 12 20 []
          (zeros 12) cookie_echo_chunk (zeros 1280) refl refl refl refl refl))
      (omega arith)

cookie_echo_arrives :
    (rounds : ℕ) (a b : Sctp)
    → b.connected ≡ false
    → b.onopen ≡ true
    → arrive (suc (suc rounds)) (record b { verification_tag = tag }) (answer a cookie_echo_chunk)
      ≡ some (
        record (answered b cookie_ack_chunk 1284) { connected = true },
        opened ∷ written (answer b cookie_ack_chunk) ∷ [],
      )
unfolding load receive_chunk word16 emit
cookie_echo_arrives rounds a b e1 e2 =
    let rx = record b { verification_tag = tag } in
    let h = front (record a { verification_tag = tag }) in
    let buf = h ++ (be32 0 ++ cookie_echo_chunk) in
    let typed = zeros 12 ++ ((sctp_cookie_ack ∷ []) ++ zeros 1287) in
    let acked = zeros 12 ++ (cookie_ack_chunk ++ zeros 1284) in
    let length_set : store typed 14 (be16 4) ≡ some acked =
      store-append (zeros 12 ++ (sctp_cookie_ack ∷ 0 ∷ [])) (0 ∷ 0 ∷ []) (zeros 1284) (be16 4) 14
        refl refl in
    let before = record (begin rx) { sctp = record rx { buf = acked } } in
    let up =
      answer_chunk-checksummed (record b { buf = acked; connected = true; verification_tag = tag })
        20 16 (opened ∷ []) (zeros 12) cookie_ack_chunk (zeros 1284) refl refl refl refl refl in
    arrive_chunk rounds rx h cookie_echo_chunk _ refl (omega arith)
      (round_by buf (10 ∷ 0 ∷ be16 8) 20 (begin rx) _ _ refl
        (receive_cookie_echo_by (begin rx) (record (begin rx) { sctp = record rx { buf = typed } })
          before _ 20
          (write_out_by (begin rx) 12 (sctp_cookie_ack ∷ []) typed
            (room 1 1287 (sctp_cookie_ack ∷ []) refl refl))
          (write_out_by (record (begin rx) { sctp = record rx { buf = typed } }) 14 (be16 4) acked
            length_set)
          (connect_by (record before { pos = 20; reply = 16 }) e1 e2))
        up)
      (omega arith)

cookie_ack_arrives :
    (rounds : ℕ) (a b : Sctp)
    → a.connected ≡ false
    → a.onopen ≡ true
    → (buf' : List ℕ) × (arrive
          (suc (suc rounds))
          (record a { verification_tag = tag })
          (answer b cookie_ack_chunk)
        ≡ some (record a { verification_tag = tag; connected = true; buf = buf' }, opened ∷ []))
unfolding load receive_chunk word16 emit sctp_header
cookie_ack_arrives rounds a b e1 e2 =
    let rx = record a { verification_tag = tag } in
    let h = front (record b { verification_tag = tag }) in
    let buf = h ++ (be32 0 ++ cookie_ack_chunk) in
    let (buf', stored, size) =
      store_fits (zeros 1300) (sctp_header rx) 0 (omega (arith, length-replicate {A = ℕ} 1300 0)) in
    let up = record (begin rx) {
      sctp = record (begin rx).sctp { connected = true };
      events = opened ∷ [];
    } in
    (
      buf',
      arrive_chunk rounds rx h cookie_ack_chunk _ refl (omega arith)
          (round_by buf cookie_ack_chunk 16 (begin rx) up _ refl
            (ap some (connect_by (begin rx) e1 e2))
            (answer_none up.sctp 12 (opened ∷ []) buf' stored))
          (omega arith),
    )

create_association_by :
    (a : Sctp) (buf' : List ℕ)
    → load a.buf 8 4 ≡ some (be32 0)
    → store a.buf 0 (
        checksummed
          ((be16 5000 ++ (be16 5000 ++ be32 0)) ++ (be32 0 ++ init_chunk sctp_init 20 1234)))
      ≡ some buf'
    → sctp_create_association a
      ≡ some (
        record a { local_port = 5000; remote_port = 5000; tsn = 1234; buf = buf' },
        written (
            checksummed
              ((be16 5000 ++ (be16 5000 ++ be32 0)) ++ (be32 0 ++ init_chunk sctp_init 20 1234))),
      )
unfolding sctp_create_association
create_association_by a buf' e1 e2 = rw (e1, e2) refl

abbrev pub Associates : ℕ → Sctp → Sctp → Type 0
Associates rounds a b =
    let receive = arrive (suc (suc rounds)) in
    (init init_ack echo ack : List ℕ) × (a1 a2 a3 b1 b2 : Sctp) × (sctp_create_association a
      ≡ some (a1, written init))
    × (receive b init ≡ some (b1, written init_ack ∷ []))
    × (receive a1 init_ack ≡ some (a2, written echo ∷ []))
    × (receive b1 echo ≡ some (b2, opened ∷ written ack ∷ []))
    × (receive a2 ack ≡ some (a3, opened ∷ []))
    × (a3.connected ≡ true)
    × (b2.connected ≡ true)
    × (a3.verification_tag ≡ b2.verification_tag)

-- Two ends that are not connected and have an onopen callback. One, whose buffer is of 1300 bytes with a
-- zero where the checksum goes, creates the association. The INIT, the INIT ACK, the COOKIE ECHO and the
-- COOKIE ACK are each sent in answer to the packet before and arrive; then both ends are connected, with
-- the same tag, onopen was called once at each, and nothing else is sent.
pub sctp_association :
    (rounds : ℕ) (a b : Sctp)
    → a.connected ≡ false
    → b.connected ≡ false
    → a.onopen ≡ true
    → b.onopen ≡ true
    → length a.buf ≡ 1300
    → load a.buf 8 4 ≡ some (be32 0)
    → Associates rounds a b
sctp_association rounds a b ac bc ao bo size stale =
    let init =
      checksummed
        ((be16 5000 ++ (be16 5000 ++ be32 0)) ++ (be32 0 ++ init_chunk sctp_init 20 1234)) in
    let (buf', stored, same) =
      store_fits a.buf init 0 (unfold checksummed init_chunk le32 in omega arith) in
    let a1 = record a { local_port = 5000; remote_port = 5000; tsn = 1234; buf = buf' } in
    let b1 = answered b (init_ack_chunk b.tsn) 1260 in
    let a2 = answered a1 cookie_echo_chunk 1280 in
    let b2 = record (answered b1 cookie_ack_chunk 1284) { connected = true } in
    let (last, e) = cookie_ack_arrives rounds a2 b1 ac ao in
    (
      init,
      _,
      _,
      _,
      a1,
      a2,
      _,
      b1,
      b2,
      create_association_by a buf' stale stored,
      init_arrives rounds b 1234,
      init_ack_arrives rounds a1 b,
      cookie_echo_arrives rounds a1 b1 bc bo,
      e,
      refl,
      refl,
      refl,
    )
