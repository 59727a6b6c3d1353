-- ===== src/Sctp/Arrive.antt =====
-- How the chunks that set an association up are taken by sctp_incoming_data (src/sctp.c).
use libpeer.Base.{
  ℕ, suc, ◌+◌, ◌*◌, ◌-◌, ◌^◌, ◌≤◌, ◌≡◌, refl, ◌∙◌, ltb, ◌==◌, true, false, List, [], ◌∷◌, ◌++◌,
  Option, some, length, get_or, arith, append-nil,
}
use libpeer.Base.Word.{be16, be32}
use libpeer.Base.Memory.{load, ◌>>=◌}
use libpeer.Sctp.State.{
  Sctp, SctpEvent, opened, checksummed, sctp_init_ack, sctp_cookie_echo, sctp_cookie_ack,
}
use libpeer.Sctp.Send.{init_chunk}
use libpeer.Sctp.Receive.{
  Incoming, write_out, emit, connect, word16, receive_init, find_cookie, receive_init_ack,
  receive_cookie_echo, incoming_round, sctp_incoming_data,
}
use libpeer.Sctp.Wire.{begin, sctp_incoming_data-checksummed, incoming_loop_once}
use libpeer.Sctp.Answer.{length-checksummed}
use libpeer.Sctp.Data.{goes_on_first, goes_on_last}

-- A whole packet arrives; what is left and what is given out.
unfoldable pub arrive : ℕ → Sctp → List ℕ → Option (Sctp × List SctpEvent)
arrive rounds sctp packet = do
  incoming ← sctp_incoming_data rounds sctp packet (length packet)
  some (incoming.sctp, incoming.events)

arrive_by :
    (rounds : ℕ) (sctp : Sctp) (packet : List ℕ) (len : ℕ) (incoming : Incoming)
    → length packet ≡ len
    → sctp_incoming_data rounds sctp packet len ≡ some incoming
    → arrive rounds sctp packet ≡ some (incoming.sctp, incoming.events)
unfolding arrive
arrive_by rounds sctp packet len incoming e1 e2 = rw (e1, e2) refl

-- A packet of one chunk arrives: its round is the last.
pub arrive_chunk :
    (rounds : ℕ) (rx : Sctp) (h chunk : List ℕ) (next : Incoming)
    → length h ≡ 8
    → 4 ≤ length chunk
    → incoming_round (h ++ (be32 0 ++ chunk)) (12 + length chunk) (begin rx) ≡ some next
    → 12 + length chunk ≤ next.pos
    → arrive (suc (suc rounds)) rx (checksummed (h ++ (be32 0 ++ chunk)))
      ≡ some (next.sctp, next.events)
arrive_chunk rounds rx h chunk next e enough round behind =
    let len = 12 + length chunk in
    let packet = checksummed (h ++ (be32 0 ++ chunk)) in
    let enters =
      rw (append-nil packet, append-nil chunk) at
        (sctp_incoming_data-checksummed (suc (suc rounds)) rx h chunk [] e) in
    arrive_by (suc (suc rounds)) rx packet len next (length-checksummed h chunk e) (
      enters
      ∙ incoming_loop_once rounds (h ++ (be32 0 ++ chunk)) len (begin rx) next
          (goes_on_first len (begin rx) refl (omega arith)) round (goes_on_last len next behind))

pub receive_init_by :
    (incoming acked : Incoming) (buf tag : List ℕ)
    → load buf 16 4 ≡ some tag
    → write_out incoming 12
        (init_chunk sctp_init_ack 28 incoming.sctp.tsn ++ (be16 7 ++ (be16 8 ++ be32 2)))
      ≡ some acked
    → receive_init incoming buf
      ≡ some (record acked { sctp = record acked.sctp { verification_tag = tag }; reply = 40 })
unfolding receive_init
receive_init_by incoming acked buf tag e1 e2 = rw (e1, e2) refl

pub find_cookie_first :
    (fuel limit : ℕ) (buf type : List ℕ)
    → ltb 0 limit ≡ true
    → load buf 32 2 ≡ some type
    → (word16 type 0 == 7) ≡ true
    → find_cookie (suc fuel) buf 0 limit ≡ some 0
unfolding find_cookie
find_cookie_first fuel limit buf type e1 e2 e3 = rw (e1, e2, e3) refl

pub receive_init_ack_by :
    (incoming echo : Incoming) (buf common tag param value : List ℕ) (size limit : ℕ)
    → load buf 12 4 ≡ some common
    → load buf 16 4 ≡ some tag
    → get_or common 2 0 + get_or common 3 0 * 2 ^ 8 - 20 ≡ limit
    → find_cookie limit buf 0 limit ≡ some 0
    → load buf 32 4 ≡ some param
    → word16 param 2 ≡ size + 4
    → load buf 36 size ≡ some value
    → write_out incoming 12 ((sctp_cookie_echo ∷ 0 ∷ be16 (size + 4)) ++ value) ≡ some echo
    → receive_init_ack incoming buf
      ≡ some (record echo {
        sctp = record echo.sctp { verification_tag = tag };
        reply = size + 4 + 12;
      })
unfolding receive_init_ack
receive_init_ack_by incoming echo buf common tag param value size limit e1 e2 e3 e4 e5 e6 e7 e8 =
    let enough : ltb (size + 4) 4 ≡ false = ground arith in
    let less : size + 4 - 4 ≡ size = omega arith in
    rw (e1, e2, e3, e4, e5, e6, enough, less, e7, e8) refl

-- The tag that every INIT of the library carries, and the cookie.
abbrev pub tag : List ℕ
tag = be32 0x12345678

pub connect_by :
    (incoming : Incoming)
    → incoming.sctp.connected ≡ false
    → incoming.sctp.onopen ≡ true
    → connect incoming
      ≡ emit (record incoming { sctp = record incoming.sctp { connected = true } }) opened
unfolding connect
connect_by incoming e1 e2 = rw (e1, e2) refl

pub receive_cookie_echo_by :
    (incoming typed acked up : Incoming) (len : ℕ)
    → write_out incoming 12 (sctp_cookie_ack ∷ []) ≡ some typed
    → write_out typed 14 (be16 4) ≡ some acked
    → connect (record acked { pos = len; reply = 16 }) ≡ up
    → receive_cookie_echo incoming len ≡ some up
unfolding receive_cookie_echo
receive_cookie_echo_by incoming typed acked up len e1 e2 e3 = rw (e1, e2, e3) refl
