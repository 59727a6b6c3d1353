-- ===== src/Sctp/Receive.antt =====
-- sctp_incoming_data (src/sctp.c), as built without usrsctp.
use libpeer.Base.{
  ℕ, zero, suc, ◌+◌, ◌*◌, ◌/◌, ◌-◌, ◌^◌, ◌==◌, ltb, if◌then◌else◌, Bool, true, false, not, ◌||◌,
  Option, none, some, List, [], ◌∷◌, ◌++◌, take, drop, replicate, get_or,
}
use libpeer.Base.Word.{be16, be32, read16, read32, u32}
use libpeer.Base.Memory.{store, load, ◌>>=◌}
use libpeer.Rtcp.{le32}
use libpeer.Sctp.Checksum.{sctp_get_checksum}
use libpeer.Sctp.State.{
  Sctp, SctpEvent, written, message, opened, closed, sctp_data, sctp_init, sctp_init_ack, sctp_sack,
  sctp_abort, sctp_cookie_echo, sctp_cookie_ack, ppid_control, ppid_domstring, ppid_binary,
  data_channel_open, data_channel_ack, sctp_header, data_chunk,
}
use libpeer.Sctp.Send.{init_chunk}

-- The locals of sctp_incoming_data, and what the calls and callbacks were given so far.
pub record Incoming : Type 0 where
  pub sctp : Sctp
  pub pos : ℕ
  pub reply : ℕ
  pub events : List SctpEvent

-- ntohs and ntohl of a field
unfoldable pub word16 : List ℕ → ℕ → ℕ
word16 bytes at = read16 (get_or bytes at 0) (get_or bytes (at + 1) 0)

unfoldable pub word32 : List ℕ → ℕ → ℕ
word32 bytes at =
    read32 (get_or bytes at 0) (get_or bytes (at + 1) 0) (get_or bytes (at + 2) 0)
      (get_or bytes (at + 3) 0)

-- A write to sctp->buf
unfoldable pub write_out : Incoming → ℕ → List ℕ → Option Incoming
write_out incoming at bytes = do
  buf' ← store incoming.sctp.buf at bytes
  some (record incoming { sctp = record incoming.sctp { buf = buf' } })

unfoldable pub emit : Incoming → SctpEvent → Incoming
emit incoming event = record incoming { events = incoming.events ++ (event ∷ []) }

-- The answer to DATA_CHANNEL_OPEN: a DATA chunk behind the SACK chunk.
unfoldable pub acknowledge_open : Incoming → Option Incoming
acknowledge_open incoming = do
  answered ←
      write_out incoming 28
        (data_chunk 3 17 incoming.sctp.tsn 0 0 ppid_control ++ (data_channel_ack ∷ []))
  some (record answered {
    sctp = record answered.sctp { tsn = u32 (incoming.sctp.tsn + 1) };
    reply = incoming.reply + 17;
  })

-- What the callback is given is what it can read; a length below 16 wraps around.
unfoldable pub deliver : Incoming → List ℕ → List ℕ → ℕ → Option Incoming
deliver incoming buf chunk pos =
    if not incoming.sctp.onmessage
    then some incoming
    else if ltb (word16 chunk 2) 16
    then none
    else (do
      bytes ← load buf (pos + 16) (word16 chunk 2 - 16)
      some (emit incoming (message bytes (word16 chunk 8))))

-- case SCTP_DATA
unfoldable pub receive_data : Incoming → List ℕ → ℕ → Option Incoming
receive_data incoming buf len = do
  let pos = incoming.pos
  chunk ← load buf pos 16
  sack ← write_out incoming 12 (sctp_sack ∷ 0 ∷ (be16 16 ++ (take 4 (drop 4 chunk) ++ be32 2)))
  let acked = record sack { pos = len; reply = 28 }
  let ppid = word32 chunk 12
  if ppid == ppid_control
      then (do
        first ← load buf (pos + 16) 1
        if get_or first 0 0 == data_channel_open then acknowledge_open acked else some acked)
      else if ppid == ppid_domstring || ppid == ppid_binary
      then deliver acked buf chunk pos
      else some acked

-- case SCTP_INIT: the chunk is looked for behind the header, whatever `pos` is.
unfoldable pub receive_init : Incoming → List ℕ → Option Incoming
receive_init incoming buf = do
  tag ← load buf 16 4
  ack ←
      write_out incoming 12
        (init_chunk sctp_init_ack 28 incoming.sctp.tsn ++ (be16 7 ++ (be16 8 ++ be32 2)))
  some (record ack { sctp = record ack.sctp { verification_tag = tag }; reply = 40 })

-- The search for the cookie, at `i`, with the `limit` of the loop. Each round takes two bytes.
unfoldable pub find_cookie : ℕ → List ℕ → ℕ → ℕ → Option ℕ
find_cookie zero buf i limit = none
find_cookie (suc fuel) buf i limit = if not (ltb i limit) then none else (do
  type ← load buf (32 + i) 2
  let later = find_cookie fuel buf (i + 2) limit
  if word16 type 0 == 7 then some i else later)

-- case SCTP_INIT_ACK. The length in the chunk is compared without ntohs; without a cookie the source goes
-- through a null pointer.
unfoldable pub receive_init_ack : Incoming → List ℕ → Option Incoming
receive_init_ack incoming buf = do
  common ← load buf 12 4
  tag ← load buf 16 4
  let limit = get_or common 2 0 + get_or common 3 0 * 2 ^ 8 - 20
  i ← find_cookie limit buf 0 limit
  param ← load buf (32 + i) 4
  let size = word16 param 2
  if ltb size 4 then none else (do
    value ← load buf (32 + i + 4) (size - 4)
    echo ← write_out incoming 12 ((sctp_cookie_echo ∷ 0 ∷ be16 size) ++ value)
    some (record echo { sctp = record echo.sctp { verification_tag = tag }; reply = size + 12 }))

unfoldable pub connect : Incoming → Incoming
connect incoming =
    if incoming.sctp.connected
    then incoming
    else let up = record incoming { sctp = record incoming.sctp { connected = true } } in
      if incoming.sctp.onopen then emit up opened else up

-- case SCTP_COOKIE_ECHO; the flags are left as they are.
unfoldable pub receive_cookie_echo : Incoming → ℕ → Option Incoming
receive_cookie_echo incoming len = do
  typed ← write_out incoming 12 (sctp_cookie_ack ∷ [])
  ack ← write_out typed 14 (be16 4)
  some (connect (record ack { pos = len; reply = 16 }))

-- case SCTP_ABORT
unfoldable pub receive_abort : Incoming → Incoming
receive_abort incoming =
    let down = record incoming { sctp = record incoming.sctp { connected = false } } in
    if incoming.sctp.onclose then emit down closed else down

-- switch (chunk_common->type)
unfoldable pub receive_chunk : Incoming → List ℕ → ℕ → ℕ → Option Incoming
receive_chunk incoming buf len type =
    if type == sctp_data
    then receive_data incoming buf len
    else if type == sctp_init
    then receive_init incoming buf
    else if type == sctp_init_ack
    then receive_init_ack incoming buf
    else if type == sctp_sack
    then some incoming
    else if type == sctp_cookie_echo
    then receive_cookie_echo incoming len
    else if type == sctp_cookie_ack
    then some (connect incoming)
    else if type == sctp_abort
    then some (receive_abort incoming)
    else some (record incoming { reply = 0 })

-- What is behind the switch: the header, and the packet if there is one.
unfoldable pub answer_chunk : Incoming → Option Incoming
answer_chunk incoming = do
  headed ← write_out incoming 0 (sctp_header incoming.sctp)
  if incoming.reply == 0 then some headed else (do
    let size = 4 * ((incoming.reply + 3) / 4)
    packet ← load headed.sctp.buf 0 size
    summed ← write_out headed 8 (le32 (sctp_get_checksum packet))
    sent ← load summed.sctp.buf 0 size
    some (emit (record summed { reply = size }) (written sent)))

-- One round of the loop.
unfoldable pub incoming_round : List ℕ → ℕ → Incoming → Option Incoming
incoming_round buf len incoming = do
  common ← load buf incoming.pos 4
  switched ← receive_chunk incoming buf len (get_or common 0 0)
  answered ← answer_chunk switched
  some (record answered { pos = answered.pos + word16 common 2 })

-- The condition of the loop; 4 * (pos + 3) / 4 is pos + 3.
unfoldable pub goes_on : ℕ → Incoming → Bool
goes_on len incoming = ltb (4 * (incoming.pos + 3) / 4) len

-- At most `rounds` rounds of the loop.
unfoldable pub incoming_loop : ℕ → List ℕ → ℕ → Incoming → Option Incoming
incoming_loop zero buf len incoming = some incoming
incoming_loop (suc rounds) buf len incoming =
    if goes_on len incoming
    then (do next ← incoming_round buf len incoming; incoming_loop rounds buf len next)
    else some incoming

-- sctp_incoming_data, with at most `rounds` rounds; `buf` is the memory, of which `len` bytes were received.
-- The value is the state after the last round; where the checksum is wrong, nothing happens.
unfoldable pub sctp_incoming_data : ℕ → Sctp → List ℕ → ℕ → Option Incoming
sctp_incoming_data rounds sctp buf len = do
  sum ← load buf 8 4
  zeroed ← store buf 8 (be32 0)
  packet ← load zeroed 0 len
  if not (
        read32 (get_or sum 3 0) (get_or sum 2 0) (get_or sum 1 0) (get_or sum 0 0)
        == sctp_get_checksum packet)
      then some (record { sctp = sctp; pos = len; reply = 0; events = [] })
      else incoming_loop rounds zeroed len (record {
        sctp = record sctp { buf = replicate 1300 0 };
        pos = 12;
        reply = 0;
        events = [];
      })
