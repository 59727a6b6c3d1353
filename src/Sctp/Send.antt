-- ===== src/Sctp/Send.antt =====
-- sctp_outgoing_data and sctp_create_association (src/sctp.c).
use libpeer.Base.{
  ℕ, zero, suc, ◌+◌, ◌*◌, ◌/◌, ◌-◌, ◌==◌, ltb, if◌then◌else◌, Option, none, some, List, [], ◌∷◌,
  ◌++◌, length, take, drop, replicate,
}
use libpeer.Base.Word.{be16, be32, u16, u32}
use libpeer.Base.Memory.{store, load, ◌>>=◌}
use libpeer.Sctp.State.{
  Sctp, SctpEvent, written, payload_max, sctp_init, sctp_header, checksummed, data_chunk,
}

-- What a call leaves and gives out; `rest` is the value returned.
pub record SctpSent : Type 0 where
  pub sctp : Sctp
  pub events : List SctpEvent
  pub rest : ℕ

-- A packet of one fragment: the header, the chunk and its data, and `zeros` bytes of padding.
unfoldable pub data_packet : Sctp → ℕ → ℕ → ℕ → List ℕ → ℕ → List ℕ
data_packet sctp iube sqn ppid bytes zeros = checksummed (
    sctp_header sctp
    ++ (data_chunk iube (length bytes + 16) sctp.tsn 0 sqn ppid ++ (bytes ++ replicate zeros 0)))

-- The padding of the last fragment, of a packet that is a multiple of four bytes.
unfoldable pub padding_len : ℕ → ℕ
padding_len len = 4 * ((len + 16 + 12 + 3) / 4) - (len + 16 + 12)

-- What the packet leaves in `buf`, the next TSN, and the packet itself; a last fragment clears the data
-- behind it up to payload_max.
unfoldable pub send_fragment : Sctp → ℕ → ℕ → ℕ → List ℕ → ℕ → ℕ → Option (Sctp × List ℕ)
send_fragment sctp iube sqn ppid bytes zeros cleared = do
  let packet = data_packet sctp iube sqn ppid bytes zeros
  buf' ← store sctp.buf 0 (packet ++ replicate cleared 0)
  some (record sctp { buf = buf'; tsn = u32 (sctp.tsn + 1) }, packet)

-- The loop and the last fragment; each round takes payload_max bytes, so that their number is enough fuel.
unfoldable pub send_loop : ℕ → Sctp → ℕ → ℕ → ℕ → List ℕ → Option SctpSent
send_loop zero sctp iube sqn ppid bytes = none
send_loop (suc fuel) sctp iube sqn ppid bytes =
    if ltb payload_max (length bytes)
    then (do
      first ← send_fragment sctp iube sqn ppid (take payload_max bytes) 0 0
      others ← send_loop fuel first.0 4 sqn ppid (drop payload_max bytes)
      some (record others { events = written first.1 ∷ others.events }))
    else if length bytes == 0
    then some (record { sctp = sctp; events = []; rest = 0 })
    else (do
      let zeros = padding_len (length bytes)
      last ←
          send_fragment sctp (iube + 1) sqn ppid bytes zeros (payload_max - (length bytes + zeros))
      some (record { sctp = last.0; events = written last.1 ∷ []; rest = length bytes }))

-- sctp_outgoing_data; its parameter `sid` is not used.
unfoldable pub sctp_outgoing_data : Sctp → List ℕ → ℕ → ℕ → Option SctpSent
sctp_outgoing_data sctp bytes ppid sid =
    send_loop (suc (length bytes)) (record sctp { sqn = u16 (sctp.sqn + 1) }) 6 sctp.sqn ppid bytes

-- The chunk of an INIT: its length, 20, and its fields.
unfoldable pub init_chunk : ℕ → ℕ → ℕ → List ℕ
init_chunk type length tsn =
    type
    ∷ 0
    ∷ (be16 length ++ (be32 0x12345678 ++ (be32 0x100000 ++ (255 ∷ 255 ∷ 255 ∷ 255 ∷ be32 tsn))))

-- sctp_create_association: INIT goes out. The checksum is taken with what `buf` holds in its place.
unfoldable pub sctp_create_association : Sctp → Option (Sctp × SctpEvent)
sctp_create_association sctp = do
  let begun = record sctp { local_port = 5000; remote_port = 5000; tsn = 1234 }
  stale ← load sctp.buf 8 4
  let packet = be16 5000 ++ (be16 5000 ++ (be32 0 ++ (stale ++ init_chunk sctp_init 20 1234)))
  let sent = checksummed packet
  buf' ← store sctp.buf 0 sent
  some (record begun { buf = buf' }, written sent)
