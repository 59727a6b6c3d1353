-- ===== src/Sctp/Streams.antt =====
-- The table of data channels (src/sctp.c), and how a peer opens and looks up one (src/peer_connection.c).
use libpeer.Base.{
  ℕ, zero, suc, ◌+◌, ◌-◌, ◌==◌, ltb, leb, if◌then◌else◌, Bool, true, not, ◌&&◌, ◌||◌, Option, none,
  some, List, [], ◌∷◌, ◌++◌, length, take, drop, replicate, get_or,
}
use libpeer.Base.Word.{be16, be32}
use libpeer.Base.Memory.{load, ◌>>=◌}
use libpeer.Sctp.State.{
  Sctp, SctpStreamEntry, data_channel_open, data_channel_ack, ppid_control, ppid_domstring,
  ppid_binary,
}
use libpeer.Sctp.Send.{SctpSent, sctp_outgoing_data}
use libpeer.Sctp.Receive.{word16, word32}

-- SCTP_MAX_STREAMS
abbrev pub max_streams : ℕ
max_streams = 5

-- The characters of a C string, before its zero.
unfoldable pub until_zero : List ℕ → List ℕ
until_zero [] = []
until_zero (b ∷ bytes) = let rest = until_zero bytes in if b == 0 then [] else b ∷ rest

-- strncpy into 32 characters
unfoldable pub label_field : List ℕ → List ℕ
label_field label = take 32 (until_zero label ++ replicate 32 0)

-- The first entries of an array, and one behind them.
unfoldable pub set_entry :
    List SctpStreamEntry → ℕ → SctpStreamEntry → Option (List SctpStreamEntry)
set_entry [] n entry = none
set_entry (e ∷ entries) zero entry = some (entry ∷ entries)
set_entry (e ∷ entries) (suc n) entry = do others ← set_entry entries n entry; some (e ∷ others)

-- sctp_add_stream_mapping
unfoldable pub sctp_add_stream_mapping : Sctp → List ℕ → ℕ → Option Sctp
sctp_add_stream_mapping sctp label sid =
    if ltb sctp.stream_count max_streams
    then (do
      table ←
          set_entry sctp.stream_table sctp.stream_count
            (record { label = label_field label; sid = sid })
      some (record sctp { stream_table = table; stream_count = sctp.stream_count + 1 }))
    else some sctp

-- A call of sctp_outgoing_data: the bytes, the PPID and the stream.
pub record Outgoing : Type 0 where
  pub bytes : List ℕ
  pub ppid : ℕ
  pub sid : ℕ

-- What is left of the table, and the answer where there is one.
pub record Opened : Type 0 where
  pub sctp : Sctp
  pub ack : Option Outgoing

unfoldable pub ignored : Sctp → Opened
ignored sctp = record { sctp = sctp; ack = none }

-- sctp_parse_data_channel_open
unfoldable pub sctp_parse_data_channel_open : Sctp → ℕ → List ℕ → ℕ → Option Opened
sctp_parse_data_channel_open sctp sid bytes length =
    if ltb length 12 then some (ignored sctp) else (do
      head ← load bytes 0 12
      let label_length = word16 head 8
      if not (get_or head 0 0 == data_channel_open)
          then some (ignored sctp)
          else if ltb length (12 + label_length + word16 head 10)
          then some (ignored sctp)
          else (do
            label ← load bytes 12 label_length
            mapped ← sctp_add_stream_mapping sctp (label ++ (0 ∷ [])) sid
            some (record {
              sctp = mapped;
              ack = some (record { bytes = data_channel_ack ∷ []; ppid = ppid_control; sid = sid });
            })))

-- sctp_handle_sctp_packet
unfoldable pub sctp_handle_sctp_packet : Sctp → List ℕ → ℕ → Option Opened
sctp_handle_sctp_packet sctp buf len = if leb len 29 then some (ignored sctp) else (do
  head ← load buf 0 28
  if not (get_or head 12 0 == 0)
      then some (ignored sctp)
      else if word32 head 24 == ppid_control
      then sctp_parse_data_channel_open sctp (word16 head 20) (drop 28 buf) (len - 28)
      else some (ignored sctp))

-- strncmp(a, b, n) == 0
unfoldable pub same_string : ℕ → List ℕ → List ℕ → Bool
same_string zero xs ys = true
same_string (suc n) xs ys =
    let x = get_or xs 0 0 in
    let rest = same_string n (drop 1 xs) (drop 1 ys) in x == get_or ys 0 0 && (x == 0 || rest)

unfoldable pub lookup_sid : ℕ → List SctpStreamEntry → List ℕ → Option ℕ
lookup_sid zero entries label = none
lookup_sid (suc n) [] label = none
lookup_sid (suc n) (entry ∷ entries) label =
    let later = lookup_sid n entries label in
    if same_string 32 entry.label label then some entry.sid else later

-- peer_connection_lookup_sid, on the table of its Sctp; `none` is -1.
unfoldable pub peer_connection_lookup_sid : Sctp → List ℕ → Option ℕ
peer_connection_lookup_sid sctp label = lookup_sid sctp.stream_count sctp.stream_table label

unfoldable pub lookup_label : ℕ → List SctpStreamEntry → ℕ → Option (List ℕ)
lookup_label zero entries sid = none
lookup_label (suc n) [] sid = none
lookup_label (suc n) (entry ∷ entries) sid =
    let later = lookup_label n entries sid in if entry.sid == sid then some entry.label else later

-- peer_connection_lookup_sid_label
unfoldable pub peer_connection_lookup_sid_label : Sctp → ℕ → Option (List ℕ)
peer_connection_lookup_sid_label sctp sid = lookup_label sctp.stream_count sctp.stream_table sid

-- The message of peer_connection_create_datachannel_sid; `label` and `protocol` are without their zeros.
unfoldable pub open_message : ℕ → ℕ → List ℕ → List ℕ → List ℕ
open_message priority reliability_parameter label protocol =
    data_channel_open
    ∷ 0
    ∷ (be16 priority
        ++ (be32 reliability_parameter
            ++ (be16 (length label) ++ (be16 (length protocol) ++ (label ++ protocol)))))

-- peer_connection_create_datachannel_sid: `none` is -1, or a write outside of sctp->buf. The argument
-- channel_type is not used.
unfoldable pub peer_connection_create_datachannel_sid :
    Sctp → ℕ → ℕ → List ℕ → List ℕ → ℕ → Option SctpSent
peer_connection_create_datachannel_sid sctp priority reliability_parameter label protocol sid =
    if not sctp.connected
    then none
    else sctp_outgoing_data sctp (open_message priority reliability_parameter label protocol)
        ppid_control sid

-- peer_connection_datachannel_send_sid; `strings` is the configuration DATA_CHANNEL_STRING.
unfoldable pub peer_connection_datachannel_send_sid : Sctp → Bool → List ℕ → ℕ → Option SctpSent
peer_connection_datachannel_send_sid sctp strings bytes sid =
    if not sctp.connected
    then none
    else if strings
    then sctp_outgoing_data sctp bytes ppid_domstring sid
    else sctp_outgoing_data sctp bytes ppid_binary sid
