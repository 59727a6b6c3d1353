-- ===== src/Sctp/State.antt =====
-- struct Sctp, and the bytes of the headers and chunks (src/sctp.h).
use libpeer.Base.{ℕ, Bool, List, ◌∷◌, ◌++◌, take, drop}
use libpeer.Base.Word.{be16, be32}
use libpeer.Rtcp.{le32}
use libpeer.Sctp.Checksum.{sctp_get_checksum}

-- SCTP_MTU
abbrev pub sctp_mtu : ℕ
sctp_mtu = 1200

-- SCTP_MTU - sizeof(SctpPacket) - sizeof(SctpDataChunk)
abbrev pub payload_max : ℕ
payload_max = 1172

-- SctpHeaderType, the members that the code looks at
abbrev pub sctp_data : ℕ
sctp_data = 0

abbrev pub sctp_init : ℕ
sctp_init = 1

abbrev pub sctp_init_ack : ℕ
sctp_init_ack = 2

abbrev pub sctp_sack : ℕ
sctp_sack = 3

abbrev pub sctp_abort : ℕ
sctp_abort = 6

abbrev pub sctp_cookie_echo : ℕ
sctp_cookie_echo = 10

abbrev pub sctp_cookie_ack : ℕ
sctp_cookie_ack = 11

-- DataChannelPpid and DecpMsgType
abbrev pub ppid_control : ℕ
ppid_control = 50

abbrev pub ppid_domstring : ℕ
ppid_domstring = 51

abbrev pub ppid_binary : ℕ
ppid_binary = 53

abbrev pub data_channel_open : ℕ
data_channel_open = 3

abbrev pub data_channel_ack : ℕ
data_channel_ack = 2

-- SctpStreamEntry: the 32 characters of the label are bytes in memory.
pub record SctpStreamEntry : Type 0 where
  pub label : List ℕ
  pub sid : ℕ

-- struct Sctp. The verification tag is kept as the four bytes that were received; `sqn` is the static
-- variable of sctp_outgoing_data; `buf` is all of its bytes.
pub record Sctp : Type 0 where
  pub local_port : ℕ
  pub remote_port : ℕ
  pub connected : Bool
  pub verification_tag : List ℕ
  pub tsn : ℕ
  pub sqn : ℕ
  pub stream_count : ℕ
  pub stream_table : List SctpStreamEntry
  pub onmessage : Bool
  pub onopen : Bool
  pub onclose : Bool
  pub buf : List ℕ

-- What goes out to dtls_srtp_write and to the callbacks.
pub data SctpEvent : Type 0 where
  written : List ℕ → SctpEvent
  message : List ℕ → ℕ → SctpEvent
  opened closed : SctpEvent

-- struct SctpHeader, its checksum zero
unfoldable pub sctp_header : Sctp → List ℕ
sctp_header sctp =
    be16 sctp.local_port ++ (be16 sctp.remote_port ++ (sctp.verification_tag ++ be32 0))

-- A packet with its checksum, which is stored in the order of a little-endian machine.
unfoldable pub checksummed : List ℕ → List ℕ
checksummed packet = take 8 packet ++ (le32 (sctp_get_checksum packet) ++ drop 12 packet)

-- struct SctpDataChunk without its data
unfoldable pub data_chunk : ℕ → ℕ → ℕ → ℕ → ℕ → ℕ → List ℕ
data_chunk iube length tsn sid sqn ppid =
    sctp_data ∷ iube ∷ (be16 length ++ (be32 tsn ++ (be16 sid ++ (be16 sqn ++ be32 ppid))))
