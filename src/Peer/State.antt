-- ===== src/Peer/State.antt =====
-- struct PeerConnection (src/peer_connection.c), what it gives out and what its loop gets from outside.
use libpeer.Base.{ℕ, ◌+◌, ◌-◌, ◌%◌, ◌^◌, ◌==◌, ◌&&◌, not, if◌then◌else◌, Bool, List, [], ◌∷◌}
use libpeer.Agent.State.{Agent}
use libpeer.Agent.Receive.{Received, Locals, Sent}
use libpeer.Stun.Message.{StunMessage}
use libpeer.Rtp.Encoder.{RtpEncoder}
use libpeer.Rtp.Decoder.{DecodeFunc}
use libpeer.Rtp.Dispatch.{Statics}
use libpeer.Sctp.State.{Sctp, SctpEvent}

pub data PeerConnectionState : Type 0 where
  peer_closed peer_new peer_checking peer_connected peer_completed peer_failed peer_disconnected :
      PeerConnectionState

pub data DataChannelType : Type 0 where
  channel_none channel_string channel_binary : DataChannelType

unfoldable pub state_number : PeerConnectionState → ℕ
state_number peer_closed = 0
state_number peer_new = 1
state_number peer_checking = 2
state_number peer_connected = 3
state_number peer_completed = 4
state_number peer_failed = 5
state_number peer_disconnected = 6

-- `onstate` and `on_request_keyframe` say whether the callbacks oniceconnectionstatechange and
-- on_request_keyframe are set; the tracks' callbacks are. `statics` are the static variables of the
-- decoders. The buffers, which each call clears, and the text of the description are left out.
pub record PeerConnection : Type 0 where
  pub state : PeerConnectionState
  pub onstate : Bool
  pub on_request_keyframe : Bool
  pub datachannel : DataChannelType
  pub agent : Agent
  pub sctp : Sctp
  pub artp_encoder : RtpEncoder
  pub vrtp_encoder : RtpEncoder
  pub artp_decoder : DecodeFunc
  pub vrtp_decoder : DecodeFunc
  pub statics : Statics
  pub remote_assrc : ℕ
  pub remote_vssrc : ℕ
  pub consent_request_time : ℕ

-- What goes out: a datagram of the agent, an RTP packet to be protected and sent by agent_send, what SCTP
-- gives to DTLS and to its callbacks, and the calls of the callbacks of the connection.
pub data PeerEvent : Type 0 where
  datagram : Sent → PeerEvent
  rtp : List ℕ → PeerEvent
  channel : SctpEvent → PeerEvent
  notified : PeerConnectionState → PeerEvent
  keyframe : PeerEvent
  audio video : List ℕ → PeerEvent

-- What src/dtls_srtp.c does with mbedtls and libsrtp: whether the handshake returns 0, and the agent that
-- its receive callback leaves; the data that dtls_srtp_read gets out of a datagram, none where it returns 0
-- or less; and the two functions that decrypt in place, on a buffer and a length.
pub record Dtls : Type 0 where
  pub handshake : Agent → Bool × Agent
  pub read : List ℕ → List ℕ
  pub decrypt_rtp : List ℕ → ℕ → Bool × (List ℕ) × ℕ
  pub decrypt_rtcp : List ℕ → ℕ → (List ℕ) × ℕ

-- What one call of the loop meets: the datagram, the locals of the agent's functions, and what
-- ports_get_epoch_time answers: for the consent check, its second call there, in agent_recv, behind it,
-- and for the timeout.
pub record Inputs : Type 0 where
  pub received : Received
  pub locals : Locals
  pub msg : StunMessage
  pub tie_breaker : List ℕ
  pub checked_at : ℕ
  pub asked_at : ℕ
  pub stun_at : ℕ
  pub arrived_at : ℕ
  pub ended_at : ℕ

-- CONFIG_CONSENT_INTERVAL, CONFIG_KEEPALIVE_TIMEOUT and CONFIG_RECV_BUFFER_SIZE
abbrev pub consent_interval : ℕ
consent_interval = 3000

abbrev pub keepalive_timeout : ℕ
keepalive_timeout = 10000

abbrev pub agent_buf_size : ℕ
agent_buf_size = 2048

-- The difference of two times, a uint64_t.
unfoldable pub elapsed : ℕ → ℕ → ℕ
elapsed now since = (now + 2 ^ 64 - since) % 2 ^ 64

-- STATE_CHANGED
unfoldable pub state_changed :
    PeerConnection → PeerConnectionState → PeerConnection × List PeerEvent
state_changed pc state =
    if pc.onstate && not (state_number pc.state == state_number state)
    then (record pc { state = state }, notified state ∷ [])
    else (pc, [])
