-- ===== src/Peer/Create.antt =====
-- peer_connection_create (src/peer_connection.c).
use libpeer.Base.{Bool, false, replicate}
use libpeer.Agent.State.{Agent}
use libpeer.Rtp.Encoder.{RtpEncoder, EncodeFunc, MediaCodec, rtp_encoder_init}
use libpeer.Rtp.Decoder.{DecodeFunc, rtp_decoder_init}
use libpeer.Rtp.Dispatch.{Statics}
use libpeer.Sctp.State.{Sctp, SctpStreamEntry}
use libpeer.Peer.State.{PeerConnection, DataChannelType, peer_closed}

-- What calloc and memset leave.
abbrev pub zero_encoder : RtpEncoder
zero_encoder = record {
  type = 0;
  encode_func = EncodeFunc.unset;
  seq_number = 0;
  ssrc = 0;
  timestamp = 0;
  timestamp_increment = 0;
}

abbrev pub zero_entry : SctpStreamEntry
zero_entry = record { label = replicate 32 0; sid = 0 }

abbrev pub zero_sctp : Sctp
zero_sctp = record {
  local_port = 0;
  remote_port = 0;
  connected = false;
  verification_tag = replicate 4 0;
  tsn = 0;
  sqn = 0;
  stream_count = 0;
  stream_table = replicate 5 zero_entry;
  onmessage = false;
  onopen = false;
  onclose = false;
  buf = replicate 1300 0;
}

-- The fields of PeerConfiguration that the connection looks at.
pub record PeerConfiguration : Type 0 where
  pub audio_codec : MediaCodec
  pub video_codec : MediaCodec
  pub datachannel : DataChannelType
  pub on_request_keyframe : Bool

-- peer_connection_create: `agent` is what agent_create makes. An init function that is not called for
-- CODEC_NONE is one that leaves all as it is.
unfoldable pub peer_connection_create : PeerConfiguration → Agent → Statics → PeerConnection
peer_connection_create config agent statics = record {
  state = peer_closed;
  onstate = false;
  on_request_keyframe = config.on_request_keyframe;
  datachannel = config.datachannel;
  agent = agent;
  sctp = zero_sctp;
  artp_encoder = rtp_encoder_init zero_encoder config.audio_codec;
  vrtp_encoder = rtp_encoder_init zero_encoder config.video_codec;
  artp_decoder = rtp_decoder_init DecodeFunc.unset config.audio_codec;
  vrtp_decoder = rtp_decoder_init DecodeFunc.unset config.video_codec;
  statics = statics;
  remote_assrc = 0;
  remote_vssrc = 0;
  consent_request_time = 0;
}

-- peer_connection_oniceconnectionstatechange
unfoldable pub peer_connection_oniceconnectionstatechange : PeerConnection → Bool → PeerConnection
peer_connection_oniceconnectionstatechange pc is_set = record pc { onstate = is_set }

-- peer_connection_ondatachannel
unfoldable pub peer_connection_ondatachannel : PeerConnection → Bool → Bool → Bool → PeerConnection
peer_connection_ondatachannel pc onmessage onopen onclose = record pc {
  sctp = record pc.sctp { onmessage = onmessage; onopen = onopen; onclose = onclose };
}
