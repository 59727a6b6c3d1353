-- ===== src/Peer/AudioPath.antt =====
-- The whole way of an audio frame between two peer connections (src/peer_connection.c).
use libpeer.Base.{ℕ, ◌-◌, ◌≤◌, ◌≡◌, true, some, List, [], ◌∷◌, ◌++◌, length, take, replicate}
use libpeer.Address.{Address}
use libpeer.Agent.Receive.{recv_datagram}
use libpeer.Rtp.Encoder.{RtpEncoder, ok}
use libpeer.Rtp.Audio.{IsEncoder}
use libpeer.Peer.State.{PeerConnection, rtp, audio, Dtls, Inputs, agent_buf_size}
use libpeer.Peer.Loop.{peer_connection_send_audio, peer_connection_loop}
use libpeer.Peer.Media.{next_front}

-- What SRTP does with a packet between the two ends: the first 12 bytes stay, what goes over the wire fits
-- the receiver's buffer, and the receiver decrypts it, in its cleared buffer, to the packet.
pub record IsSecured (dtls : Dtls) (packet wire : List ℕ) : Type 0 where
  pub front : take 12 wire ≡ take 12 packet
  pub fits : length wire ≤ agent_buf_size
  pub mem : List ℕ
  pub opens :
      dtls.decrypt_rtp (wire ++ replicate (agent_buf_size - length wire) 0) (length wire)
      ≡ (true, packet ++ mem, length packet)

module _ (dtls : Dtls) (md5 : List ℕ → List ℕ) (hmac_sha1 : List ℕ → List ℕ → List ℕ)
    (inputs : Inputs) (encoder : RtpEncoder) (rx : PeerConnection) (frame wire : List ℕ)
    (addr : Address) (v : IsEncoder encoder) (small : length frame ≤ 1416)
    (s : IsSecured dtls (next_front encoder ++ frame) wire)
    (arrived : inputs.received ≡ recv_datagram addr wire) where
  abbrev pub heard : PeerConnection
  heard = record rx { agent = record rx.agent { binding_request_time = inputs.arrived_at } }

-- The frame goes out in a packet, for which `wire` stands, and the loop of the receiver gives out just it.
abbrev pub Hears :
    Dtls
    → (List ℕ → List ℕ)
    → (List ℕ → List ℕ → List ℕ)
    → Inputs
    → PeerConnection
    → PeerConnection
    → List ℕ
    → List ℕ
    → Type 0
Hears dtls md5 hmac_sha1 inputs tx rx frame wire =
    (tx' : PeerConnection) × (packet : List ℕ) × (peer_connection_send_audio tx frame
      ≡ some (tx', rtp packet ∷ [], ok))
    × (IsSecured dtls packet wire)
    × (peer_connection_loop dtls md5 hmac_sha1 inputs rx
        ≡ some (
          record rx { agent = record rx.agent { binding_request_time = inputs.arrived_at } },
          audio frame ∷ [],
        ))
