-- ===== src/Peer/Calls.antt =====
-- The calls on a connection (src/peer_connection.c), and what each tells oniceconnectionstatechange.
use libpeer.Base.{
  ℕ, Bool, ◌≡◌, refl, ◌==◌, ◌&&◌, not, some, List, [], ◌∷◌, ◌++◌, map, ◌⊎◌, inl, inr,
}
use libpeer.Base.Holds.{Holds, Holds-some, if-Holds, bind-Holds}
use libpeer.Agent.State.{Agent}
use libpeer.Agent.Pairs.{agent_update_candidate_pairs}
use libpeer.Rtp.Encoder.{Encoded, Status, error, rtp_encoder_set_timestamp}
use libpeer.Rtp.Dispatch.{Statics, rtp_encoder_encode}
use libpeer.Sctp.Send.{SctpSent}
use libpeer.Sctp.Streams.{
  peer_connection_create_datachannel_sid, peer_connection_datachannel_send_sid,
}
use libpeer.Peer.Create.{
  PeerConfiguration, peer_connection_create, peer_connection_oniceconnectionstatechange,
  peer_connection_ondatachannel,
}
use libpeer.Peer.State.{
  peer_checking, PeerConnection, PeerEvent, rtp, notified, channel, Dtls, Inputs, state_number,
  state_changed,
}
use libpeer.Peer.Loop.{
  peer_connection_close, peer_connection_send_audio, peer_connection_send_video,
  peer_connection_send_video_ts, is_completed, begin_checking, peer_connection_loop,
}
use libpeer.Peer.History.{notices, notices-nil, IsQuiet}
use libpeer.Peer.Transitions.{if-pair, notices-notified}

module _ (md5 : List ℕ → List ℕ) (hmac_sha1 : List ℕ → List ℕ → List ℕ) where
  -- What calls in any order make of a connection since peer_connection_create, and what it has given out.
  -- set_remote_description and create_answer end with `checked`; what else the calls for descriptions and
  -- candidates do, and peer_connection_send_rtcp_pil, is `elsewhere`: they may change all but the state.
  pub data Run : PeerConnection → List PeerEvent → Type 0 where
    created :
        (config : PeerConfiguration) (agent : Agent) (statics : Statics)
        → Run (peer_connection_create config agent statics) []
    watched :
        {pc : PeerConnection} {es : List PeerEvent} (is_set : Bool)
        → Run pc es
        → Run (peer_connection_oniceconnectionstatechange pc is_set) es
    channel_watched :
        {pc : PeerConnection} {es : List PeerEvent} (onmessage onopen onclose : Bool)
        → Run pc es
        → Run (peer_connection_ondatachannel pc onmessage onopen onclose) es
    elsewhere :
        {pc : PeerConnection} {es : List PeerEvent} (pc' : PeerConnection)
        → Run pc es
        → pc'.state ≡ pc.state
        → Run pc' es
    channel_created :
        {pc : PeerConnection} {es : List PeerEvent} {sent : SctpSent}
        (priority reliability_parameter : ℕ) (label protocol : List ℕ) (sid : ℕ)
        → Run pc es
        → peer_connection_create_datachannel_sid pc.sctp priority reliability_parameter label
            protocol sid
          ≡ some sent
        → Run (record pc { sctp = sent.sctp }) (es ++ map channel sent.events)
    channel_sent :
        {pc : PeerConnection} {es : List PeerEvent} {sent : SctpSent} (strings : Bool)
        (bytes : List ℕ) (sid : ℕ)
        → Run pc es
        → peer_connection_datachannel_send_sid pc.sctp strings bytes sid ≡ some sent
        → Run (record pc { sctp = sent.sctp }) (es ++ map channel sent.events)
    looped :
        {pc pc' : PeerConnection} {es es' : List PeerEvent} (dtls : Dtls) (inputs : Inputs)
        → Run pc es
        → peer_connection_loop dtls md5 hmac_sha1 inputs pc ≡ some (pc', es')
        → Run pc' (es ++ es')
    checked :
        {pc pc' : PeerConnection} {es es' : List PeerEvent}
        → Run pc es
        → begin_checking pc ≡ some (pc', es')
        → Run pc' (es ++ es')
    closed :
        {pc : PeerConnection} {es : List PeerEvent} → Run pc es → Run (peer_connection_close pc) es
    sent_audio :
        {pc pc' : PeerConnection} {es es' : List PeerEvent} {status : Status} (buf : List ℕ)
        → Run pc es
        → peer_connection_send_audio pc buf ≡ some (pc', es', status)
        → Run pc' (es ++ es')
    sent_video :
        {pc pc' : PeerConnection} {es es' : List PeerEvent} {status : Status} (buf : List ℕ)
        → Run pc es
        → peer_connection_send_video pc buf ≡ some (pc', es', status)
        → Run pc' (es ++ es')
    sent_video_ts :
        {pc pc' : PeerConnection} {es es' : List PeerEvent} {status : Status} (buf : List ℕ)
        (timestamp : ℕ)
        → Run pc es
        → peer_connection_send_video_ts pc buf timestamp ≡ some (pc', es', status)
        → Run pc' (es ++ es')

-- A call of begin_checking leaves the state and is silent, or tells CHECKING.
pub begin_checking-cases :
    (pc : PeerConnection)
    → Holds
        (λ (result : PeerConnection × List PeerEvent).
          IsQuiet pc result
          ⊎ ((result.0.state ≡ peer_checking) × (notices result.1 ≡ peer_checking ∷ [])))
        (begin_checking pc)
unfolding begin_checking state_changed
begin_checking-cases pc =
    let P = λ (result : PeerConnection × List PeerEvent).
      IsQuiet pc result
      ⊎ ((result.0.state ≡ peer_checking) × (notices result.1 ≡ peer_checking ∷ [])) in
    bind-Holds P (agent_update_candidate_pairs pc.agent) _ (λ agent'.
      let pc' = record pc { agent = agent' } in
      Holds-some P _ (
        if-pair P (pc.onstate && not (state_number pc.state == state_number peer_checking))
          (record pc' { state = peer_checking }, notified peer_checking ∷ []) (pc', [])
          (inr (refl, notices-notified peer_checking)) (inl (refl, notices-nil))))

notices-rtp : (packets : List (List ℕ)) → notices (map rtp packets) ≡ []
unfolding notices
notices-rtp [] = refl
notices-rtp (p ∷ packets) = notices-rtp packets

-- Sending leaves the state and tells nothing.
abbrev pub SendsQuietly : PeerConnection → PeerConnection × (List PeerEvent) × Status → Type 0
SendsQuietly pc result = (result.0.state ≡ pc.state) × (notices result.1 ≡ [])

pub send_audio-SendsQuietly :
    (pc : PeerConnection) (buf : List ℕ)
    → Holds (SendsQuietly pc) (peer_connection_send_audio pc buf)
unfolding peer_connection_send_audio
send_audio-SendsQuietly pc buf =
    let P = SendsQuietly pc in
    if-Holds P (not (is_completed pc.state)) _ _ (Holds-some P (pc, [], error) (refl, notices-nil))
      (bind-Holds P (rtp_encoder_encode pc.artp_encoder buf) _
        (λ (encoded : Status × Encoded). Holds-some P _ (refl, notices-rtp encoded.1.packets)))

pub send_video-SendsQuietly :
    (pc : PeerConnection) (buf : List ℕ)
    → Holds (SendsQuietly pc) (peer_connection_send_video pc buf)
unfolding peer_connection_send_video
send_video-SendsQuietly pc buf =
    let P = SendsQuietly pc in
    if-Holds P (not (is_completed pc.state)) _ _ (Holds-some P (pc, [], error) (refl, notices-nil))
      (bind-Holds P (rtp_encoder_encode pc.vrtp_encoder buf) _
        (λ (encoded : Status × Encoded). Holds-some P _ (refl, notices-rtp encoded.1.packets)))

pub send_video_ts-SendsQuietly :
    (pc : PeerConnection) (buf : List ℕ) (timestamp : ℕ)
    → Holds (SendsQuietly pc) (peer_connection_send_video_ts pc buf timestamp)
unfolding peer_connection_send_video_ts
send_video_ts-SendsQuietly pc buf timestamp =
    let P = SendsQuietly pc in
    if-Holds P (not (is_completed pc.state)) _ _ (Holds-some P (pc, [], error) (refl, notices-nil))
      (bind-Holds P (rtp_encoder_encode (rtp_encoder_set_timestamp pc.vrtp_encoder timestamp) buf) _
        (λ (encoded : Status × Encoded). Holds-some P _ (refl, notices-rtp encoded.1.packets)))
