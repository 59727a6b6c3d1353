-- ===== src/Peer/Runs.antt =====
-- The calls on a connection one after another (src/peer_connection.c).
use libpeer.Base.{
  ℕ, Bool, ◌≡◌, refl, ap, ◌∙◌, List, [], ◌∷◌, ◌++◌, map, append_assoc, append-nil, ◌⊎◌, inl, inr,
}
use libpeer.Base.Holds.{from_Holds}
use libpeer.Peer.Create.{
  peer_connection_create, peer_connection_oniceconnectionstatechange, peer_connection_ondatachannel,
}
use libpeer.Peer.State.{
  PeerConnectionState, peer_closed, peer_new, peer_checking, peer_connected, peer_completed,
  peer_failed, peer_disconnected, PeerConnection, PeerEvent, rtp, notified, datagram, channel,
  keyframe, audio, video,
}
use libpeer.Peer.Loop.{peer_connection_close}
use libpeer.Peer.Calls.{
  Run, created, watched, channel_watched, elsewhere, channel_created, channel_sent, looped, checked,
  closed, sent_audio, sent_video, sent_video_ts, begin_checking-cases, SendsQuietly,
  send_audio-SendsQuietly, send_video-SendsQuietly, send_video_ts-SendsQuietly,
}
use libpeer.Peer.History.{notices, notices-channel, IsQuiet}
use libpeer.Peer.Transitions.{
  Changes, fails, connects, completes, expires, IsRound, peer_connection_loop-IsRound,
}

-- The last that was told.
abbrev pub EndsWith : List PeerConnectionState → List PeerConnectionState → Type 0
EndsWith told last = (before : List PeerConnectionState) × (told ≡ before ++ last)

-- What the callback was told last in a state that is on the way.
unfoldable pub Told : PeerConnectionState → List PeerConnectionState → Type 0
Told peer_checking told = EndsWith told (peer_checking ∷ [])
Told peer_connected told = EndsWith told (peer_checking ∷ peer_connected ∷ [])
Told peer_completed told = EndsWith told (peer_checking ∷ peer_connected ∷ peer_completed ∷ [])
Told peer_closed told = Unit
Told peer_new told = Unit
Told peer_failed told = Unit
Told peer_disconnected told = Unit

one_more :
    (told last : List PeerConnectionState) (s : PeerConnectionState)
    → EndsWith told last
    → EndsWith (told ++ (s ∷ [])) (last ++ (s ∷ []))
one_more told last s (before, e) =
    (before, ap (λ xs. xs ++ (s ∷ [])) e ∙ append_assoc before last (s ∷ []))

change-Told :
    (s s' : PeerConnectionState) (told : List PeerConnectionState)
    → Changes s s'
    → Told s told
    → Told s' (told ++ (s' ∷ []))
unfolding Told
change-Told s s' told fails h = tt
change-Told s s' told connects h = one_more told (peer_checking ∷ []) peer_connected h
change-Told s s' told completes h =
    one_more told (peer_checking ∷ peer_connected ∷ []) peer_completed h
change-Told s s' told expires h = tt

notices_both : (xs ys : List PeerEvent) → notices (xs ++ ys) ≡ notices xs ++ notices ys
unfolding notices
notices_both [] ys = refl
notices_both (notified s ∷ xs) ys = ap (λ told. s ∷ told) (notices_both xs ys)
notices_both (datagram sent ∷ xs) ys = notices_both xs ys
notices_both (rtp packet ∷ xs) ys = notices_both xs ys
notices_both (channel event ∷ xs) ys = notices_both xs ys
notices_both (keyframe ∷ xs) ys = notices_both xs ys
notices_both (audio frame ∷ xs) ys = notices_both xs ys
notices_both (video frame ∷ xs) ys = notices_both xs ys

quiet-Told :
    (pc pc' : PeerConnection) (es es' : List PeerEvent)
    → (pc'.state ≡ pc.state) × (notices es' ≡ [])
    → Told pc.state (notices es)
    → Told pc'.state (notices (es ++ es'))
quiet-Told pc pc' es es' (same, quiet) h =
    rw (same, notices_both es es', quiet, append-nil (notices es)) h

round-Told :
    (pc pc' : PeerConnection) (es es' : List PeerEvent)
    → IsRound pc (pc', es')
    → Told pc.state (notices es)
    → Told pc'.state (notices (es ++ es'))
round-Told pc pc' es es' (inl quiet) h = quiet-Told pc pc' es es' quiet h
round-Told pc pc' es es' (inr (change, told)) h =
    rw (notices_both es es', told) (change-Told pc.state pc'.state (notices es) change h)

begin-Told :
    (pc pc' : PeerConnection) (es es' : List PeerEvent)
    → IsQuiet pc (pc', es') ⊎ ((pc'.state ≡ peer_checking) × (notices es' ≡ peer_checking ∷ []))
    → Told pc.state (notices es)
    → Told pc'.state (notices (es ++ es'))
begin-Told pc pc' es es' (inl quiet) h = quiet-Told pc pc' es es' quiet h
begin-Told pc pc' es es' (inr (now, told)) h =
    rw (now, notices_both es es', told) (unfold Told in (notices es, refl))

watched_state :
    (pc : PeerConnection) (is_set : Bool)
    → (peer_connection_oniceconnectionstatechange pc is_set).state ≡ pc.state
unfolding peer_connection_oniceconnectionstatechange
watched_state pc is_set = refl

channel_watched_state :
    (pc : PeerConnection) (onmessage onopen onclose : Bool)
    → (peer_connection_ondatachannel pc onmessage onopen onclose).state ≡ pc.state
unfolding peer_connection_ondatachannel
channel_watched_state pc onmessage onopen onclose = refl

run-Told :
    (md5 : List ℕ → List ℕ) (hmac_sha1 : List ℕ → List ℕ → List ℕ) (pc : PeerConnection)
    (es : List PeerEvent)
    → Run md5 hmac_sha1 pc es
    → Told pc.state (notices es)
run-Told md5 hmac_sha1 pc es (created config agent statics) =
    unfold peer_connection_create Told in tt
run-Told md5 hmac_sha1 pc es (watched {pc = old} is_set run) =
    rw (watched_state old is_set) (run-Told md5 hmac_sha1 old es run)
run-Told md5 hmac_sha1 pc es (channel_watched {pc = old} onmessage onopen onclose run) =
    rw (channel_watched_state old onmessage onopen onclose) (run-Told md5 hmac_sha1 old es run)
run-Told md5 hmac_sha1 pc es (elsewhere {pc = old} pc' run same) =
    rw same (run-Told md5 hmac_sha1 old es run)
run-Told md5 hmac_sha1 pc es
      (channel_created {pc = old} {es = es1} {sent = sent} _ _ label protocol sid run e) =
    quiet-Told old (record old { sctp = sent.sctp }) es1 (map channel sent.events)
      (refl, notices-channel sent.events) (run-Told md5 hmac_sha1 old es1 run)
run-Told md5 hmac_sha1 pc es
      (channel_sent {pc = old} {es = es1} {sent = sent} strings bytes sid run e) =
    quiet-Told old (record old { sctp = sent.sctp }) es1 (map channel sent.events)
      (refl, notices-channel sent.events) (run-Told md5 hmac_sha1 old es1 run)
run-Told md5 hmac_sha1 pc es (looped {pc = old} {es = es1} {es' = es2} dtls inputs run e) =
    round-Told old pc es1 es2
      (from_Holds (IsRound old) _ _ e (peer_connection_loop-IsRound dtls md5 hmac_sha1 inputs old))
      (run-Told md5 hmac_sha1 old es1 run)
run-Told md5 hmac_sha1 pc es (checked {pc = old} {es = es1} {es' = es2} run e) =
    begin-Told old pc es1 es2 (from_Holds _ _ _ e (begin_checking-cases old))
      (run-Told md5 hmac_sha1 old es1 run)
run-Told md5 hmac_sha1 pc es (closed run) = unfold peer_connection_close Told in tt
run-Told md5 hmac_sha1 pc es (sent_audio {pc = old} {es = es1} {es' = es2} buf run e) =
    quiet-Told old pc es1 es2
      (from_Holds (SendsQuietly old) _ _ e (send_audio-SendsQuietly old buf))
      (run-Told md5 hmac_sha1 old es1 run)
run-Told md5 hmac_sha1 pc es (sent_video {pc = old} {es = es1} {es' = es2} buf run e) =
    quiet-Told old pc es1 es2
      (from_Holds (SendsQuietly old) _ _ e (send_video-SendsQuietly old buf))
      (run-Told md5 hmac_sha1 old es1 run)
run-Told md5 hmac_sha1 pc es (sent_video_ts {pc = old} {es = es1} {es' = es2} buf timestamp run e) =
    quiet-Told old pc es1 es2
      (from_Holds (SendsQuietly old) _ _ e (send_video_ts-SendsQuietly old buf timestamp))
      (run-Told md5 hmac_sha1 old es1 run)

-- Take a connection that peer_connection_create has made, and any calls on it, in whatever order and with
-- whatever input: the two functions that set callbacks, peer_connection_loop, peer_connection_close, the three
-- that send audio and video, the creation of a data channel and the messages on one, and the end of
-- set_remote_description and create_answer, with between them whatever changes the connection except in its
-- state. Where it is in the state COMPLETED, the last three states that oniceconnectionstatechange was told
-- are CHECKING, CONNECTED and COMPLETED.
pub peer_connection_completed :
    (md5 : List ℕ → List ℕ) (hmac_sha1 : List ℕ → List ℕ → List ℕ) (pc : PeerConnection)
    (es : List PeerEvent)
    → Run md5 hmac_sha1 pc es
    → pc.state ≡ peer_completed
    → EndsWith (notices es) (peer_checking ∷ peer_connected ∷ peer_completed ∷ [])
unfolding Told
peer_connection_completed md5 hmac_sha1 pc es run now = rw now at (run-Told md5 hmac_sha1 pc es run)
