-- ===== src/Sctp/Transfer.antt =====
-- A message from peer_connection_datachannel_send_sid through sctp_outgoing_data and sctp_incoming_data.
use libpeer.Base.{
  ℕ, zero, suc, ◌+◌, ◌-◌, ◌<◌, ◌≡◌, refl, ap, ◌∙◌, ltb, not, Bool, true, false, if◌then◌else◌, List,
  [], ◌∷◌, ◌++◌, Option, none, some, length, length-take, length-drop, take, drop, take-append-drop,
  arith, append-nil, All, inl, inr, Bool-cases, ltb→lt, ltb_false→le,
}
use libpeer.Base.Word.{u16, u32}
use libpeer.Sctp.State.{Sctp, SctpEvent, payload_max, ppid_domstring, ppid_binary}
use libpeer.Sctp.Send.{SctpSent, padding_len, send_loop, sctp_outgoing_data}
use libpeer.Sctp.Streams.{peer_connection_datachannel_send_sid}
use libpeer.Sctp.Data.{IsText, after_data}
use libpeer.Sctp.Fragments.{
  receive_all, content, IsWhole, length-data_packet, data_packet_received, send_fragment_fits,
  send_loop_more, send_loop_last, receive_all_packet, padding_fits,
}

-- What the call sends arrives: packets within SCTP_MTU, from which the receiver gets the bytes on stream 0.
abbrev pub Arrives : ℕ → Sctp → Option SctpSent → List ℕ → Type 0
Arrives rounds rx result bytes =
    (sent : SctpSent) × (end : Sctp × List SctpEvent) × (result ≡ some sent)
    × (receive_all (suc (suc rounds)) rx sent.events ≡ some end)
    × (content 0 end.1 ≡ bytes)
    × All IsWhole sent.events

send_loop-Arrives :
    (rounds fuel : ℕ) (tx rx : Sctp) (iube sqn ppid : ℕ) (bytes : List ℕ)
    → length tx.verification_tag ≡ 4
    → length rx.verification_tag ≡ 4
    → length tx.buf ≡ 1300
    → rx.onmessage ≡ true
    → IsText ppid
    → length bytes < fuel
    → Arrives rounds rx (send_loop fuel tx iube sqn ppid bytes) bytes
unfolding content IsWhole
send_loop-Arrives rounds zero tx rx iube sqn ppid bytes ttag rtag room on text h =
    absurd (omega arith)
send_loop-Arrives rounds (suc fuel) tx rx iube sqn ppid [] ttag rtag room on text h = (
  record { sctp = tx; events = []; rest = 0 },
  (rx, []),
  unfold send_loop in refl,
  unfold receive_all in refl,
  refl,
  tt,
)
send_loop-Arrives rounds (suc fuel) tx rx iube sqn ppid (b ∷ bs) ttag rtag room on text h =
    let bytes = b ∷ bs in
    elim (Bool-cases (ltb payload_max (length bytes))) [
      | inl more ↦
          let long : payload_max < length bytes = ltb→lt payload_max (length bytes) more in
          let start = take payload_max bytes in
          let whole : length start ≡ payload_max = omega (arith, length-take payload_max bytes) in
          let (buf', size, sent) =
            send_fragment_fits tx iube sqn ppid start 0 0 ttag room (omega arith) in
          let (pos, arrived) =
            data_packet_received rounds tx rx iube sqn ppid start 0 ttag rtag on text
              (omega arith) in
          let (others, end, e1, e2, e3, e4) =
            send_loop-Arrives rounds fuel (record tx { buf = buf'; tsn = u32 (tx.tsn + 1) })
              (after_data rx tx.tsn) 4 sqn ppid (drop payload_max bytes) ttag rtag size on text
              (omega (arith, length-drop payload_max bytes)) in
          (
            _,
            _,
            send_loop_more fuel tx iube sqn ppid bytes _ others more sent e1,
            receive_all_packet (suc (suc rounds)) rx (after_data rx tx.tsn) _ pos 28 _ others.events
                end arrived e2,
            ap (λ rest. start ++ rest) e3 ∙ take-append-drop payload_max bytes,
            (
              (
                omega (arith, length-data_packet tx iube sqn ppid start 0 ttag),
                omega (arith, length-data_packet tx iube sqn ppid start 0 ttag),
              ),
              e4,
            ),
          )
      | inr short ↦
          let n = padding_len (length bytes) in
          let (fits, four) =
            padding_fits (length bytes) (ltb_false→le payload_max (length bytes) short) in
          let (buf', size, sent) =
            send_fragment_fits tx (iube + 1) sqn ppid bytes n (payload_max - (length bytes + n))
              ttag room (omega arith) in
          let (pos, arrived) =
            data_packet_received rounds tx rx (iube + 1) sqn ppid bytes n ttag rtag on text
              (omega arith) in
          let size = length-data_packet tx (iube + 1) sqn ppid bytes n ttag in
          (
            _,
            _,
            send_loop_last fuel tx iube sqn ppid bytes _ short (ground arith) sent,
            receive_all_packet (suc (suc rounds)) rx (after_data rx tx.tsn) _ pos 28 _ []
                (after_data rx tx.tsn, []) arrived (unfold receive_all in refl),
            append-nil bytes,
            ((omega (arith, size), omega (arith, size, four)), tt),
          )
    ]

abbrev text_ppid : Bool → ℕ
text_ppid true = ppid_domstring
text_ppid false = ppid_binary

text_ppid-IsText : (strings : Bool) → IsText (text_ppid strings)
text_ppid-IsText true = inl refl
text_ppid-IsText false = inr refl

passes :
    (b : Bool) (result : Option SctpSent) → b ≡ true → (if not b then none else result) ≡ result
passes b result e = rw e refl

send_connected :
    (tx : Sctp) (strings : Bool) (bytes : List ℕ) (sid : ℕ)
    → tx.connected ≡ true
    → peer_connection_datachannel_send_sid tx strings bytes sid
      ≡ sctp_outgoing_data tx bytes (text_ppid strings) sid
unfolding peer_connection_datachannel_send_sid
send_connected tx true bytes sid up = passes tx.connected _ up
send_connected tx false bytes sid up = passes tx.connected _ up

-- A message of any length, sent on a connected association whose buffer has 1300 bytes, fits packets of at
-- most SCTP_MTU bytes and of full words; a receiver with a callback takes each of them, and is given, on
-- stream 0 whatever the stream named, the bytes of the message in order. Two rounds of its loop are enough.
pub datachannel_send-Arrives :
    (rounds : ℕ) (tx rx : Sctp) (strings : Bool) (bytes : List ℕ) (sid : ℕ)
    → tx.connected ≡ true
    → length tx.verification_tag ≡ 4
    → length rx.verification_tag ≡ 4
    → length tx.buf ≡ 1300
    → rx.onmessage ≡ true
    → Arrives rounds rx (peer_connection_datachannel_send_sid tx strings bytes sid) bytes
datachannel_send-Arrives rounds tx rx strings bytes sid up ttag rtag size on =
    rw (send_connected tx strings bytes sid up) (
      unfold sctp_outgoing_data in
      send_loop-Arrives rounds (suc (length bytes)) (record tx { sqn = u16 (tx.sqn + 1) }) rx 6
        tx.sqn (text_ppid strings) bytes ttag rtag size on (text_ppid-IsText strings) (omega arith))
