-- ===== src/Sctp/Channels.antt =====
-- How the table of data channels (src/sctp.c) answers peer_connection_lookup_sid (src/peer_connection.c).
use libpeer.Base.{
  ℕ, zero, suc, ◌+◌, ◌-◌, ◌^◌, ◌<◌, ◌≤◌, ◌≡◌, refl, sym, ap, ltb, leb, ◌==◌, true, false, List, [],
  ◌∷◌, ◌++◌, Option, none, some, length, length-append, drop, get_or, arith, append_assoc,
  drop-append_exact,
}
use libpeer.Base.Word.{be16, be32, read16-be16}
use libpeer.Base.Memory.{load, load-append, load-middle}
use libpeer.Sctp.State.{Sctp, data_chunk, ppid_control, data_channel_open, data_channel_ack}
use libpeer.Sctp.Receive.{word16, word32}
use libpeer.Sctp.Streams.{
  max_streams, sctp_add_stream_mapping, Opened, sctp_parse_data_channel_open,
  sctp_handle_sctp_packet, peer_connection_lookup_sid, open_message,
}
use libpeer.Sctp.Labels.{IsLabel, sctp_add_stream_mapping-lookup}

parse_by :
    (sctp mapped : Sctp) (sid n size : ℕ) (bytes head label : List ℕ)
    → ltb n 12 ≡ false
    → load bytes 0 12 ≡ some head
    → (get_or head 0 0 == data_channel_open) ≡ true
    → word16 head 8 ≡ size
    → ltb n (12 + size + word16 head 10) ≡ false
    → load bytes 12 size ≡ some label
    → sctp_add_stream_mapping sctp (label ++ (0 ∷ [])) sid ≡ some mapped
    → sctp_parse_data_channel_open sctp sid bytes n
      ≡ some (record {
        sctp = mapped;
        ack = some (record { bytes = data_channel_ack ∷ []; ppid = ppid_control; sid = sid });
      })
unfolding sctp_parse_data_channel_open
parse_by sctp mapped sid n size bytes head label e1 e2 e3 e4 e5 e6 e7 =
    rw (e1, e2, e3, e4, e5, e6, e7) refl

parse_message :
    (sctp mapped : Sctp) (sid priority reliability : ℕ) (label protocol pad : List ℕ) (n : ℕ)
    → length label < 2 ^ 16
    → length protocol < 2 ^ 16
    → 12 + length label + length protocol ≤ n
    → sctp_add_stream_mapping sctp (label ++ (0 ∷ [])) sid ≡ some mapped
    → sctp_parse_data_channel_open sctp sid
        (open_message priority reliability label protocol ++ pad)
        n
      ≡ some (record {
        sctp = mapped;
        ack = some (record { bytes = data_channel_ack ∷ []; ppid = ppid_control; sid = sid });
      })
unfolding open_message word16
parse_message sctp mapped sid priority reliability label protocol pad n small small' whole e =
    let head =
      data_channel_open
      ∷ 0
      ∷ (be16 priority ++ (be32 reliability ++ (be16 (length label) ++ be16 (length protocol)))) in
    let bytes = head ++ (label ++ (protocol ++ pad)) in
    let labels = read16-be16 (length label) small in
    let protocols = read16-be16 (length protocol) small' in
    rw (append_assoc label protocol pad) (
      parse_by sctp mapped sid n (length label) bytes head label (ground arith)
        (load-append head (label ++ (protocol ++ pad)) 12 refl) refl labels
        (enough n (length label) (length protocol) (word16 head 10) protocols whole)
        (load-middle head label (protocol ++ pad) 12 (length label) refl refl) e)
  where
    enough : (n l p p' : ℕ) → p' ≡ p → 12 + l + p ≤ n → ltb n (12 + l + p') ≡ false
    enough n l p p' same h = ground arith

handle_by :
    (sctp : Sctp) (buf head rest : List ℕ) (len sid : ℕ) (result : Option Opened)
    → leb len 29 ≡ false
    → load buf 0 28 ≡ some head
    → (get_or head 12 0 == 0) ≡ true
    → (word32 head 24 == ppid_control) ≡ true
    → word16 head 20 ≡ sid
    → drop 28 buf ≡ rest
    → sctp_parse_data_channel_open sctp sid rest (len - 28) ≡ result
    → sctp_handle_sctp_packet sctp buf len ≡ result
unfolding sctp_handle_sctp_packet
handle_by sctp buf head rest len sid result e1 e2 e3 e4 e5 e6 e7 =
    rw (e1, e2, e3, e4, e5, e6, e7) refl

get_or-append :
    (xs ys : List ℕ) (n i : ℕ) → n ≡ length xs + i → get_or (xs ++ ys) n 0 ≡ get_or ys i 0
get_or-append [] ys n i e = ap (λ k. get_or ys k 0) (omega arith)
get_or-append (x ∷ xs) ys zero i e = absurd (omega arith)
get_or-append (x ∷ xs) ys (suc n) i e = get_or-append xs ys n i (omega arith)

get_behind :
    (header ys : List ℕ) (n i : ℕ)
    → length header ≡ 12
    → n ≡ 12 + i
    → get_or (header ++ ys) n 0 ≡ get_or ys i 0
get_behind header ys n i e h = get_or-append header ys n i (omega arith)

-- The channel is entered under its stream, which the answer goes to.
abbrev pub Enters : Sctp → List ℕ → List ℕ → ℕ → Type 0
Enters sctp packet label sid =
    (opened : Opened) × (sctp_handle_sctp_packet sctp packet (length packet) ≡ some opened)
    × (peer_connection_lookup_sid opened.sctp label ≡ some sid)
    × (opened.ack ≡ some (record { bytes = data_channel_ack ∷ []; ppid = ppid_control; sid = sid }))

-- A packet, behind any 12 bytes of header, with the DATA chunk that carries the DATA_CHANNEL_OPEN message of
-- peer_connection_create_datachannel_sid, whatever follows. Where the table has room, and no channel of
-- that name, sctp_handle_sctp_packet enters the channel: peer_connection_lookup_sid finds under the name the
-- stream of the chunk, and the acknowledgement goes to that stream. The name has no zero in it.
pub sctp_handle_sctp_packet-lookup :
    (sctp : Sctp) (header : List ℕ) (iube size tsn sid sqn : ℕ) (priority reliability : ℕ)
    (label protocol pad : List ℕ)
    → length header ≡ 12
    → sid < 2 ^ 16
    → length label < 2 ^ 16
    → length protocol < 2 ^ 16
    → IsLabel label
    → sctp.stream_count < max_streams
    → length sctp.stream_table ≡ max_streams
    → peer_connection_lookup_sid sctp label ≡ none
    → let packet =
        header
        ++ (data_chunk iube size tsn sid sqn ppid_control
            ++ (open_message priority reliability label protocol ++ pad)) in
      Enters sctp packet label sid
sctp_handle_sctp_packet-lookup sctp header iube size tsn sid sqn priority reliability label protocol
      pad e small lsmall psmall v room full free =
    let chunk = data_chunk iube size tsn sid sqn ppid_control in
    let body = open_message priority reliability label protocol ++ pad in
    let packet = header ++ (chunk ++ body) in
    let sixteen : length chunk ≡ 16 = unfold data_chunk in refl in
    let front : length (header ++ chunk) ≡ 28 = omega (arith, length-append header chunk) in
    let split : packet ≡ (header ++ chunk) ++ body = sym (append_assoc header chunk body) in
    let long : 12 + length label + length protocol ≤ length body =
      unfold open_message in
      omega (arith, length-append (label ++ protocol) pad, length-append label protocol) in
    let total : length packet ≡ 28 + length body =
      rw split (omega (arith, length-append (header ++ chunk) body)) in
    let (mapped, added, found) = sctp_add_stream_mapping-lookup sctp label sid v room full free in
    (
      record {
        sctp = mapped;
        ack = some (record { bytes = data_channel_ack ∷ []; ppid = ppid_control; sid = sid });
      },
      handle_by sctp packet (header ++ chunk) body (length packet) sid _ (ground arith)
          (rw split (load-append (header ++ chunk) body 28 (sym front)))
          (unfold data_chunk in rw (get_behind header chunk 12 0 e refl) refl)
          (unfold word32 data_chunk in
            rw
              (
                get_behind header chunk 24 12 e refl,
                get_behind header chunk 25 13 e refl,
                get_behind header chunk 26 14 e refl,
                get_behind header chunk 27 15 e refl,
              )
              refl)
          (unfold word16 data_chunk in
            rw (get_behind header chunk 20 8 e refl, get_behind header chunk 21 9 e refl)
              (read16-be16 sid small))
          (rw split (drop-append_exact 28 (header ++ chunk) body (sym front)))
          (parse_message sctp mapped sid priority reliability label protocol pad
            (length packet - 28) lsmall psmall (omega arith) added),
      found,
      refl,
    )
