-- ===== src/Sctp/Tests.antt =====
-- Two ends of an association to try src/sctp.c on.
use libpeer.Base.{
  ℕ, ◌<◌, ◌≡◌, ◌≢◌, refl, true, false, none, List, [], ◌∷◌, ◌++◌, replicate, arith,
  length-replicate, ◌⊎◌,
}
use libpeer.Base.Word.{be32}
use libpeer.Base.Memory.{load}
use libpeer.Sctp.State.{Sctp, SctpStreamEntry, checksummed, data_chunk, ppid_control}
use libpeer.Sctp.Receive.{sctp_incoming_data}
use libpeer.Sctp.Streams.{
  peer_connection_datachannel_send_sid, open_message, lookup_sid, peer_connection_lookup_sid,
}
use libpeer.Sctp.Wire.{front}
use libpeer.Sctp.Transfer.{Arrives, datachannel_send-Arrives}
use libpeer.Sctp.Handshake.{Associates, sctp_association}
use libpeer.Sctp.Rounds.{Zeroed, Ends, sctp_incoming_data-Ends}
use libpeer.Sctp.Endless.{GoesOn, sctp_incoming_data_endless}
use libpeer.Sctp.Channels.{Enters, sctp_handle_sctp_packet-lookup}

abbrev no_entry : SctpStreamEntry
no_entry = record { label = replicate 32 0; sid = 0 }

abbrev pub idle_end : Sctp
idle_end = record {
  local_port = 5000;
  remote_port = 5000;
  connected = false;
  verification_tag = replicate 4 0;
  tsn = 1234;
  sqn = 0;
  stream_count = 0;
  stream_table = replicate 5 no_entry;
  onmessage = true;
  onopen = true;
  onclose = true;
  buf = replicate 1300 0;
}

abbrev open_end : Sctp
open_end = record idle_end { connected = true; verification_tag = be32 0x12345678 }

-- More than one packet holds.
abbrev long_message : List ℕ
long_message = replicate 3000 65

datachannel_send-Arrives_example :
    Arrives 0 open_end
      (peer_connection_datachannel_send_sid open_end true long_message 3)
      long_message
datachannel_send-Arrives_example =
    datachannel_send-Arrives 0 open_end open_end true long_message 3 refl refl refl
      (length-replicate {A = ℕ} 1300 0) refl

sctp_association_example : Associates 0 idle_end idle_end
unfolding load
sctp_association_example =
    sctp_association 0 idle_end idle_end refl refl refl refl (length-replicate {A = ℕ} 1300 0) refl

-- A chunk of an unknown type and of the length zero.
abbrev strange_chunk : List ℕ
strange_chunk = 192 ∷ 0 ∷ 0 ∷ 0 ∷ 9 ∷ []

abbrev strange_packet : List ℕ
strange_packet = checksummed (front open_end ++ (be32 0 ++ strange_chunk))

sctp_incoming_data-Ends_example :
    (sctp_incoming_data 17 open_end strange_packet 17 ≡ none)
    ⊎ ((zeroed : List ℕ) × (Zeroed strange_packet zeroed)
        × Ends zeroed 17 (sctp_incoming_data 17 open_end strange_packet 17))
sctp_incoming_data-Ends_example = sctp_incoming_data-Ends open_end strange_packet 17

sctp_incoming_data_endless_example : GoesOn 1000 open_end strange_packet 17
sctp_incoming_data_endless_example =
    sctp_incoming_data_endless 1000 open_end (front open_end) 192 0 (9 ∷ []) refl refl (omega arith)

-- A channel of the name "hid", on the stream 7.
abbrev opening_packet : List ℕ
opening_packet =
    replicate 12 0
    ++ (data_chunk 3 31 1 7 0 ppid_control
        ++ (open_message 0 0 (104 ∷ 105 ∷ 100 ∷ []) [] ++ (0 ∷ [])))

sctp_handle_sctp_packet-lookup_example : Enters idle_end opening_packet (104 ∷ 105 ∷ 100 ∷ []) 7
unfolding peer_connection_lookup_sid lookup_sid
sctp_handle_sctp_packet-lookup_example =
    sctp_handle_sctp_packet-lookup idle_end (replicate 12 0) 3 31 1 7 0 0 0 (104 ∷ 105 ∷ 100 ∷ [])
      [] (0 ∷ []) refl (omega arith) (omega arith) (omega arith)
      (ne 104 (omega arith), (ne 105 (omega arith), (ne 100 (omega arith), tt))) (omega arith) refl
      refl
  where
    ne : (b : ℕ) → 0 < b → b ≢ 0
    ne b h e = omega arith
