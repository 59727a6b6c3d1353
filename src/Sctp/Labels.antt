-- ===== src/Sctp/Labels.antt =====
-- The labels in the table of data channels (src/sctp.c, src/peer_connection.c).
use libpeer.Base.{
  ℕ, zero, suc, ◌+◌, ◌<◌, ◌≤◌, ◌≡◌, ◌≢◌, refl, ltb, true, false, List, [], ◌∷◌, ◌++◌, none, some,
  All, length, take, replicate, arith, eq→==, ne→==_false, lt→ltb, Bool-cases, inl, inr,
}
use libpeer.Sctp.State.{Sctp, SctpStreamEntry}
use libpeer.Sctp.Streams.{
  max_streams, until_zero, label_field, set_entry, sctp_add_stream_mapping, same_string, lookup_sid,
  peer_connection_lookup_sid,
}

abbrev pub IsLabel : List ℕ → Type 0
IsLabel label = All (λ b. b ≢ 0) label

until_zero-append : (label rest : List ℕ) → IsLabel label → until_zero (label ++ (0 ∷ rest)) ≡ label
unfolding until_zero
until_zero-append [] rest v = refl
until_zero-append (b ∷ label) rest (v, vs) =
    rw (ne→==_false b 0 v, until_zero-append label rest vs) refl

same_string-take :
    (n m : ℕ) (label : List ℕ)
    → n ≤ m
    → IsLabel label
    → same_string n (take n (label ++ replicate m 0)) label ≡ true
unfolding same_string
same_string-take zero m label h v = refl
same_string-take (suc n) zero [] h v = absurd (omega arith)
same_string-take (suc n) (suc m) [] h v = refl
same_string-take (suc n) m (x ∷ label) h (v, vs) =
    rw (eq→== x x refl, ne→==_false x 0 v) (same_string-take n m label (omega arith) vs)

label_field-same :
    (label : List ℕ) → IsLabel label → same_string 32 (label_field (label ++ (0 ∷ []))) label ≡ true
unfolding label_field
label_field-same label v =
    rw (until_zero-append label [] v) (same_string-take 32 32 label (omega arith) v)

lookup_further :
    (n : ℕ) (e : SctpStreamEntry) (entries : List SctpStreamEntry) (label : List ℕ) (sid : ℕ)
    → same_string 32 e.label label ≡ false
    → lookup_sid n entries label ≡ some sid
    → lookup_sid (suc n) (e ∷ entries) label ≡ some sid
unfolding lookup_sid
lookup_further n e entries label sid other later = rw (other, later) refl

lookup_here :
    (n : ℕ) (e : SctpStreamEntry) (entries : List SctpStreamEntry) (label : List ℕ)
    → same_string 32 e.label label ≡ true
    → lookup_sid (suc n) (e ∷ entries) label ≡ some e.sid
unfolding lookup_sid
lookup_here n e entries label same = rw same refl

lookup_none :
    (n : ℕ) (e : SctpStreamEntry) (entries : List SctpStreamEntry) (label : List ℕ)
    → lookup_sid (suc n) (e ∷ entries) label ≡ none
    → (same_string 32 e.label label ≡ false) × (lookup_sid n entries label ≡ none)
unfolding lookup_sid
lookup_none n e entries label h = elim (Bool-cases (same_string 32 e.label label)) [
  | inl found ↦ let wrong : some e.sid ≡ none = rw found at h in absurd (ground (arith, wrong))
  | inr other ↦ (other, rw other at h)
]

-- A label that is not in the table is found where it is put behind the entries in use.
set_entry-lookup :
    (n : ℕ) (entries : List SctpStreamEntry) (entry : SctpStreamEntry) (label : List ℕ)
    → n < length entries
    → lookup_sid n entries label ≡ none
    → same_string 32 entry.label label ≡ true
    → (entries' : List SctpStreamEntry) × (set_entry entries n entry ≡ some entries')
      × (lookup_sid (suc n) entries' label ≡ some entry.sid)
unfolding set_entry
set_entry-lookup n [] entry label h free same = absurd (omega arith)
set_entry-lookup zero (e ∷ entries) entry label h free same =
    (entry ∷ entries, refl, lookup_here zero entry entries label same)
set_entry-lookup (suc n) (e ∷ entries) entry label h free same =
    let (other, free') = lookup_none n e entries label free in
    let (entries', put, found) = set_entry-lookup n entries entry label (omega arith) free' same in
    (e ∷ entries', rw put refl, lookup_further (suc n) e entries' label entry.sid other found)

add_by :
    (sctp : Sctp) (label : List ℕ) (sid : ℕ) (table : List SctpStreamEntry)
    → sctp.stream_count < max_streams
    → set_entry sctp.stream_table sctp.stream_count
        (record { label = label_field label; sid = sid })
      ≡ some table
    → sctp_add_stream_mapping sctp label sid
      ≡ some (record sctp { stream_table = table; stream_count = sctp.stream_count + 1 })
unfolding sctp_add_stream_mapping
add_by sctp label sid table h e =
    let room : ltb sctp.stream_count max_streams ≡ true = lt→ltb sctp.stream_count max_streams h in
    rw (room, e) refl

pub sctp_add_stream_mapping-lookup :
    (sctp : Sctp) (label : List ℕ) (sid : ℕ)
    → IsLabel label
    → sctp.stream_count < max_streams
    → length sctp.stream_table ≡ max_streams
    → peer_connection_lookup_sid sctp label ≡ none
    → (mapped : Sctp) × (sctp_add_stream_mapping sctp (label ++ (0 ∷ [])) sid ≡ some mapped)
      × (peer_connection_lookup_sid mapped label ≡ some sid)
unfolding peer_connection_lookup_sid
sctp_add_stream_mapping-lookup sctp label sid v h size free =
    let entry : SctpStreamEntry = record { label = label_field (label ++ (0 ∷ [])); sid = sid } in
    let (table, e, found) =
      set_entry-lookup sctp.stream_count sctp.stream_table entry label (omega arith) free
        (label_field-same label v) in
    let more : sctp.stream_count + 1 ≡ suc sctp.stream_count = omega arith in
    (
      record sctp { stream_table = table; stream_count = sctp.stream_count + 1 },
      add_by sctp (label ++ (0 ∷ [])) sid table h e,
      rw more found,
    )
