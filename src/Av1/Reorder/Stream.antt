-- ===== src/Av1/Reorder/Stream.antt =====
-- Runs of rtp_decode_av1: the state stays well-formed, and a stream in order passes straight through.
use libpeer.Base.{
  ℕ, ◌+◌, ◌%◌, ◌^◌, ◌≤◌, ◌<◌, ◌≡◌, refl, ◌∙◌, Bool, true, false, ◌||◌, List, [], ◌∷◌, ◌++◌, arith,
  ltb, length, append-nil, get_or, ◌⊎◌, inl, inr, dec_lt, Bool-cases, All,
}
use libpeer.Base.Word.{u16, IsByte}
use libpeer.Rtp.Header.{seq_number}
use libpeer.Av1.Depay.{Depay, feed, Returned, size, av1_depay_packet}
use libpeer.Av1.Reorder.{
  Av1Reorder, reorder_depth, recv_buffer_size, distance, place, begin_at, reorder_packet,
  Av1Decoder, rtp_decode_av1,
}
use libpeer.Av1.Reorder.Window.{Consecutive}
use libpeer.Av1.Reorder.Calls.{
  IsSettled, FitsBuffer, seq_number_lt, reorder_window, reorder_gap, accept_alone,
}

module _ (r : Av1Reorder) (buf : List ℕ) where
  abbrev begun : Av1Reorder
  begun = begin_at r (seq_number buf)

  begun_started : begun.started ≡ true
  unfolding begin_at
  begun_started = ground arith

  begun_yes : r.started ≡ true → begun ≡ r
  unfolding begin_at
  begun_yes h = ground arith

  begun_no : r.started ≡ false → begun ≡ record r { started = true; expect = seq_number buf }
  unfolding begin_at
  begun_no h = ground arith

  begun-IsSettled : seq_number buf < 2 ^ 16 → IsSettled r → IsSettled begun
  begun-IsSettled lt s = elim (Bool-cases r.started) [
    | inl yes' ↦ rw (begun_yes yes') s
    | inr no' ↦ rw (begun_no no') (record {
      window = record { four = s.window.four; sequence = lt; waiting = λ j h. inl (s.idle no' j) };
      idle = λ e. absurd (ground arith);
    })
  ]

  begun_same : FitsBuffer buf → reorder_packet r buf ≡ place begun (seq_number buf) buf
  unfolding reorder_packet
  begun_same (long, short) = ground arith

  abbrev misfit : Bool
  misfit = ltb (length buf) 12 || ltb recv_buffer_size (length buf)

  refused : misfit ≡ true → (reorder_packet r buf).reorder ≡ r
  unfolding reorder_packet
  refused h = ground arith

  accepted : misfit ≡ false → FitsBuffer buf
  accepted h = ground arith

place_begun :
    (r : Av1Reorder) (buf : List ℕ)
    → FitsBuffer buf
    → r.started ≡ true
    → place r (seq_number buf) buf ≡ reorder_packet r buf
unfolding reorder_packet begin_at
place_begun r buf (long, short) started = ground arith

late_same :
    (r : Av1Reorder) (buf : List ℕ)
    → 2 ^ 15 ≤ distance (seq_number buf) r.expect
    → (place r (seq_number buf) buf).reorder ≡ r
unfolding place
late_same r buf late = ground arith

place-IsSettled :
    (r : Av1Reorder) (buf : List ℕ)
    → IsSettled r
    → r.started ≡ true
    → All IsByte buf
    → FitsBuffer buf
    → IsSettled (place r (seq_number buf) buf).reorder
place-IsSettled r [] s started bytes (long, short) = absurd (omega arith)
place-IsSettled r (b ∷ packet) s started bytes fits =
    let ahead = distance (seq_number (b ∷ packet)) r.expect in
    elim (dec_lt ahead reorder_depth) [
      | yes near ↦
          rw (place_begun r (b ∷ packet) fits started)
            ((reorder_window r (b ∷ packet) s started bytes fits near).settled)
      | no far ↦ elim (dec_lt ahead (2 ^ 15)) [
        | yes near ↦
            rw (place_begun r (b ∷ packet) fits started)
              ((reorder_gap r b packet s started fits (omega arith) near).settled)
        | no late ↦ rw (late_same r (b ∷ packet) (omega arith)) s
      ]
    ]

-- Whatever bytes arrive, a well-formed reorder buffer stays well-formed: each packet that waits is in
-- its own slot and one of the next four, and nothing waits before the stream has begun.
pub reorder_packet-IsSettled :
    (r : Av1Reorder) (buf : List ℕ)
    → IsSettled r
    → All IsByte buf
    → IsSettled (reorder_packet r buf).reorder
reorder_packet-IsSettled r buf s bytes = elim (Bool-cases (misfit r buf)) [
  | inl refuse ↦ rw (refused r buf refuse) s
  | inr accept' ↦
      let fits = accepted r buf accept' in
      rw (begun_same r buf fits) (
        place-IsSettled (begun r buf) buf (begun-IsSettled r buf (seq_number_lt buf bytes) s)
          (begun_started r buf) bytes fits)
]

-- Calls of rtp_decode_av1 one after the other, and the temporal units delivered.
unfoldable pub decode_all : Av1Decoder → List (List ℕ) → Av1Decoder × List (List ℕ)
decode_all s [] = (s, [])
decode_all s (packet ∷ packets) =
    let (s', units, returned) = rtp_decode_av1 s packet in
    let (s'', units') = decode_all s' packets in (s'', units ++ units')

-- Nothing waits, and the stream has begun or the packet to come is its first.
pub record IsIdle (r : Av1Reorder) (seq : ℕ) : Type 0 where
  pub four : length r.slots ≡ 4
  pub nothing_waits : (j : ℕ) → get_or r.slots j [] ≡ []
  pub next : (r.started ≡ false) ⊎ (r.expect ≡ seq)

abbrev begun_at : Av1Reorder → ℕ → Av1Reorder
begun_at r seq = record r { started = true; expect = seq }

module _ (r : Av1Reorder) (b : ℕ) (packet : List ℕ) where
  abbrev buf : List ℕ
  buf = b ∷ packet

  begun_idle : IsIdle r (seq_number buf) → begun r buf ≡ begun_at r (seq_number buf)
  begun_idle idle = elim (Bool-cases r.started) [
    | inr no' ↦ begun_no r buf no'
    | inl yes' ↦ elim idle.next [
      | inl no' ↦ absurd (ground arith)
      | inr e ↦ begun_yes r buf yes' ∙ rw (← yes', ← e) refl
    ]
  ]

  place_idle :
      IsIdle r (seq_number buf)
      → place (begun_at r (seq_number buf)) (seq_number buf) buf ≡ record {
        reorder = begun_at r (u16 (seq_number buf + 1));
        released = buf ∷ [];
        returned = size (length buf);
      }
  unfolding place distance
  place_idle idle =
      let alone =
        accept_alone (begun_at r (seq_number buf)) b packet idle.four idle.nothing_waits refl in
      ground (arith, alone)

  straight :
      FitsBuffer buf
      → IsIdle r (seq_number buf)
      → reorder_packet r buf ≡ record {
        reorder = begun_at r (u16 (seq_number buf + 1));
        released = buf ∷ [];
        returned = size (length buf);
      }
  straight fits idle = begun_same r buf fits ∙ (rw (begun_idle idle) (place_idle idle))

  decode_straight :
      (d : Depay)
      → FitsBuffer buf
      → IsIdle r (seq_number buf)
      → rtp_decode_av1 (record { reorder = r; depay = d }) buf ≡ (
        record {
          reorder = begun_at r (u16 (seq_number buf + 1));
          depay = (av1_depay_packet d buf).depay;
        },
        (av1_depay_packet d buf).units ++ [],
        size (length buf),
      )
  unfolding rtp_decode_av1 feed
  decode_straight d fits idle = rw (straight fits idle) refl

-- What a stream in order leaves and delivers.
pub record IsTransparent (s : Av1Decoder) (seq : ℕ) (packets : List (List ℕ)) : Type 0 where
  pub units : (decode_all s packets).1 ≡ (feed s.depay packets).1
  pub depay : (decode_all s packets).0.depay ≡ (feed s.depay packets).0
  pub idle : IsIdle (decode_all s packets).0.reorder ((seq + length packets) % 2 ^ 16)

-- The state behind a packet that passes through.
abbrev after : Av1Decoder → ℕ → List ℕ → Av1Decoder
after s seq buf = record {
  reorder = begun_at s.reorder seq;
  depay = (av1_depay_packet s.depay buf).depay;
}

step-IsTransparent :
    (s s' : Av1Decoder) (seq : ℕ) (buf : List ℕ) (packets : List (List ℕ)) (returned : Returned)
    → rtp_decode_av1 s buf ≡ (s', (av1_depay_packet s.depay buf).units ++ [], returned)
    → s'.depay ≡ (av1_depay_packet s.depay buf).depay
    → IsTransparent s' (u16 (seq + 1)) packets
    → IsTransparent s seq (buf ∷ packets)
unfolding decode_all feed
step-IsTransparent s s' seq buf packets returned e same rest = record {
  units = rw (e, append-nil) (rw (← same, rest.units) refl);
  depay = rw (e, ← same) rest.depay;
  idle = rw (e) (record {
    four = rest.idle.four;
    nothing_waits = rest.idle.nothing_waits;
    next = elim rest.idle.next [ inl no' ↦ inl no' | inr h ↦ inr (omega (arith, h)) ];
  });
}

-- Packets of 12 to 2048 bytes that arrive in order, with numbers that go on one by one from the
-- expected one or from any number where the stream has not begun, go through an empty reorder buffer
-- to av1_depay_packet just as they arrive, and nothing is left waiting.
pub reorder-IsTransparent :
    (packets : List (List ℕ)) (s : Av1Decoder) (seq : ℕ)
    → seq < 2 ^ 16
    → IsIdle s.reorder seq
    → Consecutive seq packets
    → All FitsBuffer packets
    → IsTransparent s seq packets
unfolding decode_all feed
reorder-IsTransparent [] s seq h idle order fits = record {
  units = refl;
  depay = refl;
  idle = record {
    four = idle.four;
    nothing_waits = idle.nothing_waits;
    next = elim idle.next [ inl no' ↦ inl no' | inr e ↦ inr (omega arith) ];
  };
}
reorder-IsTransparent ([] ∷ packets) s seq h idle order ((long, short), fits) = absurd (omega arith)
reorder-IsTransparent ((b ∷ packet) ∷ packets) s seq h idle (e, order) (fit, fits) =
    let idle' : IsIdle s.reorder (seq_number (b ∷ packet)) = rw e idle in
    step-IsTransparent s (after s (u16 (seq + 1)) (b ∷ packet)) seq (b ∷ packet) packets
      (size (length (b ∷ packet)))
      (decode_straight s.reorder b packet s.depay fit idle' ∙ rw e refl) refl
      (reorder-IsTransparent packets (after s (u16 (seq + 1)) (b ∷ packet)) (u16 (seq + 1))
        (omega arith)
        (record { four = idle.four; nothing_waits = idle.nothing_waits; next = inr refl }) order
        fits)
