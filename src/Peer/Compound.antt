-- ===== src/Peer/Compound.antt =====
-- What peer_connection_incoming_rtcp makes of compound packets and of the feedback messages of src/rtcp.c.
use libpeer.Base.{
  ℕ, zero, suc, ◌+◌, ◌*◌, ◌%◌, ◌-◌, ◌^◌, ◌≤◌, ◌<◌, ◌≡◌, ◌≢◌, refl, sym, if◌then◌else◌, true, some,
  List, [], ◌∷◌, ◌++◌, All, length, length-append, drop, drop-append_exact, append_assoc, arith,
  replicate,
}
use libpeer.Base.Word.{be32}
use libpeer.Base.Memory.{load}
use libpeer.Rtcp.{rtcp_get_pli, rtcp_get_fir, rtcp_header_bytes, le32}
use libpeer.Peer.Feedback.{
  rtcp_rc, rtcp_type, rtcp_words, asks_keyframe, rtcp_loop, peer_connection_incoming_rtcp,
}

-- An RTCP packet that is as long as its header says.
abbrev IsPacket : List ℕ → Type 0
IsPacket packet = length packet ≡ 4 * rtcp_words packet + 4

unfoldable pub compound : List (List ℕ) → List ℕ
compound [] = []
compound (packet ∷ packets) = packet ++ compound packets

-- How many packets ask for a key frame.
unfoldable keyframes : List (List ℕ) → ℕ
keyframes [] = 0
keyframes (packet ∷ packets) =
    if asks_keyframe packet then suc (keyframes packets) else keyframes packets

loop_by :
    (fuel n left : ℕ) (rest header rest' : List ℕ) (size calls : ℕ)
    → load rest 0 4 ≡ some header
    → 4 * rtcp_words header + 4 ≡ size
    → drop size rest ≡ rest'
    → rtcp_loop fuel rest' left ≡ some calls
    → n ≡ size + left
    → rtcp_loop (suc fuel) rest n ≡ some (if asks_keyframe header then suc calls else calls)
unfolding rtcp_loop
loop_by fuel zero left rest header rest' size calls e1 e2 e3 e4 e5 = absurd (omega arith)
loop_by fuel (suc n) left rest header rest' size calls e1 e2 e3 e4 e5 =
    let less : suc n - size ≡ left = omega arith in rw (e1, e2, e3, less, e4) refl

loop_packet :
    (fuel left : ℕ) (packet rest : List ℕ) (calls : ℕ)
    → IsPacket packet
    → rtcp_loop fuel rest left ≡ some calls
    → rtcp_loop (suc fuel) (packet ++ rest) (length packet + left)
      ≡ some (if asks_keyframe packet then suc calls else calls)
unfolding asks_keyframe rtcp_rc rtcp_type rtcp_words load
loop_packet fuel left [] rest calls v h = absurd (omega arith)
loop_packet fuel left (a ∷ []) rest calls v h = absurd (omega arith)
loop_packet fuel left (a ∷ b ∷ []) rest calls v h = absurd (omega arith)
loop_packet fuel left (a ∷ b ∷ c ∷ []) rest calls v h = absurd (omega arith)
loop_packet fuel left (a ∷ b ∷ c ∷ d ∷ packet) rest calls v h =
    loop_by fuel _ left (a ∷ b ∷ c ∷ d ∷ (packet ++ rest)) (a ∷ b ∷ c ∷ d ∷ []) rest _ calls
      (ground (arith)) (sym v) (drop-append_exact _ (a ∷ b ∷ c ∷ d ∷ packet) rest refl) h refl

loop_compound :
    (fuel : ℕ) (packets : List (List ℕ)) (tail : List ℕ)
    → All IsPacket packets
    → length (compound packets) ≤ fuel
    → rtcp_loop fuel (compound packets ++ tail) (length (compound packets))
      ≡ some (keyframes packets)
unfolding compound keyframes
loop_compound zero [] tail v h = unfold rtcp_loop in refl
loop_compound (suc fuel) [] tail v h = unfold rtcp_loop in refl
loop_compound zero (packet ∷ packets) tail (v, vs) h =
    absurd (omega (arith, length-append packet (compound packets)))
loop_compound (suc fuel) (packet ∷ packets) tail (v, vs) h =
    let further =
      loop_compound fuel packets tail vs (omega (arith, length-append packet (compound packets))) in
    rw (append_assoc packet (compound packets) tail, length-append packet (compound packets))
      (loop_packet fuel (length (compound packets)) packet (compound packets ++ tail)
        (keyframes packets) v further)

-- An RTCP packet: its two bytes, the length in words, and as many words.
abbrev IsLong : ℕ → ℕ → List ℕ → Type 0
IsLong high low body = length body ≡ 4 * (256 * high + low)

-- RTCP packets, by the upper three bits of the first byte, the five bits of the format, the packet type and
-- the length, and how many of them ask for a key frame. Type 206 is payload-specific feedback, with the
-- formats 1 for PLI and 4 for FIR (RFC 4585 and RFC 5104).
pub data Requests : List (List ℕ) → ℕ → Type 0 where
  nothing : Requests [] 0
  pli :
      {packets : List (List ℕ)} {n : ℕ} (bits high low : ℕ) (body : List ℕ)
      → IsLong high low body
      → Requests packets n
      → Requests (((32 * bits + 1) ∷ 206 ∷ high ∷ low ∷ body) ∷ packets) (1 + n)
  fir :
      {packets : List (List ℕ)} {n : ℕ} (bits high low : ℕ) (body : List ℕ)
      → IsLong high low body
      → Requests packets n
      → Requests (((32 * bits + 4) ∷ 206 ∷ high ∷ low ∷ body) ∷ packets) (1 + n)
  other_feedback :
      {packets : List (List ℕ)} {n : ℕ} (bits format high low : ℕ) (body : List ℕ)
      → format < 32
      → format ≢ 1
      → format ≢ 4
      → IsLong high low body
      → Requests packets n
      → Requests (((32 * bits + format) ∷ 206 ∷ high ∷ low ∷ body) ∷ packets) n
  other_type :
      {packets : List (List ℕ)} {n : ℕ} (first type high low : ℕ) (body : List ℕ)
      → type ≢ 206
      → IsLong high low body
      → Requests packets n
      → Requests ((first ∷ type ∷ high ∷ low ∷ body) ∷ packets) n

long-IsPacket :
    (first type high low : ℕ) (body : List ℕ)
    → IsLong high low body
    → IsPacket (first ∷ type ∷ high ∷ low ∷ body)
unfolding rtcp_words
long-IsPacket first type high low body h = omega (arith, h)

Requests-All : (packets : List (List ℕ)) (n : ℕ) → Requests packets n → All IsPacket packets
Requests-All packets n nothing = tt
Requests-All packets n (pli bits high low body h more) =
    (long-IsPacket (32 * bits + 1) 206 high low body h, Requests-All _ _ more)
Requests-All packets n (fir bits high low body h more) =
    (long-IsPacket (32 * bits + 4) 206 high low body h, Requests-All _ _ more)
Requests-All packets n (other_feedback bits format high low body _ _ _ h more) =
    (long-IsPacket (32 * bits + format) 206 high low body h, Requests-All _ _ more)
Requests-All packets n (other_type first type high low body _ h more) =
    (long-IsPacket first type high low body h, Requests-All _ _ more)

Requests-keyframes : (packets : List (List ℕ)) (n : ℕ) → Requests packets n → keyframes packets ≡ n
unfolding keyframes asks_keyframe rtcp_type rtcp_rc
Requests-keyframes packets n nothing = refl
Requests-keyframes packets n (pli {packets = ps} bits high low body h more) =
    ground (arith, Requests-keyframes _ _ more)
Requests-keyframes packets n (fir bits high low body h more) =
    ground (arith, Requests-keyframes _ _ more)
Requests-keyframes packets n (other_feedback bits format high low body small a b h more) =
    ground (arith, small, a, b, Requests-keyframes _ _ more)
Requests-keyframes packets n (other_type first type high low body a h more) =
    ground (arith, a, Requests-keyframes _ _ more)

-- A compound of RTCP packets, each as long as its header says, is read without an access outside of the
-- buffer, whatever stands behind it, and on_request_keyframe is called once for each PLI and FIR in it: for
-- each packet of type 206 with the format 1 or 4, and for no other.
pub peer_connection_incoming_rtcp-compound :
    (packets : List (List ℕ)) (n : ℕ) (tail : List ℕ)
    → Requests packets n
    → peer_connection_incoming_rtcp true (compound packets ++ tail) (length (compound packets))
      ≡ some n
unfolding peer_connection_incoming_rtcp
peer_connection_incoming_rtcp-compound packets n tail r =
    let all = Requests-All packets n r in
    let counted = Requests-keyframes packets n r in
    rw (loop_compound (length (compound packets)) packets tail all (omega arith), counted) refl

-- A PLI that rtcp_get_pli writes and a FIR that rtcp_get_fir writes, with its number below 256, in one
-- datagram: peer_connection_incoming_rtcp of the peer calls on_request_keyframe twice, whatever stands
-- behind them in the buffer.
pub peer_connection_incoming_rtcp_feedback :
    (ssrc seqnr : ℕ) (tail : List ℕ)
    → seqnr < 256
    → (pli fir : List ℕ) × (rtcp_get_pli 12 ssrc ≡ some pli)
      × (rtcp_get_fir 20 seqnr ≡ some (fir, (seqnr + 1) % 256))
      × (peer_connection_incoming_rtcp true (pli ++ (fir ++ tail)) 32 ≡ some 2)
unfolding rtcp_get_pli rtcp_get_fir rtcp_header_bytes le32 compound keyframes asks_keyframe rtcp_rc
    rtcp_type rtcp_words
peer_connection_incoming_rtcp_feedback ssrc seqnr tail h =
    let pli = rtcp_header_bytes 1 206 2 ++ (replicate 4 0 ++ le32 ssrc) in
    let fir = rtcp_header_bytes 4 206 4 ++ (replicate 12 0 ++ be32 ((seqnr + 1) % 256 * 2 ^ 24)) in
    (
      pli,
      fir,
      refl,
      ground arith,
      peer_connection_incoming_rtcp-compound (pli ∷ fir ∷ []) 2 tail (
          Requests.pli 4 0 2 (replicate 4 0 ++ le32 ssrc) refl (
            Requests.fir 4 0 4 (replicate 12 0 ++ be32 ((seqnr + 1) % 256 * 2 ^ 24)) refl nothing)),
    )
