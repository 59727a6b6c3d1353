-- ===== src/Peer/Feedback.antt =====
-- peer_connection_incoming_rtcp (src/peer_connection.c).
use libpeer.Base.{
  ℕ, zero, suc, ◌+◌, ◌*◌, ◌%◌, ◌-◌, ◌==◌, if◌then◌else◌, Bool, ◌&&◌, ◌||◌, Option, none, some, List,
  get_or, drop,
}
use libpeer.Base.Word.{read16}
use libpeer.Base.Memory.{load, ◌>>=◌}
use libpeer.Rtcp.{rtcp_psfb}

-- The fields of struct RtcpHeader.
unfoldable pub rtcp_rc : List ℕ → ℕ
rtcp_rc header = get_or header 0 0 % 32

unfoldable pub rtcp_type : List ℕ → ℕ
rtcp_type header = get_or header 1 0

unfoldable pub rtcp_words : List ℕ → ℕ
rtcp_words header = read16 (get_or header 2 0) (get_or header 3 0)

-- A packet that asks for a key frame: PLI or FIR.
unfoldable pub asks_keyframe : List ℕ → Bool
asks_keyframe header = rtcp_type header == rtcp_psfb && (rtcp_rc header == 1 || rtcp_rc header == 4)

-- The loop: `rest` is the memory from `pos` on, `left` is len - pos. Each round takes four bytes or more, so
-- that `left` rounds are enough. The value counts the calls of on_request_keyframe; `none` is a read
-- outside of the memory.
unfoldable pub rtcp_loop : ℕ → List ℕ → ℕ → Option ℕ
rtcp_loop fuel rest zero = some 0
rtcp_loop zero rest (suc left) = none
rtcp_loop (suc fuel) rest (suc left) = do
  header ← load rest 0 4
  let size = 4 * rtcp_words header + 4
  calls ← rtcp_loop fuel (drop size rest) (suc left - size)
  some (if asks_keyframe header then suc calls else calls)

-- peer_connection_incoming_rtcp: how often on_request_keyframe is called, if it is set.
unfoldable pub peer_connection_incoming_rtcp : Bool → List ℕ → ℕ → Option ℕ
peer_connection_incoming_rtcp on_request_keyframe buf len = do
  calls ← rtcp_loop len buf len
  some (if on_request_keyframe then calls else 0)
