-- ===== src/Ice.antt =====
-- The priorities of ICE candidates and their creation (src/ice.c).
pub mod Order
use libpeer.Base.{ℕ, ◌+◌, ◌*◌, ◌-◌, ◌^◌, ◌<◌, List, [], ◌∷◌}
use libpeer.Base.Word.{u32}
use libpeer.Address.{Address}
use libpeer.Agent.State.{IceCandidate, IceCandidateType, host, srflx, prflx, relay}

-- ice_candidate_type_preference
unfoldable pub ice_candidate_type_preference : IceCandidateType → ℕ
ice_candidate_type_preference host = 126
ice_candidate_type_preference srflx = 100
ice_candidate_type_preference relay = 0
ice_candidate_type_preference prflx = 0

-- ice_candidate_local_preference
unfoldable pub ice_candidate_local_preference : IceCandidate → ℕ
ice_candidate_local_preference candidate = candidate.addr.port

-- ice_candidate_priority, for a component of at most 256
unfoldable pub ice_candidate_priority : IceCandidate → IceCandidate
ice_candidate_priority candidate = record candidate {
  priority = u32 (
      2 ^ 24 * ice_candidate_type_preference candidate.type
      + 2 ^ 8 * ice_candidate_local_preference candidate
      + (256 - candidate.component));
}

-- ice_candidate_create; `foundation` is its number in decimal.
unfoldable pub ice_candidate_create :
    IceCandidate → List ℕ → IceCandidateType → Address → IceCandidate
ice_candidate_create candidate foundation type addr =
    let created = record candidate {
      addr = addr;
      type = type;
      foundation = foundation;
      component = 1;
    } in
    record (ice_candidate_priority created) { transport = 85 ∷ 68 ∷ 80 ∷ [] }
