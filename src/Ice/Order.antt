-- ===== src/Ice/Order.antt =====
-- How the priorities of the candidates of an agent compare (src/ice.c).
use libpeer.Base.{ℕ, ◌+◌, ◌*◌, ◌^◌, ◌<◌, ◌≡◌, ◌⊎◌, inl, inr, ap, List}
use libpeer.Base.{arith}
use libpeer.Address.{Address}
use libpeer.Agent.State.{IceCandidate, IceCandidateType, host, srflx, prflx, relay}
use libpeer.Ice.{
  ice_candidate_type_preference, ice_candidate_local_preference, ice_candidate_priority,
  ice_candidate_create,
}

preference_small : (type : IceCandidateType) → ice_candidate_type_preference type < 127
unfolding ice_candidate_type_preference
preference_small host = omega arith
preference_small srflx = omega arith
preference_small prflx = omega arith
preference_small relay = omega arith

create_priority :
    (candidate : IceCandidate) (foundation : List ℕ) (type : IceCandidateType) (addr : Address)
    → addr.port < 2 ^ 16
    → (ice_candidate_create candidate foundation type addr).priority
      ≡ 2 ^ 24 * ice_candidate_type_preference type + 2 ^ 8 * addr.port + 255
unfolding ice_candidate_create ice_candidate_priority ice_candidate_local_preference
create_priority candidate foundation type addr small = omega (arith, preference_small type)

-- Candidates on ports of 16 bits have priorities that fit 31 bits; a candidate of a type that is preferred
-- has the higher priority, whatever the ports are, and of two of one type the one with the higher port has.
pub ice_candidate_create-priority :
    (candidate candidate' : IceCandidate) (foundation foundation' : List ℕ)
    (type type' : IceCandidateType) (addr addr' : Address)
    → addr.port < 2 ^ 16
    → addr'.port < 2 ^ 16
    → ((ice_candidate_type_preference type < ice_candidate_type_preference type')
        ⊎ ((type ≡ type') × (addr.port < addr'.port)))
    → ((ice_candidate_create candidate foundation type addr).priority
        < (ice_candidate_create candidate' foundation' type' addr').priority)
      × ((ice_candidate_create candidate' foundation' type' addr').priority < 2 ^ 31)
ice_candidate_create-priority candidate candidate' foundation foundation' type type' addr addr'
      small small' order =
    let e = create_priority candidate foundation type addr small in
    let e' = create_priority candidate' foundation' type' addr' small' in
    let bound = preference_small type' in
    elim order [
      | inl preferred ↦ (omega (arith, e, e'), omega (arith, e'))
      | inr (same, higher) ↦
          (omega (arith, e, e', ap ice_candidate_type_preference same), omega (arith, e'))
    ]
