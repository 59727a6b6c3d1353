-- ===== src/Agent/State.antt =====
-- struct IceCandidate, struct IceCandidatePair (src/ice.h) and struct Agent (src/agent.h).
use libpeer.Base.{ℕ, Option, List}
use libpeer.Address.{Address}

-- IceCandidateState
pub data IceCandidateState : Type 0 where
  frozen waiting inprogress succeeded failed : IceCandidateState

pub data IceCandidateType : Type 0 where
  host srflx prflx relay : IceCandidateType

pub record IceCandidate : Type 0 where
  pub foundation : List ℕ
  pub component : ℕ
  pub priority : ℕ
  pub transport : List ℕ
  pub type : IceCandidateType
  pub addr : Address

-- `local` and `remote` point into the arrays of candidates: they are indices.
pub record IceCandidatePair : Type 0 where
  pub state : IceCandidateState
  pub local : ℕ
  pub remote : ℕ
  pub conncheck : ℕ
  pub priority : ℕ

pub data AgentMode : Type 0 where
  controlled controlling : AgentMode

-- The arrays are as long as they are declared, whatever their counts; `selected_pair` and `nominated_pair`
-- point into `candidate_pairs`. The sockets are outside: what is sent is a result of
-- the operations. The host address, the gathering state and `use_candidate`, which these operations do not
-- touch, are left out.
pub record Agent : Type 0 where
  pub remote_ufrag : List ℕ
  pub remote_upwd : List ℕ
  pub local_ufrag : List ℕ
  pub local_upwd : List ℕ
  pub local_candidates : List IceCandidate
  pub remote_candidates : List IceCandidate
  pub local_candidates_count : ℕ
  pub remote_candidates_count : ℕ
  pub binding_request_time : ℕ
  pub mode : AgentMode
  pub candidate_pairs : List IceCandidatePair
  pub selected_pair : Option ℕ
  pub nominated_pair : Option ℕ
  pub candidate_pairs_num : ℕ
  pub transaction_id : List ℕ

-- agent_clear_candidates
unfoldable pub agent_clear_candidates : Agent → Agent
agent_clear_candidates agent = record agent {
  local_candidates_count = 0;
  remote_candidates_count = 0;
  candidate_pairs_num = 0;
}
