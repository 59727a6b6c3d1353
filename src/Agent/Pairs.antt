-- ===== src/Agent/Pairs.antt =====
-- The candidate pairs: agent_update_candidate_pairs and agent_select_candidate_pair (src/agent.c).
use libpeer.Base.{
  ℕ, zero, suc, ◌+◌, ltb, if◌then◌else◌, Bool, true, false, Option, none, some, List, [], ◌∷◌,
  get_elem?, set,
}
use libpeer.Base.Memory.{◌>>=◌}
use libpeer.Base.Word.{u32}
use libpeer.Address.{Family, af_inet, af_inet6}
use libpeer.Agent.State.{
  Agent, IceCandidatePair, IceCandidateState, frozen, waiting, inprogress, succeeded, failed,
}

-- AGENT_CONNCHECK_MAX
abbrev pub agent_conncheck_max : ℕ
agent_conncheck_max = 1000

unfoldable pub same_family : Family → Family → Bool
same_family af_inet af_inet = true
same_family af_inet6 af_inet6 = true
same_family _ _ = false

-- The pair of two candidates goes behind the others; `none` when the array is full or an index is outside.
unfoldable pub add_pair : ℕ → ℕ → Agent → Option Agent
add_pair i j agent = do
  local ← get_elem? agent.local_candidates i
  remote ← get_elem? agent.remote_candidates j
  if same_family local.addr.family remote.addr.family
      then (do
        old ← get_elem? agent.candidate_pairs agent.candidate_pairs_num
        let pair = record old {
          state = frozen;
          local = i;
          remote = j;
          priority = u32 (local.priority + remote.priority);
        }
        some (record agent {
          candidate_pairs = set agent.candidate_pairs agent.candidate_pairs_num pair;
          candidate_pairs_num = suc agent.candidate_pairs_num;
        }))
      else some agent

-- The two loops, `m` and `n` being the rounds that are left.
unfoldable pub add_remotes : ℕ → ℕ → ℕ → Agent → Option Agent
add_remotes zero i j agent = some agent
add_remotes (suc n) i j agent = do agent' ← add_pair i j agent; add_remotes n i (suc j) agent'

unfoldable pub add_locals : ℕ → ℕ → Agent → Option Agent
add_locals zero i agent = some agent
add_locals (suc m) i agent = do
  agent' ← add_remotes agent.remote_candidates_count i 0 agent
  add_locals m (suc i) agent'

-- agent_update_candidate_pairs
unfoldable pub agent_update_candidate_pairs : Agent → Option Agent
agent_update_candidate_pairs agent = add_locals agent.local_candidates_count 0 agent

-- Where the loop of agent_select_candidate_pair stops, at the pair `i`: it nominates the pair, it waits for
-- its answer, it selects it; or all pairs have failed.
pub data Choice : Type 0 where
  nominate wait select : ℕ → Choice
  give_up : Choice

-- The body of the loop on the pair `p`, which is in the given state; `further` is what comes of the pairs
-- behind it.
unfoldable pub visit :
    IceCandidateState
    → ℕ
    → IceCandidatePair
    → List IceCandidatePair
    → Option (List IceCandidatePair × Choice)
    → Option (List IceCandidatePair × Choice)
visit frozen i p pairs further =
    some (record p { conncheck = 0; state = inprogress } ∷ pairs, nominate i)
visit inprogress i p pairs further =
    let tried = record p { conncheck = suc p.conncheck } in
    if ltb (suc p.conncheck) agent_conncheck_max
    then some (tried ∷ pairs, wait i)
    else (do rest ← further; some (record tried { state = failed } ∷ rest.0, rest.1))
visit succeeded i p pairs further = some (p ∷ pairs, select i)
visit failed i p pairs further = do rest ← further; some (p ∷ rest.0, rest.1)
visit waiting i p pairs further = do rest ← further; some (p ∷ rest.0, rest.1)

-- The loop on the pairs from `i` on, `n` of which are in use.
unfoldable pub select_loop : ℕ → ℕ → List IceCandidatePair → Option (List IceCandidatePair × Choice)
select_loop zero i pairs = some (pairs, give_up)
select_loop (suc n) i [] = none
select_loop (suc n) i (p ∷ pairs) = visit p.state i p pairs (select_loop n (suc i) pairs)

-- What the loop leaves in the agent, and whether 0 is returned.
unfoldable pub choose : Agent → Choice → Agent × Bool
choose agent (nominate i) = (record agent { nominated_pair = some i }, true)
choose agent (wait i) = (agent, true)
choose agent (select i) = (record agent { selected_pair = some i }, true)
choose agent give_up = (agent, false)

-- agent_select_candidate_pair
unfoldable pub agent_select_candidate_pair : Agent → Option (Agent × Bool)
agent_select_candidate_pair agent = do
  found ← select_loop agent.candidate_pairs_num 0 agent.candidate_pairs
  some (choose (record agent { candidate_pairs = found.0 }) found.1)
