-- ===== src/Agent/GiveUp.antt =====
-- Without an answer, agent_select_candidate_pair goes through all pairs and gives up (src/agent.c).
use libpeer.Base.{
  ℕ, zero, suc, ◌+◌, ◌*◌, ◌-◌, ◌≤◌, ◌<◌, ltb, if◌then◌else◌, ◌≡◌, ◌⊎◌, inl, inr, refl, ap, ◌∙◌,
  Bool, true, false, Option, some, List, [], ◌∷◌, length, dec_lt, arith,
}
use libpeer.Base.Memory.{◌>>=◌}
use libpeer.Agent.State.{
  Agent, IceCandidatePair, IceCandidateState, frozen, waiting, inprogress, succeeded, failed,
}
use libpeer.Agent.Pairs.{
  Choice, nominate, wait, give_up, visit, select_loop, choose, agent_select_candidate_pair,
  agent_conncheck_max,
}

-- A pair that is passed over, and a pair that has not succeeded.
abbrev pub IsOver : IceCandidatePair → Type 0
IsOver p = (p.state ≡ failed) ⊎ (p.state ≡ waiting)

abbrev pub IsOpen : IceCandidatePair → Type 0
IsOpen p = IsOver p ⊎ ((p.state ≡ frozen) ⊎ (p.state ≡ inprogress))

-- Of the first pairs.
abbrev pub AllFirst : (IceCandidatePair → Type 0) → ℕ → List IceCandidatePair → Type 0
AllFirst P zero pairs = Unit
AllFirst P (suc n) [] = Unit
AllFirst P (suc n) (p ∷ pairs) = P p × AllFirst P n pairs

-- How many more times the loop can stop at a pair.
unfoldable pub weight : IceCandidateState → ℕ → ℕ
weight frozen conncheck = 1001
weight inprogress conncheck = 1000 - conncheck
weight succeeded conncheck = 0
weight failed conncheck = 0
weight waiting conncheck = 0

unfoldable pub weights : ℕ → List IceCandidatePair → ℕ
weights zero pairs = 0
weights (suc n) [] = 0
weights (suc n) (p ∷ pairs) = weight p.state p.conncheck + weights n pairs

weight_bound : (s : IceCandidateState) (c : ℕ) → weight s c ≤ 1001
unfolding weight
weight_bound frozen c = omega arith
weight_bound inprogress c = omega arith
weight_bound succeeded c = omega arith
weight_bound failed c = omega arith
weight_bound waiting c = omega arith

weights_bound : (n : ℕ) (pairs : List IceCandidatePair) → weights n pairs ≤ 1001 * n
unfolding weights
weights_bound zero pairs = omega arith
weights_bound (suc n) [] = omega arith
weights_bound (suc n) (p ∷ pairs) =
    omega (arith, weight_bound p.state p.conncheck, weights_bound n pairs)

-- A stop at a pair that has no answer yet.
abbrev IsStop : Choice → Type 0
IsStop choice = (i : ℕ) × ((choice ≡ nominate i) ⊎ (choice ≡ wait i))

record Searched (n : ℕ) (pairs pairs' : List IceCandidatePair) (choice : Choice) : Type 0 where
  same_length : length pairs' ≡ length pairs
  still_open : AllFirst IsOpen n pairs'
  ended :
      ((choice ≡ give_up) × AllFirst IsOver n pairs')
      ⊎ (IsStop choice × (weights n pairs' < weights n pairs))

abbrev Finds : ℕ → ℕ → List IceCandidatePair → Type 0
Finds n i pairs =
    (pairs' : List IceCandidatePair) × (choice : Choice) × (select_loop n i pairs
      ≡ some (pairs', choice))
    × Searched n pairs pairs' choice

module _ (n i : ℕ) (p : IceCandidatePair) (pairs : List IceCandidatePair) where
  abbrev Found : Type 0
  Found = Finds (suc n) i (p ∷ pairs)

  in_state :
      (s : IceCandidateState)
      → p.state ≡ s
      → select_loop (suc n) i (p ∷ pairs) ≡ visit s i p pairs (select_loop n (suc i) pairs)
  unfolding select_loop
  in_state s f = ap (λ (t : IceCandidateState). visit t i p pairs (select_loop n (suc i) pairs)) f

  after_failed :
      (rest : List IceCandidatePair) (choice : Choice)
      → select_loop n (suc i) pairs ≡ some (rest, choice)
      → visit failed i p pairs (select_loop n (suc i) pairs) ≡ some (p ∷ rest, choice)
  unfolding visit
  after_failed rest choice e = rw e refl

  after_waiting :
      (rest : List IceCandidatePair) (choice : Choice)
      → select_loop n (suc i) pairs ≡ some (rest, choice)
      → visit waiting i p pairs (select_loop n (suc i) pairs) ≡ some (p ∷ rest, choice)
  unfolding visit
  after_waiting rest choice e = rw e refl

  after_tried :
      (rest : List IceCandidatePair) (choice : Choice)
      → ltb (suc p.conncheck) agent_conncheck_max ≡ false
      → select_loop n (suc i) pairs ≡ some (rest, choice)
      → visit inprogress i p pairs (select_loop n (suc i) pairs)
        ≡ some (record p { conncheck = suc p.conncheck; state = failed } ∷ rest, choice)
  unfolding visit
  after_tried rest choice test e = rw (test, e) refl

  trying :
      ltb (suc p.conncheck) agent_conncheck_max ≡ true
      → visit inprogress i p pairs (select_loop n (suc i) pairs)
        ≡ some (record p { conncheck = suc p.conncheck } ∷ pairs, wait i)
  unfolding visit
  trying test = rw test refl

  -- The pair is passed over, as `q`.
  pass :
      (q : IceCandidatePair)
      → IsOver q
      → Finds n (suc i) pairs
      → ((rest : List IceCandidatePair) (choice : Choice)
          → select_loop n (suc i) pairs ≡ some (rest, choice)
          → select_loop (suc n) i (p ∷ pairs) ≡ some (q ∷ rest, choice))
      → Found
  unfolding weights
  pass q over (rest, choice, e, s) step =
      let nothing : weight q.state q.conncheck ≡ 0 = elim over [
        | inl f ↦ unfold weight in rw f refl
        | inr f ↦ unfold weight in rw f refl
      ] in
      (
        q ∷ rest,
        choice,
        step rest choice e,
        record {
          same_length = ap suc s.same_length;
          still_open = (inl over, s.still_open);
          ended = elim s.ended [
            | inl (e', overs) ↦ inl (e', (over, overs))
            | inr (stop, less) ↦ inr (stop, omega (arith, nothing))
          ];
        },
      )

  pass_over : IsOver p → Finds n (suc i) pairs → Found
  pass_over over further = pass p over further (λ rest choice e. elim over [
    | inl f ↦ in_state failed f ∙ after_failed rest choice e
    | inr f ↦ in_state waiting f ∙ after_waiting rest choice e
  ])

  find_frozen : p.state ≡ frozen → AllFirst IsOpen n pairs → Found
  unfolding visit weights weight
  find_frozen f untried = (
    record p { conncheck = 0; state = inprogress } ∷ pairs,
    nominate i,
    in_state frozen f,
    record {
      same_length = refl;
      still_open = (inr (inr refl), untried);
      ended = inr ((i, inl refl), rw f (omega arith));
    },
  )

  find_waiting : p.state ≡ inprogress → suc p.conncheck < 1000 → AllFirst IsOpen n pairs → Found
  unfolding weights weight
  find_waiting f early untried =
      let test : ltb (suc p.conncheck) agent_conncheck_max ≡ true = ground arith in
      (
        record p { conncheck = suc p.conncheck } ∷ pairs,
        wait i,
        in_state inprogress f ∙ trying test,
        record {
          same_length = refl;
          still_open = (inr (inr f), untried);
          ended = inr ((i, inr refl), rw f (omega arith));
        },
      )

  find_failed : p.state ≡ inprogress → 1000 ≤ suc p.conncheck → Finds n (suc i) pairs → Found
  find_failed f late further =
      let test : ltb (suc p.conncheck) agent_conncheck_max ≡ false = ground arith in
      pass (record p { conncheck = suc p.conncheck; state = failed }) (inl refl) further
        (λ rest choice e. in_state inprogress f ∙ after_tried rest choice test e)

-- The loop stops at a pair that is not answered yet, or has failed them all.
search_pairs :
    (n i : ℕ) (pairs : List IceCandidatePair)
    → n ≤ length pairs
    → AllFirst IsOpen n pairs
    → Finds n i pairs
unfolding select_loop
search_pairs zero i pairs room untried =
    (pairs, give_up, refl, record { same_length = refl; still_open = tt; ended = inl (refl, tt) })
search_pairs (suc n) i [] room untried = absurd (omega arith)
search_pairs (suc n) i (p ∷ pairs) room (untried, opens) =
    let further = search_pairs n (suc i) pairs (omega arith) opens in
    elim untried [
      | inl over ↦ pass_over n i p pairs over further
      | inr (inl f) ↦ find_frozen n i p pairs f opens
      | inr (inr f) ↦ elim (dec_lt (suc p.conncheck) 1000) [
        | yes early ↦ find_waiting n i p pairs f early opens
        | no late ↦ find_failed n i p pairs f (omega arith) further
      ]
    ]

-- agent_select_candidate_pair called until it returns -1, `fuel` times at most.
unfoldable pub retry : ℕ → Agent → Option (Agent × Bool)
retry zero agent = some (agent, true)
retry (suc fuel) agent = do
  chosen ← agent_select_candidate_pair agent
  let rest = retry fuel chosen.0
  if chosen.1 then rest else some chosen

-- What the calls leave: every pair in use has failed or is never tried.
abbrev pub GivesUp : ℕ → Agent → Type 0
GivesUp fuel agent =
    (agent' : Agent) × (retry fuel agent ≡ some (agent', false))
    × AllFirst IsOver agent'.candidate_pairs_num agent'.candidate_pairs

stopped :
    (agent : Agent) (choice : Choice)
    → IsStop choice
    → (agent' : Agent) × (choose agent choice ≡ (agent', true))
      × (agent'.candidate_pairs ≡ agent.candidate_pairs)
      × (agent'.candidate_pairs_num ≡ agent.candidate_pairs_num)
unfolding choose
stopped agent choice (i, inl e) = rw e (record agent { nominated_pair = some i }, refl, refl, refl)
stopped agent choice (i, inr e) = rw e (agent, refl, refl, refl)

gave_up :
    (agent : Agent) (choice : Choice)
    → choice ≡ give_up
    → some (choose agent choice) ≡ some (agent, false)
unfolding choose
gave_up agent choice e = rw e refl

select_by :
    (agent : Agent) (pairs : List IceCandidatePair) (choice : Choice)
    → select_loop agent.candidate_pairs_num 0 agent.candidate_pairs ≡ some (pairs, choice)
    → agent_select_candidate_pair agent
      ≡ some (choose (record agent { candidate_pairs = pairs }) choice)
unfolding agent_select_candidate_pair
select_by agent pairs choice e = rw e refl

retry_again :
    (fuel : ℕ) (agent agent' : Agent)
    → agent_select_candidate_pair agent ≡ some (agent', true)
    → retry (suc fuel) agent ≡ retry fuel agent'
unfolding retry
retry_again fuel agent agent' e = rw e refl

retry_done :
    (fuel : ℕ) (agent agent' : Agent)
    → agent_select_candidate_pair agent ≡ some (agent', false)
    → retry (suc fuel) agent ≡ some (agent', false)
unfolding retry
retry_done fuel agent agent' e = rw e refl

retry_fuel :
    (fuel : ℕ) (agent : Agent)
    → agent.candidate_pairs_num ≤ length agent.candidate_pairs
    → AllFirst IsOpen agent.candidate_pairs_num agent.candidate_pairs
    → weights agent.candidate_pairs_num agent.candidate_pairs < fuel
    → GivesUp fuel agent
retry_fuel zero agent room untried enough = absurd (omega arith)
retry_fuel (suc fuel) agent room untried enough =
    let (pairs, choice, e, s) =
      search_pairs agent.candidate_pairs_num 0 agent.candidate_pairs room untried in
    let after = record agent { candidate_pairs = pairs } in
    let found = select_by agent pairs choice e in
    elim s.ended [
      | inl (e', overs) ↦
          (after, retry_done fuel agent after (found ∙ gave_up after choice e'), overs)
      | inr (stop, less) ↦
          let (agent', e', same, count) = stopped after choice stop in
          let (last, ends, overs) =
            retry_fuel fuel agent' (rw (same, count) (omega (arith, s.same_length)))
              (rw (same, count) s.still_open) (rw (same, count) (omega arith)) in
          (last, retry_again fuel agent agent' (found ∙ ap some e') ∙ ends, overs)
    ]

-- Take an agent whose array holds its pairs, none of which has succeeded. If nothing comes in from outside,
-- agent_select_candidate_pair returns -1 after at most 1001 calls for each pair and one more, and then every
-- pair in use is in the state FAILED, or in WAITING.
pub agent_select_candidate_pair-GivesUp :
    (agent : Agent)
    → agent.candidate_pairs_num ≤ length agent.candidate_pairs
    → AllFirst IsOpen agent.candidate_pairs_num agent.candidate_pairs
    → GivesUp (suc (1001 * agent.candidate_pairs_num)) agent
agent_select_candidate_pair-GivesUp agent room untried =
    retry_fuel (suc (1001 * agent.candidate_pairs_num)) agent room untried
      (omega (arith, weights_bound agent.candidate_pairs_num agent.candidate_pairs))
