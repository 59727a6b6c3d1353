-- ===== src/Agent/Tests.antt =====
-- Two agents, candidates and messages to try the ICE agent and the STUN codec on.
use libpeer.Base.{
  ℕ, ◌^◌, ◌<◌, ◌≤◌, refl, inl, inr, none, some, List, [], ◌∷◌, length, replicate, arith, All, zero,
  suc,
}
use libpeer.Base.Word.{IsByte}
use libpeer.Address.{Address, af_inet, af_inet6}
use libpeer.Stun.Message.{StunMessage}
use libpeer.Stun.Write.{c_string}
use libpeer.Stun.Accept.{IsMessage}
use libpeer.Stun.MappedRoundTrip.{Restores, stun_get_mapped_address-stun_set_mapped_address}
use libpeer.Agent.State.{
  Agent, IceCandidatePair, frozen, inprogress, controlled, controlling, IceCandidate, host, srflx,
}
use libpeer.Agent.Messages.{name_pair}
use libpeer.Agent.Receive.{Locals}
use libpeer.Agent.Handshake.{IsLocals}
use libpeer.Agent.Completes.{Handshakes, agent_recv_handshake}
use libpeer.Agent.GiveUp.{GivesUp, agent_select_candidate_pair-GivesUp}
use libpeer.Ice.{ice_candidate_create, ice_candidate_type_preference}
use libpeer.Ice.Order.{ice_candidate_create-priority}

abbrev pub endpoint : Address
endpoint = record {
  family = af_inet;
  sin_addr = 192 ∷ 168 ∷ 1 ∷ 7 ∷ [];
  sin_port = 0xc3 ∷ 0x50 ∷ [];
  sin6_addr = replicate 16 0;
  sin6_port = 0 ∷ 0 ∷ [];
  port = 50000;
}

abbrev pub endpoint6 : Address
endpoint6 = record endpoint { family = af_inet6; sin6_addr = 0x20 ∷ 0x01 ∷ replicate 14 9 }

abbrev pub blank : StunMessage
blank = record {
  stunclass = 0;
  stunmethod = 0;
  fingerprint = replicate 4 7;
  message_integrity = replicate 20 7;
  username = replicate 128 7;
  realm = replicate 64 7;
  nonce = replicate 64 7;
  mapped_addr = endpoint;
  relayed_addr = endpoint;
  buf = replicate 256 7;
  size = 0;
}

blank-IsMessage : IsMessage blank
blank-IsMessage = record { buf_size = refl; code_size = refl; print_size = refl }

abbrev pub stack : Locals
stack = record {
  incoming = blank;
  checked = blank;
  reply = blank;
  username = replicate 584 7;
  mapped_address = replicate 32 7;
}

pub stack-IsLocals : IsLocals stack
stack-IsLocals = record {
  incoming = blank-IsMessage;
  checked = blank-IsMessage;
  reply_buf = refl;
  reply_name = refl;
  name_array = refl;
  address_array = refl;
}

abbrev pub pair : IceCandidatePair
pair = record { state = inprogress; local = 0; remote = 0; conncheck = 0; priority = 300 }

abbrev pub caller : Agent
caller = record {
  remote_ufrag = 98 ∷ 50 ∷ 0 ∷ [];
  remote_upwd = 112 ∷ 119 ∷ 0 ∷ 1 ∷ [];
  local_ufrag = 97 ∷ 49 ∷ 0 ∷ [];
  local_upwd = 113 ∷ 0 ∷ [];
  local_candidates = [];
  remote_candidates = [];
  local_candidates_count = 0;
  remote_candidates_count = 0;
  binding_request_time = 0;
  mode = controlling;
  candidate_pairs = pair ∷ record pair { state = frozen; remote = 1 } ∷ [];
  selected_pair = none;
  nominated_pair = some 0;
  candidate_pairs_num = 2;
  transaction_id = replicate 12 0;
}

abbrev pub callee : Agent
callee = record caller {
  remote_ufrag = 97 ∷ 49 ∷ 0 ∷ [];
  remote_upwd = 113 ∷ 0 ∷ [];
  local_ufrag = 98 ∷ 50 ∷ 0 ∷ [];
  local_upwd = 112 ∷ 119 ∷ 0 ∷ [];
  mode = controlled;
}

-- A code that is of the right size.
abbrev pub code : List ℕ → List ℕ → List ℕ
code key message = replicate 20 (length message)

pub short_name : length (name_pair caller.remote_ufrag caller.local_ufrag) ≤ 128
unfolding name_pair c_string
short_name = omega arith

replicate-IsByte : (n b : ℕ) → b < 256 → All IsByte (replicate n b)
replicate-IsByte zero b h = tt
replicate-IsByte (suc n) b h = (h, replicate-IsByte n b h)

agent_recv_handshake_example :
    Handshakes
      (λ key. key)
      code
      caller
      callee
      stack
      stack
      blank
      (replicate 8 5)
      0
      1400
      10
      11
      pair
      endpoint
      endpoint6
unfolding c_string
agent_recv_handshake_example =
    agent_recv_handshake (λ key. key) code (λ key message. refl) caller callee stack stack blank
      (replicate 8 5) 0 1400 10 11 pair endpoint endpoint6 stack-IsLocals stack-IsLocals refl refl
      refl refl short_name short_name (record { four = refl; sixteen = refl }) (omega arith)

agent_select_candidate_pair-GivesUp_example : GivesUp 2003 caller
agent_select_candidate_pair-GivesUp_example =
    agent_select_candidate_pair-GivesUp caller (omega arith) (inr (inr refl), (inr (inl refl), tt))

stun_get_mapped_address-stun_set_mapped_address_example :
    Restores (replicate 32 7) (33 ∷ 18 ∷ 164 ∷ 66 ∷ replicate 12 5) endpoint6 endpoint
stun_get_mapped_address-stun_set_mapped_address_example =
    stun_get_mapped_address-stun_set_mapped_address (replicate 32 7)
      (33 ∷ 18 ∷ 164 ∷ 66 ∷ replicate 12 5) endpoint6 endpoint (omega arith) (omega arith)
      (
        omega arith,
        (omega arith, (omega arith, (omega arith, replicate-IsByte 12 5 (omega arith)))),
      )
      (record { four = refl; sixteen = refl }) (omega arith)
      (omega arith, (omega arith, (omega arith, (omega arith, tt))))
      (omega arith, (omega arith, replicate-IsByte 14 9 (omega arith)))

abbrev candidate : IceCandidate
candidate = record {
  foundation = [];
  component = 0;
  priority = 0;
  transport = [];
  type = host;
  addr = endpoint;
}

ice_candidate_create-priority_example :
    ((ice_candidate_create candidate (49 ∷ []) srflx endpoint).priority
      < (ice_candidate_create candidate (50 ∷ []) host endpoint6).priority)
    × ((ice_candidate_create candidate (50 ∷ []) host endpoint6).priority < 2 ^ 31)
unfolding ice_candidate_type_preference
ice_candidate_create-priority_example =
    ice_candidate_create-priority candidate candidate (49 ∷ []) (50 ∷ []) srflx host endpoint
      endpoint6 (omega arith) (omega arith) (inl (omega arith))
