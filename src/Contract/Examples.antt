-- ===== src/Contract/Examples.antt =====
-- Runs of the contract routes, and their laws at concrete stores.
use a2a_comms.Contract.Policy.{evaluate_contract_participant_mutation}
use a2a_comms.Common.{
  ℕ, String, ◌≡◌, refl, ◌⊎◌, inl, inr, Bool, true, false, none, some, [], ◌∷◌, map, eqb,
  if◌then◌else◌, Bool-cases,
}
use a2a_comms.Contract.{
  is_proposed, is_active, is_proposer, is_observer, proposed, active, expired, cancelled,
  ParticipantRole, proposer, invitee, ParticipantStatus, pending, accepted,
  expired_before_activation, Contract, Participant,
}
use a2a_comms.Contract.Store.{
  ◌>>=◌, select_contract, update_contract, update_participant, deliver, audit, Store, Caller, reply,
}
use a2a_comms.Contract.History.{Follows}
use a2a_comms.Contract.Outcomes.{cancel_outcome}
use a2a_comms.Contract.Routes.{
  get_participant, enforce, expire, auto_close_if_expired, activate_if_all_accepted,
  announce_accepted, accept, cancel_contract, cancel,
}
use a2a_comms.Contract.Close.{
  CloseBody, CloseContractRequest, close, close_contract, reason_for_close,
}
use a2a_comms.Contract.Closure.{GatedCloseDecision}
use a2a_comms.Contract.Outcomes.{is_reply}
use a2a_comms.Contract.CloseOutcome.{request_of, gate_of, close_outcome}
use a2a_comms.Contract.Interleavings.{
  Runs, life_cycle_kept, expiry_overwrites, rests, accepts, cancels,
}

abbrev pub deal : Contract
deal = record {
  id = "c1";
  status = proposed;
  proposer_id = "a1";
  max_turns = 4;
  current_turns = 0;
  close_reason = none;
  closed_by = none;
  closed_by_kind = none;
  expires_at = some 100;
  closed_at = none;
  completion_requires_approval = false;
  completion_approved_at = none;
  completion_approved_by = none;
  closed_without_approval = false;
  updated_at = 0;
}

abbrev pub party : String → ParticipantRole → ParticipantStatus → Participant
party id role st = record {
  contract_id = "c1";
  agent_id = id;
  role = role;
  status = st;
  responded_at = none;
}

abbrev pub offered : Store
offered = record {
  contracts = deal ∷ [];
  participants = party "a1" proposer accepted ∷ party "b1" invitee pending ∷ [];
  links = [];
  messages = [];
  questions = [];
  deliveries = [];
  audit_log = [];
}

abbrev pub alpha : Caller
alpha = record { id = "a1"; name = "alpha" }

abbrev pub beta : Caller
beta = record { id = "b1"; name = "beta" }

-- Alpha cancels.
abbrev cancelled_meanwhile : Store → Store
cancelled_meanwhile s = (cancel (λ t. t) 50 alpha "c1" s).1

-- While beta's acceptance is being written, alpha cancels.
abbrev at_the_write : ℕ → Store → Store
at_the_write n s = if eqb n 3 then cancelled_meanwhile s else s

abbrev raced : Store
raced = (accept at_the_write 60 beta "c1" offered).1

raced_status : map (λ c. c.status) raced.contracts ≡ cancelled ∷ []
unfolding evaluate_contract_participant_mutation accept cancel ◌>>=◌ auto_close_if_expired
    activate_if_all_accepted update_contract update_participant enforce get_participant deliver
    audit announce_accepted
raced_status = refl

at_the_write-Runs : (n : ℕ) (t : Store) → Runs t (at_the_write n t)
at_the_write-Runs n t = elim (Bool-cases (eqb n 3)) [
  | inl there ↦ rw there (cancels (λ u. u) 50 alpha "c1" t (λ u. rests))
  | inr elsewhere ↦ rw elsewhere rests
]

life_cycle_kept_example : Follows offered raced
life_cycle_kept_example =
    life_cycle_kept offered raced (accepts at_the_write 60 beta "c1" offered at_the_write-Runs)

-- The contract is read as proposed, past its date; before the write alpha cancels it.
late_cancel :
    select_contract "c1" (cancelled_meanwhile offered).contracts
    ≡ some (cancel_contract 50 alpha deal)
unfolding evaluate_contract_participant_mutation cancel ◌>>=◌ update_contract enforce
    get_participant deliver audit
late_cancel = refl

expiry_overwrites_example :
    select_contract "c1" (auto_close_if_expired cancelled_meanwhile 200 deal offered).1.contracts
    ≡ some (expire 200 expired expired_before_activation (cancel_contract 50 alpha deal))
expiry_overwrites_example =
    expiry_overwrites cancelled_meanwhile 200 deal (cancel_contract 50 alpha deal) offered refl
      late_cancel

-- The deal, gated and under way.
abbrev pub under_way : Store
under_way = record offered {
  contracts = record deal { status = active; completion_requires_approval = true } ∷ [];
}

abbrev refusal : CloseBody
refusal = CloseBody.parsed (record { reason = none; without_approval = true })

close_outcome_example :
    ((p : Participant) × (c : Contract) × (r : CloseContractRequest) × (w : Bool) × (get_participant
          "c1" alpha.id under_way
        ≡ some p)
      × (is_observer p.role ≡ false)
      × (select_contract "c1" under_way.contracts ≡ some c)
      × (is_active c.status ≡ true)
      × (request_of refusal ≡ some r)
      × (gate_of c alpha r ≡ GatedCloseDecision.allowed w)
      × ((close (λ t. t) 70 alpha "c1" refusal under_way).0
          ≡ reply (some (close_contract 70 alpha (reason_for_close alpha r.reason) w c))))
    ⊎ ((is_reply (close (λ t. t) 70 alpha "c1" refusal under_way).0 ≡ false)
        × ((close (λ t. t) 70 alpha "c1" refusal under_way).1 ≡ under_way))
close_outcome_example = close_outcome 70 alpha "c1" refusal under_way

cancel_outcome_example :
    ((p : Participant) × (c : Contract) × (get_participant "c1" alpha.id offered ≡ some p)
      × (is_proposer p.role ≡ true)
      × (select_contract "c1" offered.contracts ≡ some c)
      × (is_proposed c.status ≡ true)
      × ((cancel (λ t. t) 50 alpha "c1" offered).0 ≡ reply (some (cancel_contract 50 alpha c))))
    ⊎ ((is_reply (cancel (λ t. t) 50 alpha "c1" offered).0 ≡ false)
        × ((cancel (λ t. t) 50 alpha "c1" offered).1 ≡ offered))
cancel_outcome_example = cancel_outcome 50 alpha "c1" offered
