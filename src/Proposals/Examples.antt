-- ===== src/Proposals/Examples.antt =====
-- The theorems on proposals at concrete agents, and a run.
use a2a_comms.Common.{Distinct, ◌≤◌, ◌≡◌, refl, false, none, some, List, [], ◌∷◌, codes}
use a2a_comms.Common.Json.{text, item, no_items}
use a2a_comms.Trust.{evaluate_generic_contract_invite, evaluate_observer_access, Column}
use a2a_comms.Trust.Contracts.{blocked_targets}
use a2a_comms.Contract.{Contract}
use a2a_comms.Contract.Store.{select_contract, Store, Reply, reply}
use a2a_comms.Proposals.{
  default_contract_expiry, open_contracts, AgentRow, ProposeContractRequest, Clock, Proposal,
}
use a2a_comms.Proposals.Create.{recheck, proposal_for, create_contract_proposal}
use a2a_comms.Proposals.Limits.{first_gap, IsFresh}
use a2a_comms.Proposals.Bounds.{proposal_within_limit, limit_overrun, proposed_turns_bounded}
use a2a_comms.Proposals.Participants.{nobody_proposed_twice}
use a2a_comms.Contract.History.{spent}
use a2a_comms.Contract.Routes.{accept}
use a2a_comms.Contract.Interleavings.{accepts, rests}

abbrev ann : AgentRow
ann = record {
  policy = record {
    id = "a1";
    name = "ann";
    owner_user_id = Column.text "u1";
    trust_tier = Column.text "internal";
  };
  name = codes "ann";
  max_concurrent_contracts = some 1;
}

abbrev bob : AgentRow
bob = record {
  policy = record {
    id = "b1";
    name = "bob";
    owner_user_id = Column.text "u2";
    trust_tier = Column.text "internal";
  };
  name = codes "bob";
  max_concurrent_contracts = none;
}

abbrev cy : AgentRow
cy = record bob { policy = record bob.policy { id = "c1"; name = "cy" }; name = codes "cy" }

abbrev agents : List AgentRow
agents = ann ∷ bob ∷ cy ∷ []

abbrev terms : ProposeContractRequest
terms = record {
  title = codes "work";
  invitees = some (item (text (codes " bob ")) (item (text (codes "bob")) no_items));
  observers = item (text (codes "cy")) no_items;
  description = none;
  expires_in_hours = none;
  max_turns = some 4;
  completion_requires_approval = false;
  unlinked_reason = none;
}

abbrev clock : Clock
clock = record { hours = λ s. none }

abbrev empty_store : Store
empty_store = record {
  contracts = [];
  participants = [];
  links = [];
  messages = [];
  questions = [];
  deliveries = [];
  audit_log = [];
}

abbrev proposal : Proposal
proposal = proposal_for 10 "k1" ann terms (record {
  invitees = bob ∷ [];
  observers = cy ∷ [];
  invitee_names = codes "bob" ∷ [];
  observer_names = codes "cy" ∷ [];
  description = none;
  window = default_contract_expiry;
})

abbrev proposes : (Store → Store) → Store → Reply Proposal × Store
proposes others s = create_contract_proposal clock agents (first_gap others) 10 "k1" ann terms s

goes_through : (proposes (λ t. t) empty_store).0 ≡ reply proposal
unfolding create_contract_proposal recheck blocked_targets evaluate_generic_contract_invite
    evaluate_observer_access
goes_through = refl

nothing_yet : IsFresh "k1" empty_store
nothing_yet = record { no_contract = refl; no_participant = refl }

proposal_within_limit_example : open_contracts "a1" (proposes (λ t. t) empty_store).1 ≤ 1
proposal_within_limit_example =
    proposal_within_limit clock agents 10 "k1" ann terms empty_store proposal 0 goes_through refl
      nothing_yet

-- Another proposal of the same agent, made as a whole.
abbrev meanwhile : Store → Store
meanwhile s = (create_contract_proposal clock agents (first_gap (λ t. t)) 9 "k2" ann terms s).1

both_pass :
    (IsFresh "k1" (meanwhile empty_store)) × (open_contracts "a1" (meanwhile empty_store) ≡ 1)
unfolding create_contract_proposal recheck blocked_targets evaluate_generic_contract_invite
    evaluate_observer_access
both_pass = (record { no_contract = refl; no_participant = refl }, refl)

limit_overrun_example :
    ((proposes meanwhile empty_store).0 ≡ reply proposal)
    × (open_contracts "a1" (proposes meanwhile empty_store).1 ≡ 2)
limit_overrun_example =
    limit_overrun clock agents meanwhile 10 "k1" ann terms empty_store proposal 0 goes_through refl
      nothing_yet both_pass.0 both_pass.1

-- The contract, accepted by its invitee.
abbrev accepted_store : Store
accepted_store =
    (accept (λ n t. t) 20 (record { id = "b1"; name = "bob" }) "k1"
      (proposes (λ t. t) empty_store).1).1

proposed_turns_bounded_example :
    (d : Contract) × (select_contract "k1" accepted_store.contracts ≡ some d)
    × (d.current_turns ≡ spent "k1" accepted_store.messages)
    × (spent "k1" accepted_store.messages ≤ 4)
proposed_turns_bounded_example =
    proposed_turns_bounded clock agents 10 "k1" ann terms empty_store accepted_store proposal
      goes_through nothing_yet refl
      (accepts (λ n t. t) 20 (record { id = "b1"; name = "bob" }) "k1" _ (λ n t. rests))

nobody_proposed_twice_example : Distinct ("a1" ∷ "b1" ∷ "c1" ∷ [])
nobody_proposed_twice_example =
    nobody_proposed_twice clock agents (first_gap (λ t. t)) 10 "k1" ann terms empty_store proposal
      (refl, (refl, (refl, tt))) refl goes_through
