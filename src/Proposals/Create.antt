-- ===== src/Proposals/Create.antt =====
-- `createContractProposal` of src/lib/contract-proposals.ts, with what it writes. Of the row of a
-- contract the texts that no rule reads (title, description, reason) are returned in the proposal.
-- `others n` is what other requests do before the statement after the n-th; the inserts are accepted.
use a2a_comms.Common.{
  ℕ, String, not, Option, none, some, List, ◌∷◌, ◌++◌, map, ◌==◌, eqb, if◌then◌else◌, get_or,
  length, filter, any, Text, trim,
}
use a2a_comms.Contract.{Contract, Participant, max_contracts_reached}
use a2a_comms.Contract.Store.{
  Action, pure, gets, modify, guard, ◌>>=◌, ◌>>◌, audit, contract_propose, Store, refuse, reply,
}
use a2a_comms.Proposals.{
  open_contracts, reached, exceeded, new_contract, new_participants, check_request, AgentRow,
  ProposeContractRequest, Clock, Proposal, Settled,
}

unfoldable pub insert_contract : Contract → Store → Store
insert_contract c s = record s { contracts = c ∷ s.contracts }

unfoldable pub insert_participants : List Participant → Store → Store
insert_participants ps s = record s { participants = ps ++ s.participants }

unfoldable pub delete_contract : String → Store → Store
delete_contract id s = record s { contracts = filter (λ c. not (c.id == id)) s.contracts }

-- The check after the insert: past the limit the contract is deleted again.
unfoldable pub recheck : String → Option ℕ → (count : ℕ) → Action (Unit {0})
unfolding delete_contract
recheck id limit count s =
    if exceeded limit count
    then (refuse 409 max_contracts_reached, delete_contract id s)
    else (reply tt, s)

-- The limits, read before anything is written.
unfoldable pub check_limits : AgentRow → List AgentRow → Action (Unit {0})
unfolding open_contracts ◌>>=◌
check_limits actor invitees = do
  mine ← gets (open_contracts actor.policy.id)
  guard (not (reached actor.max_concurrent_contracts mine)) 409 max_contracts_reached
  full ←
      gets
        (λ s. any (λ a. reached a.max_concurrent_contracts (open_contracts a.policy.id s)) invitees)
  guard (not full) 409 max_contracts_reached

abbrev pub contract_for : ℕ → String → AgentRow → ProposeContractRequest → Settled → Contract
contract_for now id actor q x =
    new_contract now id actor (get_or q.max_turns 50) x.window q.completion_requires_approval

abbrev pub participants_for : ℕ → String → AgentRow → Settled → List Participant
participants_for now id actor x = new_participants now id actor x.invitees x.observers

abbrev trimmed_reason : Option Text → Option Text
trimmed_reason none = none
trimmed_reason (some r) = if eqb (length (trim r)) 0 then none else some (trim r)

abbrev pub proposal_for : ℕ → String → AgentRow → ProposeContractRequest → Settled → Proposal
proposal_for now id actor q x = record {
  contract = contract_for now id actor q x;
  participants = participants_for now id actor x;
  title = q.title;
  description = x.description;
  unlinked_reason = trimmed_reason q.unlinked_reason;
  invitee_owner_ids = map (λ a. a.policy.owner_user_id) x.invitees;
}

-- The statements that write.
unfoldable pub write_proposal :
    (ℕ → Store → Store) → ℕ → String → AgentRow → ProposeContractRequest → Settled → Action Proposal
unfolding insert_contract insert_participants audit open_contracts trim ◌>>=◌
write_proposal others now id actor q x = do
  modify (others 0)
  modify (insert_contract (contract_for now id actor q x))
  modify (others 1)
  count ← gets (open_contracts actor.policy.id)
  recheck id actor.max_concurrent_contracts count
  modify (others 2)
  modify (insert_participants (participants_for now id actor x))
  modify (
      audit actor.policy.name
        (contract_propose q.title x.invitee_names x.observer_names (get_or q.max_turns 50)) id)
  pure (proposal_for now id actor q x)

unfoldable pub create_contract_proposal :
    Clock
    → List AgentRow
    → (others : ℕ → Store → Store) → ℕ
    → String
    → AgentRow
    → ProposeContractRequest
    → Action Proposal
unfolding check_request check_limits write_proposal ◌>>=◌
create_contract_proposal k agents others now id actor q = do
  x ← check_request k agents actor q
  check_limits actor x.invitees
  write_proposal others now id actor q x
