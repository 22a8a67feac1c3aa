-- ===== src/Contract/Routes.antt =====
-- The routes under src/app/api/v1/contracts/[id]/ that move a contract, and the helpers they share
-- (src/app/api/v1/contracts/_helpers.ts). `others` is what other requests do to the store between
-- a route's reads and its guarded write; the identity is a run with no one else. Accepting and
-- rejecting have several such gaps, which are numbered; the contract's read and its expiry check are
-- one step.
use a2a_comms.Common.{
  ℕ, String, Bool, false, ◌&&◌, ◌||◌, Option, none, some, List, [], ◌∷◌, map, ◌==◌, ltb,
  if◌then◌else◌, get_or, is_some, filter, every,
}
use a2a_comms.Contract.{
  is_proposed, is_active, is_invitee, is_pending, is_accepted, ContractStatus, proposed, active,
  expired, closed, cancelled, ClosedByKind, CloseReason, expired_before_activation,
  expired_while_active, cancelled_by_name, rejected_by_name, Contract, Participant,
  ParticipantStatus, not_found, already_responded, invalid_state, conflict,
}
use a2a_comms.Contract.Store.{
  Action, pure, ◌>>=◌, ◌>>◌, gets, modify, guard, require, select_contract, select_participant,
  participants_of, update_contract, update_participant, deliver, audit, emit_contract_closed,
  contract_accepted, contract_rejected, contract_cancelled, contract_accept, contract_reject,
  contract_cancel, Store, Caller, refuse, reply,
}
use a2a_comms.Contract.Policy
use a2a_comms.Contract.Policy.{ContractMutationAction, evaluate_contract_participant_mutation}
use a2a_comms.Contract.Turns.{TurnStateParticipant, derive_contract_turn_state}

unfoldable pub get_participant : String → String → Store → Option Participant
get_participant id agent_id s = select_participant id agent_id s.participants

-- A refusal of the policy ends the request with its status and code.
unfoldable pub enforce : Policy.ContractParticipantPolicyDecision → Action (Unit {0})
enforce Policy.ContractParticipantPolicyDecision.allowed s = (reply tt, s)
enforce (Policy.ContractParticipantPolicyDecision.refused st code) s = (refuse st code, s)

abbrev pub check_policy : ContractMutationAction → Participant → Action (Unit {0})
check_policy a p = enforce (evaluate_contract_participant_mutation a p.role p.status)

abbrev passed : ℕ → Option ℕ → Bool
passed now none = false
passed now (some t) = ltb t now

abbrev pub expiry_status : ContractStatus → ContractStatus
expiry_status proposed = expired
expiry_status _ = closed

abbrev pub expiry_reason : ContractStatus → CloseReason
expiry_reason proposed = expired_before_activation
expiry_reason _ = expired_while_active

abbrev pub expire : ℕ → ContractStatus → CloseReason → Contract → Contract
expire now st why c = record c {
  status = st;
  close_reason = some why;
  closed_by = some "system:expiry";
  closed_by_kind = some ClosedByKind.system;
  closed_at = some now;
  updated_at = now;
}

abbrev pub is_due : ℕ → Contract → Bool
is_due now c = (is_proposed c.status || is_active c.status) && passed now c.expires_at

-- The write goes by the id alone: it has no guard on the status.
unfoldable pub auto_close_if_expired : (Store → Store) → ℕ → Contract → Action Contract
auto_close_if_expired others now c =
    let st = expiry_status c.status in
    let why = expiry_reason c.status in
    let close = do
      modify others
      updated ← update_contract (λ r. r.id == c.id) (expire now st why)
      let ended = get_or updated (record c { status = st; close_reason = some why })
      modify (
          emit_contract_closed c.id st (some "system:expiry") (some ClosedByKind.system) (some why)
            ended false)
      pure ended
    in if is_due now c then close else pure c

-- `participants.every(accepted)`, on at least one row.
abbrev pub all_accepted : List Participant → Bool
all_accepted [] = false
all_accepted (p ∷ ps) = every (λ q. is_accepted q.status) (p ∷ ps)

-- The guarded write: only a contract that is still in status `st` is changed.
abbrev pub still : (ContractStatus → Bool) → String → Contract → Bool
still test id c = c.id == id && test c.status

abbrev pub activate : ℕ → Contract → Contract
activate now c = record c { status = active; updated_at = now }

unfoldable pub activate_if_all_accepted : (ℕ → Store → Store) → ℕ → String → Action Bool
activate_if_all_accepted others now id = do
  modify (others 2)
  ps ← gets (λ s. participants_of id s.participants)
  let write = do
    modify (others 3)
    activated ← update_contract (still is_proposed id) (activate now)
    pure (is_some activated)
  if all_accepted ps then write else pure false

-- The answer of an invitee, written only over an answer that is still pending.
abbrev pub still_pending : String → String → Participant → Bool
still_pending id agent_id p = p.contract_id == id && p.agent_id == agent_id && is_pending p.status

abbrev pub answer : ParticipantStatus → ℕ → Participant → Participant
answer st now p = record p { status = st; responded_at = some now }

abbrev as_turn_participant : Participant → TurnStateParticipant
as_turn_participant p = record {
  agent_id = p.agent_id;
  role = p.role;
  status = p.status;
  name = none;
}

-- The part of the route that tells everyone the contract is active, and who opens it.
unfoldable pub announce_accepted : Caller → String → Contract → Store → Store
unfolding deliver
announce_accepted auth id contract s =
    let ps = participants_of id s.participants in
    let opens =
      derive_contract_turn_state (record contract { status = active }) auth.id
        (map as_turn_participant ps) none [] in
    deliver (map (λ p. p.agent_id) ps) (contract_accepted auth.name opens.awaiting_agent_id) id s

-- On activation the route also updates the task tables of a handoff or a brokerage contract; they
-- are no part of this store.
unfoldable pub accept : (ℕ → Store → Store) → ℕ → Caller → String → Action (Option Contract)
accept others now auth id = do
  found ← gets (get_participant id auth.id)
  participant ← require found 404 not_found
  check_policy ContractMutationAction.accept participant
  modify (others 0)
  row ← gets (λ s. select_contract id s.contracts)
  contract ← require row 404 not_found
  checked ← auto_close_if_expired (λ s. s) now contract
  guard (is_proposed checked.status) 409 invalid_state
  modify (others 1)
  answered ← update_participant (still_pending id auth.id) (answer ParticipantStatus.accepted now)
  responded ← require answered 409 already_responded
  activated ← activate_if_all_accepted others now id
  modify (λ s. if activated then announce_accepted auth id contract s else s)
  modify (audit auth.name (contract_accept activated) id)
  gets (λ s. select_contract id s.contracts)

abbrev pub reject_contract : ℕ → Caller → Contract → Contract
reject_contract now auth c = record c {
  status = ContractStatus.rejected;
  close_reason = some (rejected_by_name auth.name);
  closed_by = some auth.name;
  closed_by_kind = some ClosedByKind.agent;
  closed_at = some now;
  updated_at = now;
}

-- Tell the proposer, if the contract is still there.
abbrev pub tell_proposer : Caller → String → Option Contract → Store → Store
tell_proposer auth id none s = s
tell_proposer auth id (some c) s = deliver (c.proposer_id ∷ []) (contract_rejected auth.name) id s

abbrev pub announce_rejected : Caller → String → Store → Store
announce_rejected auth id s = tell_proposer auth id (select_contract id s.contracts) s

-- Whether the guarded write took effect is not looked at.
unfoldable pub reject : (ℕ → Store → Store) → ℕ → Caller → String → Action (Option Contract)
reject others now auth id = do
  found ← gets (get_participant id auth.id)
  participant ← require found 404 not_found
  check_policy ContractMutationAction.reject participant
  modify (others 0)
  row ← gets (λ s. select_contract id s.contracts)
  contract ← require row 404 not_found
  checked ← auto_close_if_expired (λ s. s) now contract
  guard (is_proposed checked.status) 409 invalid_state
  modify (others 1)
  answered ← update_participant (still_pending id auth.id) (answer ParticipantStatus.rejected now)
  responded ← require answered 409 already_responded
  modify (others 2)
  rejected ← update_contract (still is_proposed id) (reject_contract now auth)
  modify (announce_rejected auth id)
  modify (audit auth.name contract_reject id)
  gets (λ s. select_contract id s.contracts)

abbrev pub cancel_contract : ℕ → Caller → Contract → Contract
cancel_contract now auth c = record c {
  status = cancelled;
  close_reason = some (cancelled_by_name auth.name);
  closed_by = some auth.name;
  closed_by_kind = some ClosedByKind.agent;
  closed_at = some now;
  updated_at = now;
}

abbrev pub announce_cancelled : Caller → String → Store → Store
announce_cancelled auth id s =
    let invited = filter (λ p. is_invitee p.role) (participants_of id s.participants) in
    deliver (map (λ p. p.agent_id) invited) (contract_cancelled auth.name) id s

unfoldable pub cancel : (Store → Store) → ℕ → Caller → String → Action (Option Contract)
cancel others now auth id = do
  found ← gets (get_participant id auth.id)
  participant ← require found 404 not_found
  check_policy ContractMutationAction.cancel participant
  row ← gets (λ s. select_contract id s.contracts)
  contract ← require row 404 not_found
  guard (is_proposed contract.status) 409 invalid_state
  modify others
  updated ← update_contract (still is_proposed id) (cancel_contract now auth)
  written ← require updated 409 conflict
  modify (announce_cancelled auth id)
  modify (audit auth.name contract_cancel id)
  gets (λ s. select_contract id s.contracts)
