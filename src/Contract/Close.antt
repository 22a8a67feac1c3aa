-- ===== src/Contract/Close.antt =====
-- src/app/api/v1/contracts/[id]/close/route.ts: a participant closes an active contract, under the
-- completion gate of src/lib/contract-closure.ts.
use a2a_comms.Common.{
  ℕ, String, Bool, false, not, ◌&&◌, ◌||◌, Option, none, some, ◌==◌, eqb, if◌then◌else◌, is_some,
  length, Text, trim,
}
use a2a_comms.Contract.{
  closed, is_active, ClosedByKind, CloseReason, closed_by_name, given, Contract, not_found,
  invalid_state, conflict, invalid_body,
}
use a2a_comms.Contract.Store.{
  Action, ◌>>=◌, ◌>>◌, gets, modify, guard, require, select_contract, update_contract, audit,
  emit_contract_closed, contract_close, Store, Caller, refuse, reply,
}
use a2a_comms.Contract.Policy.{ContractMutationAction}
use a2a_comms.Contract.Closure.{GatedCloseDecision, evaluate_gated_close}
use a2a_comms.Contract.Routes.{get_participant, check_policy, still}

pub record CloseContractRequest : Type 0 where
  pub reason : Option Text
  pub without_approval : Bool

-- The request's body: none, what `JSON.parse` refuses, or the fields that the route reads of it
-- (a parsed value that is no object has none of them). A reason is a text: on another value that is
-- not null, which makes the completion gate throw, the route is not modelled.
pub data CloseBody : Type 0 where
  absent malformed : CloseBody
  parsed : CloseContractRequest → CloseBody

unfoldable pub parse_body : CloseBody → Action CloseContractRequest
parse_body absent s = (reply (record { reason = none; without_approval = false }), s)
parse_body malformed s = (refuse 400 invalid_body, s)
parse_body (parsed r) s = (reply r, s)

-- The trimmed reason of the caller, or a sentence with its name.
unfoldable pub reason_for_close : Caller → Option Text → CloseReason
reason_for_close auth none = closed_by_name auth.name
reason_for_close auth (some r) =
    if eqb (length (trim r)) 0 then closed_by_name auth.name else given (trim r)

abbrev pub gate_pending : Contract → Bool
gate_pending c = c.completion_requires_approval && not (is_some c.completion_approved_at)

unfoldable pub pass_gate : GatedCloseDecision → Action Bool
pass_gate (GatedCloseDecision.allowed w) s = (reply w, s)
pass_gate (GatedCloseDecision.refused st code) s = (refuse st code, s)

abbrev pub check_gate : Contract → Caller → CloseContractRequest → Action Bool
check_gate c auth r =
    pass_gate
      (evaluate_gated_close (gate_pending c) (c.proposer_id == auth.id) r.without_approval r.reason)

-- Active still and, where the work is refused, not approved in the meantime.
abbrev pub may_write_close : String → Bool → Contract → Bool
may_write_close id without_approval c =
    still is_active id c && (not without_approval || not (is_some c.completion_approved_at))

abbrev pub close_contract : ℕ → Caller → CloseReason → Bool → Contract → Contract
close_contract now auth why without_approval c = record c {
  status = closed;
  close_reason = some why;
  closed_by = some auth.name;
  closed_by_kind = some ClosedByKind.agent;
  closed_without_approval = without_approval;
  closed_at = some now;
  updated_at = now;
}

unfoldable pub close : (Store → Store) → ℕ → Caller → String → CloseBody → Action (Option Contract)
close others now auth id body = do
  found ← gets (get_participant id auth.id)
  participant ← require found 404 not_found
  check_policy ContractMutationAction.close participant
  row ← gets (λ s. select_contract id s.contracts)
  contract ← require row 404 not_found
  guard (is_active contract.status) 409 invalid_state
  request ← parse_body body
  let why = reason_for_close auth request.reason
  without_approval ← check_gate contract auth request
  modify others
  updated ←
      update_contract (may_write_close id without_approval)
        (close_contract now auth why without_approval)
  written ← require updated 409 conflict
  modify (
      emit_contract_closed id closed (some auth.name) (some ClosedByKind.agent) (some why) contract
        without_approval)
  modify (audit auth.name (contract_close why without_approval) id)
  gets (λ s. select_contract id s.contracts)
