-- ===== src/Contract/Closure.antt =====
-- src/lib/contract-closure.ts: why a contract stopped, and when a gated one may be closed.
use a2a_comms.Common.{
  ℕ, String, Bool, true, false, not, ◌&&◌, Option, [], ◌==◌, leb, if◌then◌else◌, get_or, is_some,
  length, Text, trim,
}
use a2a_comms.Contract.{ErrorCode, completion_approval_required}

pub data ContractCloseOutcome : Type 0 where
  completed_approved turns_exhausted expired closed_by_participant closed_unapproved :
      ContractCloseOutcome

-- `completionApprovedAt` is read only for being there.
unfoldable pub resolve_close_outcome : Option String → Option ℕ → Bool → ContractCloseOutcome
resolve_close_outcome closed_by completion_approved_at closed_without_approval =
    let by = get_or closed_by "" in
    if closed_without_approval
    then closed_unapproved
    else if by == "system:completion-approved"
    then completed_approved
    else if by == "system:max-turns"
    then (if is_some completion_approved_at then completed_approved else turns_exhausted)
    else if by == "system:expiry"
    then ContractCloseOutcome.expired
    else closed_by_participant

unfoldable pub outcome_is_success : ContractCloseOutcome → Bool
outcome_is_success completed_approved = true
outcome_is_success _ = false

abbrev pub unapproved_close_reason_min : ℕ
unapproved_close_reason_min = 10

pub data GatedCloseDecision : Type 0 where
  allowed : (closed_without_approval : Bool) → GatedCloseDecision
  refused : ℕ → ErrorCode → GatedCloseDecision

-- The three sentences of the refusal differ, its status and code do not.
unfoldable pub evaluate_gated_close :
    (gate_pending is_proposer without_approval : Bool) → Option Text → GatedCloseDecision
unfolding trim
evaluate_gated_close gate_pending by_proposer without_approval reason =
    if not gate_pending
    then allowed false
    else if by_proposer
        && without_approval
        && leb unapproved_close_reason_min (length (trim (get_or reason [])))
    then allowed true
    else refused 409 completion_approval_required

unfoldable pub needs_successor_hint : ContractCloseOutcome → Bool → Bool
unfolding outcome_is_success
needs_successor_hint outcome has_successor = not (outcome_is_success outcome) && not has_successor
