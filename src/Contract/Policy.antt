-- ===== src/Contract/Policy.antt =====
-- src/lib/contract-trust-policy.ts: what a participant's role lets it do to a contract.
use a2a_comms.Common.{ℕ, if◌then◌else◌}
use a2a_comms.Contract.{
  is_proposer, is_observer, is_pending, ParticipantRole, proposer, invitee, observer,
  ParticipantStatus, ErrorCode, forbidden, already_responded,
}

pub data ContractMutationAction : Type 0 where
  accept reject cancel send_message close upload_attachment : ContractMutationAction

pub data ContractParticipantPolicyDecision : Type 0 where
  allowed : ContractParticipantPolicyDecision
  refused : ℕ → ErrorCode → ContractParticipantPolicyDecision

abbrev forbid : ContractParticipantPolicyDecision
forbid = refused 403 forbidden

-- The answer to an invitation: an invitee's, and its first.
respond : ParticipantRole → ParticipantStatus → ContractParticipantPolicyDecision
respond observer st = forbid
respond proposer st = forbid
respond invitee st = if is_pending st then allowed else refused 409 already_responded

unfoldable pub evaluate_contract_participant_mutation :
    ContractMutationAction → ParticipantRole → ParticipantStatus → ContractParticipantPolicyDecision
unfolding respond
evaluate_contract_participant_mutation accept role st = respond role st
evaluate_contract_participant_mutation reject role st = respond role st
evaluate_contract_participant_mutation cancel role st = if is_proposer role then allowed else forbid
evaluate_contract_participant_mutation send_message role st =
    if is_observer role then forbid else allowed
evaluate_contract_participant_mutation close role st = if is_observer role then forbid else allowed
evaluate_contract_participant_mutation upload_attachment role st =
    if is_observer role then forbid else allowed
