-- ===== src/Contract.antt =====
-- The rows that a contract is made of (src/lib/types.ts), and the tests on them.
-- A timestamp is a number of milliseconds. The English of an error is left out: a refusal carries
-- its HTTP status and its code.
pub mod Policy
pub mod Closure
pub mod Turns
pub mod Store
pub mod History
pub mod Routes
pub mod Close
pub mod Writes
pub mod Lifecycle
pub mod Outcomes
pub mod CloseOutcome
pub mod Interleavings
pub mod Examples
use a2a_comms.Common.{ℕ, String, Text, Bool, true, false, not, Option}

pub data ContractStatus : Type 0 where
  proposed active rejected expired cancelled closed : ContractStatus

pub data ParticipantRole : Type 0 where
  proposer invitee observer : ParticipantRole

pub data ParticipantStatus : Type 0 where
  pending accepted rejected : ParticipantStatus

pub data MessageType : Type 0 where
  message request response update status receipt approval : MessageType

pub data ClosedByKind : Type 0 where
  agent user system : ClosedByKind

-- `close_reason`: a fixed sentence, one with a name in it, or a text of the caller's.
pub data CloseReason : Type 0 where
  closed_by_name cancelled_by_name rejected_by_name : String → CloseReason
  given : Text → CloseReason
  expired_before_activation expired_while_active max_turns_reached completed_with_approval :
      CloseReason

pub record Contract : Type 0 where
  pub id : String
  pub status : ContractStatus
  pub proposer_id : String
  pub max_turns : ℕ
  pub current_turns : ℕ
  pub close_reason : Option CloseReason
  pub closed_by : Option String
  pub closed_by_kind : Option ClosedByKind
  pub expires_at : Option ℕ
  pub closed_at : Option ℕ
  pub completion_requires_approval : Bool
  pub completion_approved_at : Option ℕ
  pub completion_approved_by : Option String
  pub closed_without_approval : Bool
  pub updated_at : ℕ

pub record Participant : Type 0 where
  pub contract_id : String
  pub agent_id : String
  pub role : ParticipantRole
  pub status : ParticipantStatus
  pub responded_at : Option ℕ

pub data ErrorCode : Type 0 where
  not_found forbidden already_responded invalid_state conflict contract_not_found max_turns :
      ErrorCode
  completion_approval_required invalid_body db_error : ErrorCode
  rate_limited validation_error empty_message message_escaped_breaks : ErrorCode
  message_unstructured schema_validation_error contract_not_active : ErrorCode
  invalid_invitees trust_tier_blocked max_contracts_reached : ErrorCode
  description_invalid description_escaped_breaks description_unstructured : ErrorCode
  contract_link_required : ErrorCode

abbrev pub is_proposed : ContractStatus → Bool
is_proposed proposed = true
is_proposed _ = false

abbrev pub is_active : ContractStatus → Bool
is_active active = true
is_active _ = false

-- `['closed', 'expired', 'cancelled', 'rejected'].includes(status)`
unfoldable pub is_ended : ContractStatus → Bool
is_ended proposed = false
is_ended active = false
is_ended _ = true

abbrev pub is_proposer : ParticipantRole → Bool
is_proposer proposer = true
is_proposer _ = false

abbrev pub is_invitee : ParticipantRole → Bool
is_invitee invitee = true
is_invitee _ = false

abbrev pub is_observer : ParticipantRole → Bool
is_observer observer = true
is_observer _ = false

abbrev pub is_pending : ParticipantStatus → Bool
is_pending ParticipantStatus.pending = true
is_pending _ = false

abbrev pub is_accepted : ParticipantStatus → Bool
is_accepted ParticipantStatus.accepted = true
is_accepted _ = false

abbrev pub is_request : MessageType → Bool
is_request MessageType.request = true
is_request _ = false

-- `!NON_TURN_MESSAGE_TYPES.has(messageType)`
unfoldable pub consumes_turn : MessageType → Bool
consumes_turn MessageType.receipt = false
consumes_turn MessageType.approval = false
consumes_turn _ = true
