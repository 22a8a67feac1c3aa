-- ===== src/Contract/Store.antt =====
-- The tables that the contract routes read and write, the statements they issue on them, and the
-- monad of a route: a store that keeps what was written before a refusal.
-- Announcements (src/lib/contract-closure.ts, `emitContractClosed`) and audit entries are appended
-- to the store's logs. `id` is the primary key of a contract, so a select takes the first match.
use a2a_comms.Common.{
  ℕ, String, Bool, true, false, not, ◌&&◌, ◌||◌, Option, none, some, List, ◌∷◌, map, ◌==◌, eqb,
  if◌then◌else◌, length, filter, find?, any, update_where, Text,
}
use a2a_comms.Common.Json.{Fields}
use a2a_comms.Channel.{ValidatedQuestion}
use a2a_comms.Messages.Attention.{ContractAttention, ContractAsyncSignal}
use a2a_comms.Contract.{
  ContractStatus, expired, MessageType, CloseReason, ClosedByKind, Contract, Participant, ErrorCode,
}
use a2a_comms.Contract.Closure.{
  ContractCloseOutcome, resolve_close_outcome, outcome_is_success, needs_successor_hint,
}

pub data ContractLinkType : Type 0 where
  continues supersedes delegates_to : ContractLinkType

pub record ContractLink : Type 0 where
  pub from_contract_id : String
  pub to_contract_id : String
  pub link_type : ContractLinkType

pub record Message : Type 0 where
  pub id : String
  pub contract_id : String
  pub sender_id : String
  pub message_type : MessageType
  pub content : Fields
  pub requires_action : Bool
  pub consumes_turn : Bool
  pub turn_number : ℕ
  pub created_at : ℕ

-- `unanswered` is the source's `open`.
pub data OperatorQuestionStatus : Type 0 where
  unanswered answered dismissed : OperatorQuestionStatus

pub record Question : Type 0 where
  pub id : String
  pub contract_id : String
  pub asked_by_agent_id : String
  pub asked : ValidatedQuestion
  pub message_id : Option String
  pub status : OperatorQuestionStatus
  pub answer : Option Text
  pub answered_by_user_id : Option String
  pub answered_by_name : Option String
  pub answered_at : Option ℕ

-- The `data` of a message webhook.
pub record MessageNotice : Type 0 where
  pub message_id : String
  pub sender : String
  pub message_type : MessageType
  pub turn : ℕ
  pub turns_remaining : ℕ
  pub max_turns : ℕ
  pub consumes_turn : Bool
  pub requires_action : Bool
  pub turn_number : ℕ
  pub attention : ContractAttention
  pub attention_signals : List ContractAsyncSignal
  pub async_completion : Bool
  pub awaiting_completion_approval : Bool
  pub question_id : Option String

pub record QuestionNotice : Type 0 where
  pub question_id : String
  pub asked_by : String
  pub asked_by_agent_id : String
  pub asked : ValidatedQuestion
  pub message_id : Option String

-- The `data` of a closure webhook.
pub record ClosureNotice : Type 0 where
  pub status : ContractStatus
  pub outcome : ContractCloseOutcome
  pub work_accepted : Bool
  pub closed_by : Option String
  pub closed_by_kind : Option ClosedByKind
  pub reason : Option CloseReason
  pub current_turns : ℕ
  pub max_turns : ℕ
  pub completion_approved_at : Option ℕ
  pub closed_without_approval : Bool
  pub successor_hint : Bool

pub data Event : Type 0 where
  contract_accepted : (accepted_by : String) (opens_next_agent_id : Option String) → Event
  contract_rejected : (rejected_by : String) → Event
  contract_cancelled : (cancelled_by : String) → Event
  contract_closed contract_expired : ClosureNotice → Event
  message_sent : MessageNotice → Event
  question_asked : QuestionNotice → Event

pub record Delivery : Type 0 where
  pub recipients : List String
  pub event : Event
  pub contract_id : String

pub data AuditAction : Type 0 where
  contract_accept : (activated : Bool) → AuditAction
  contract_reject contract_cancel : AuditAction
  contract_propose : (title : Text) (invitees observers : List Text) (max_turns : ℕ) → AuditAction
  contract_close : CloseReason → (without_approval : Bool) → AuditAction
  message_send : (contract_id : String) (turn : ℕ) (question_id : Option String) → AuditAction
  asked_a_question : (question_id : String) (message_id : Option String) → AuditAction

pub record AuditEntry : Type 0 where
  pub actor : String
  pub action : AuditAction
  pub resource_id : String

pub record Store : Type 0 where
  pub contracts : List Contract
  pub participants : List Participant
  pub links : List ContractLink
  pub messages : List Message
  pub questions : List Question
  pub deliveries : List Delivery
  pub audit_log : List AuditEntry

-- The agent that a request was authenticated as.
pub record Caller : Type 0 where
  pub id : String
  pub name : String

pub data Reply {ℓ} (A : Type ℓ) : Type ℓ where
  refuse : ℕ → ErrorCode → Reply A
  reply : A → Reply A

abbrev pub Action : Type 0 → Type 0
Action A = Store → Reply A × Store

unfoldable pub pure : {A : Type 0} → A → Action A
pure a s = (reply a, s)

unfoldable pub gets : {A : Type 0} → (Store → A) → Action A
gets f s = (reply (f s), s)

unfoldable pub modify : (Store → Store) → Action (Unit {0})
modify f s = (reply tt, f s)

unfoldable pub guard : Bool → ℕ → ErrorCode → Action (Unit {0})
guard true st c s = (reply tt, s)
guard false st c s = (refuse st c, s)

unfoldable pub require : {A : Type 0} → Option A → ℕ → ErrorCode → Action A
require none st c s = (refuse st c, s)
require (some a) st c s = (reply a, s)

infixl 5 ◌>>=◌ ◌>>◌
-- Opening this opens the simple actions too.
unfoldable pub ◌>>=◌ : {A B : Type 0} → Action A → (A → Action B) → Action B
unfolding pure gets modify guard require
◌>>=◌ m f s = let (r, s') = m s in elim r [ reply a ↦ f a s' | refuse st c ↦ (refuse st c, s') ]

abbrev pub ◌>>◌ : {B : Type 0} → Action (Unit {0}) → Action B → Action B
m >> k = m >>= λ _. k

abbrev pub select_contract : String → List Contract → Option Contract
select_contract id cs = find? (λ c. c.id == id) cs

abbrev pub select_participant : String → String → List Participant → Option Participant
select_participant id agent_id ps = find? (λ p. p.contract_id == id && p.agent_id == agent_id) ps

abbrev pub participants_of : String → List Participant → List Participant
participants_of id ps = filter (λ p. p.contract_id == id) ps

abbrev pub after {ℓ} : {A : Type ℓ} → (A → A) → Option A → Option A
after f none = none
after f (some a) = some (f a)

-- `update … where p … returning`: the row that was written, if there was one.
unfoldable pub update_contract :
    (Contract → Bool) → (Contract → Contract) → Action (Option Contract)
update_contract p f s =
    (reply (after f (find? p s.contracts)), record s { contracts = update_where p f s.contracts })

unfoldable pub update_participant :
    (Participant → Bool) → (Participant → Participant) → Action (Option Participant)
update_participant p f s = (
  reply (after f (find? p s.participants)),
  record s { participants = update_where p f s.participants },
)

unfoldable pub deliver : List String → Event → String → Store → Store
deliver to e id s = record s {
  deliveries = record { recipients = to; event = e; contract_id = id } ∷ s.deliveries;
}

unfoldable pub audit : String → AuditAction → String → Store → Store
audit who what id s = record s {
  audit_log = record { actor = who; action = what; resource_id = id } ∷ s.audit_log;
}

-- `type in ('continues', 'supersedes')`
abbrev carries_on : ContractLinkType → Bool
carries_on delegates_to = false
carries_on _ = true

unfoldable pub has_successor_link : String → List ContractLink → Bool
has_successor_link id ls =
    any (λ l. l.to_contract_id == id && carries_on l.link_type) ls
    || any (λ l. l.from_contract_id == id && not (carries_on l.link_type)) ls

abbrev closure_event : ContractStatus → ClosureNotice → Event
closure_event expired n = contract_expired n
closure_event _ n = contract_closed n

-- Announce a closure to every participant; with none there is nobody to tell. The contract `c`
-- gives the fields that the callers pass.
unfoldable pub emit_contract_closed :
    String
    → ContractStatus
    → Option String
    → Option ClosedByKind
    → Option CloseReason
    → Contract
    → Bool
    → Store
    → Store
emit_contract_closed id status closed_by kind reason c without_approval s =
    let outcome = resolve_close_outcome closed_by c.completion_approved_at without_approval in
    let successor = outcome_is_success outcome || has_successor_link id s.links in
    let to = map (λ p. p.agent_id) (participants_of id s.participants) in
    let notice : ClosureNotice = record {
      status = status;
      outcome = outcome;
      work_accepted = outcome_is_success outcome;
      closed_by = closed_by;
      closed_by_kind = kind;
      reason = reason;
      current_turns = c.current_turns;
      max_turns = c.max_turns;
      completion_approved_at = c.completion_approved_at;
      closed_without_approval = without_approval;
      successor_hint = needs_successor_hint outcome successor;
    } in
    if eqb (length to) 0 then s else deliver to (closure_event status notice) id s
