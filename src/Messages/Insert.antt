-- ===== src/Messages/Insert.antt =====
-- `insert_message_atomic` (migrations/20260917160000_persist_turn_accounting.sql): one transaction
-- that stores a message, counts its turn, records an approval and closes the contract, with the row
-- of the contract locked. `id` and `now` are the database's.
use a2a_comms.Common.{
  ℕ, ◌+◌, String, Bool, true, false, not, ◌&&◌, Option, none, some, ◌∷◌, ◌==◌, leb, if◌then◌else◌,
  get_or, is_some, update_where,
}
use a2a_comms.Common.Json.{Fields}
use a2a_comms.Channel.{ValidatedQuestion}
use a2a_comms.Contract.{
  is_active, is_request, consumes_turn, closed, MessageType, ClosedByKind, CloseReason,
  max_turns_reached, completed_with_approval, Contract, ErrorCode, forbidden, invalid_state,
  contract_not_found,
}
use a2a_comms.Contract.Store.{select_contract, Message, Question, unanswered, Store}

pub record Inserted : Type 0 where
  pub message_id : String
  pub message_created_at : ℕ
  pub consumes_turn : Bool
  pub requires_action : Bool
  pub turn_number : ℕ
  pub new_turns : ℕ
  pub max_turns : ℕ
  pub max_reached : Bool
  pub awaiting_completion_approval : Bool
  pub completion_approved_at : Option ℕ
  pub completed : Bool

pub data RpcResult : Type 0 where
  error : ErrorCode → RpcResult
  success : Inserted → RpcResult

-- What the caller passes.
pub record Draft : Type 0 where
  pub contract_id : String
  pub sender_id : String
  pub message_type : MessageType
  pub content : Fields
  pub approves_completion : Bool
  pub requires_action : Option Bool

-- `v_requires_action`
unfoldable pub stored_requires_action : MessageType → Option Bool → Bool
unfolding consumes_turn
stored_requires_action t requested =
    if not (consumes_turn t) then false else if is_request t then true else get_or requested true

-- `v_approved_at`, `v_approved_by`: the first approval stands.
abbrev pub approved : {A : Type 0} → Draft → A → Contract → Option A → Option A
approved d new c old =
    if d.approves_completion && not (is_some c.completion_approved_at) then some new else old

abbrev pub approved_at : ℕ → Draft → Contract → Option ℕ
approved_at now d c = approved d now c c.completion_approved_at

-- `v_new_turns`
abbrev pub new_turns : Draft → Contract → ℕ
new_turns d c = c.current_turns + (if consumes_turn d.message_type then 1 else 0)

abbrev pub close_by_system : ℕ → CloseReason → String → Contract → Contract
close_by_system now why by r = record r {
  status = closed;
  close_reason = some why;
  closed_by = some by;
  closed_by_kind = some ClosedByKind.system;
  closed_at = some now;
}

abbrev pub mark : ℕ → Draft → Contract → Contract → Contract
mark now d c r = record r {
  updated_at = now;
  completion_approved_at = approved_at now d c;
  completion_approved_by = approved d d.sender_id c c.completion_approved_by;
}

-- `v_completes`
abbrev pub completes : Draft → Contract → Bool
completes d c =
    d.approves_completion && c.completion_requires_approval && leb c.max_turns c.current_turns

abbrev pub approval_pending : ℕ → Draft → Contract → Bool
approval_pending now d c = c.completion_requires_approval && not (is_some (approved_at now d c))

abbrev pub max_reached : Draft → Contract → Bool
max_reached d c = leb c.max_turns (new_turns d c)

-- The `UPDATE` of a message that takes no turn.
unfoldable pub write_control : ℕ → Draft → Contract → Contract → Contract
write_control now d c r =
    let marked = mark now d c r in
    if completes d c
    then close_by_system now completed_with_approval "system:completion-approved" marked
    else marked

-- The `UPDATE` of a message that takes one.
unfoldable pub write_turn : ℕ → Draft → Contract → Contract → Contract
unfolding consumes_turn
write_turn now d c r =
    let marked = record (mark now d c r) { current_turns = new_turns d c } in
    if max_reached d c && not (approval_pending now d c)
    then close_by_system now max_turns_reached "system:max-turns" marked
    else marked

unfoldable pub write_contract : ℕ → Draft → Contract → Contract → Contract
unfolding consumes_turn write_control write_turn
write_contract now d c r =
    if consumes_turn d.message_type then write_turn now d c r else write_control now d c r

unfoldable pub new_message : ℕ → String → Draft → Contract → Message
unfolding consumes_turn stored_requires_action
new_message now id d c = record {
  id = id;
  contract_id = d.contract_id;
  sender_id = d.sender_id;
  message_type = d.message_type;
  content = d.content;
  requires_action = stored_requires_action d.message_type d.requires_action;
  consumes_turn = consumes_turn d.message_type;
  turn_number = new_turns d c;
  created_at = now;
}

unfoldable pub rpc_success : ℕ → String → Draft → Contract → Inserted
unfolding consumes_turn stored_requires_action
rpc_success now id d c = record {
  message_id = id;
  message_created_at = now;
  consumes_turn = consumes_turn d.message_type;
  requires_action = stored_requires_action d.message_type d.requires_action;
  turn_number = new_turns d c;
  new_turns = new_turns d c;
  max_turns = c.max_turns;
  max_reached = max_reached d c;
  awaiting_completion_approval =
      consumes_turn d.message_type && max_reached d c && approval_pending now d c;
  completion_approved_at = approved_at now d c;
  completed = not (consumes_turn d.message_type) && completes d c;
}

abbrev pub insert_into : ℕ → String → Draft → Contract → Store → Store
insert_into now id d c s = record s {
  messages = new_message now id d c ∷ s.messages;
  contracts = update_where (λ r. r.id == d.contract_id) (write_contract now d c) s.contracts;
}

-- What the transaction refuses, once the row is locked.
unfoldable pub refusal : Draft → Contract → Option ErrorCode
unfolding consumes_turn
refusal d c =
    if not (is_active c.status)
    then some invalid_state
    else if consumes_turn d.message_type && leb c.max_turns c.current_turns
    then some ErrorCode.max_turns
    else if d.approves_completion && not (d.sender_id == c.proposer_id)
    then some forbidden
    else none

abbrev insert_unless : ℕ → String → Draft → Contract → Store → Option ErrorCode → RpcResult × Store
insert_unless now id d c s (some e) = (error e, s)
insert_unless now id d c s none = (success (rpc_success now id d c), insert_into now id d c s)

abbrev insert_found : ℕ → String → Draft → Store → Option Contract → RpcResult × Store
insert_found now id d s none = (error contract_not_found, s)
insert_found now id d s (some c) = insert_unless now id d c s (refusal d c)

unfoldable pub insert_message_atomic : ℕ → String → Draft → Store → RpcResult × Store
unfolding refusal new_message rpc_success write_contract
insert_message_atomic now id d s =
    insert_found now id d s (select_contract d.contract_id s.contracts)

abbrev pub new_question : String → String → Draft → ValidatedQuestion → Question
new_question id message_id d q = record {
  id = id;
  contract_id = d.contract_id;
  asked_by_agent_id = d.sender_id;
  asked = q;
  message_id = some message_id;
  status = unanswered;
  answer = none;
  answered_by_user_id = none;
  answered_by_name = none;
  answered_at = none;
}

abbrev with_question :
    String → Draft → ValidatedQuestion → RpcResult × Store → (RpcResult × Option String) × Store
with_question qid d q (error e, s) = ((error e, none), s)
with_question qid d q (success r, s) = (
  (success r, some qid),
  record s { questions = new_question qid r.message_id d q ∷ s.questions },
)

-- `insertMessageWithQuestion` of src/lib/contract-operator-channel-server.ts, where the database
-- answers: the message with its question, or neither.
unfoldable pub insert_message_with_question :
    ℕ
    → (id question_id : String) → Draft
    → ValidatedQuestion
    → Store
    → (RpcResult × Option String) × Store
unfolding insert_message_atomic
insert_message_with_question now id qid d q s =
    with_question qid d q
      (insert_message_atomic now id (record d { requires_action = some false }) s)
