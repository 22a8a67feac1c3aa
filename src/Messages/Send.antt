-- ===== src/Messages/Send.antt =====
-- The handler `POST` of src/app/api/v1/contracts/[id]/messages/route.ts, from the participant check
-- to the reply. `others` is what other requests do between the route's reads and its insert. The
-- hint that a message hands over to a person in prose is left out of the reply.
use a2a_comms.Common.{
  ℕ, ◌-◌, String, Bool, true, false, not, ◌&&◌, ◌||◌, Option, none, some, List, [], ◌∷◌, map, ◌==◌,
  eqb, if◌then◌else◌, get_or, is_some, length, filter,
}
use a2a_comms.Common.Json.{Fields}
use a2a_comms.Channel.{ValidatedQuestion}
use a2a_comms.Contract.{
  is_active, consumes_turn, closed, MessageType, ClosedByKind, CloseReason, max_turns_reached,
  completed_with_approval, Contract, Participant, ErrorCode, not_found, forbidden, invalid_state,
  contract_not_found,
}
use a2a_comms.Contract.Policy.{ContractMutationAction}
use a2a_comms.Contract.Store.{
  Action, pure, gets, modify, guard, require, ◌>>=◌, ◌>>◌, select_contract, participants_of,
  deliver, audit, emit_contract_closed, MessageNotice, QuestionNotice, message_sent, question_asked,
  message_send, asked_a_question, Store, Caller, Reply, refuse, reply,
}
use a2a_comms.Contract.Routes.{get_participant, check_policy, auto_close_if_expired}
use a2a_comms.Messages.Attention.{has_signal, resolve_primary_attention, extract_signals, completed}
use a2a_comms.Messages.Insert.{
  insert_message_atomic, insert_message_with_question, Inserted, RpcResult, error, success, Draft,
}
use a2a_comms.Messages.Request.{read_message, MessageBody, Platform}

pub data NextStep : Type 0 where
  approve_completion close_without_approval wait_for_proposer closed_as_exhausted : NextStep
  propose_continuation : NextStep

pub record MessageResponse : Type 0 where
  pub id : String
  pub contract_id : String
  pub sender_id : String
  pub message_type : MessageType
  pub content : Fields
  pub created_at : ℕ
  pub turn_number : ℕ
  pub turns_remaining : ℕ
  pub consumes_turn : Bool
  pub requires_action : Bool
  pub completion_approved_at : Option ℕ
  pub question_id : Option String
  pub budget_exhausted : Bool
  pub next_steps : List NextStep

abbrev without_question : RpcResult × Store → (RpcResult × Option String) × Store
without_question (r, s) = ((r, none), s)

insert :
    Platform → ℕ → Draft → Option ValidatedQuestion → Store → (RpcResult × Option String) × Store
unfolding insert_message_atomic insert_message_with_question
insert m now d none s = without_question (insert_message_atomic now m.message_id d s)
insert m now d (some q) s = insert_message_with_question now m.message_id m.question_id d q s

-- The status that goes with an error of the database function.
abbrev pub rpc_status : ErrorCode → ℕ
rpc_status contract_not_found = 404
rpc_status invalid_state = 409
rpc_status ErrorCode.max_turns = 409
rpc_status forbidden = 403
rpc_status _ = 500

abbrev pub answered_by :
    (RpcResult × Option String) × Store → Reply (Inserted × Option String) × Store
answered_by ((error e, q), s) = (refuse (rpc_status e) e, s)
answered_by ((success r, q), s) = (reply (r, q), s)

unfoldable pub run_insert :
    Platform → ℕ → Draft → Option ValidatedQuestion → Action (Inserted × Option String)
unfolding insert
run_insert m now d q s = answered_by (insert m now d q s)

abbrev pub peers_of : String → Caller → Store → List String
peers_of id auth s =
    map (λ p. p.agent_id)
      (filter (λ p. not (p.agent_id == auth.id)) (participants_of id s.participants))

unfoldable pub tell_peers :
    Platform
    → String
    → Caller
    → MessageType
    → Fields
    → Bool
    → Inserted
    → Option String
    → Store
    → Store
unfolding deliver extract_signals resolve_primary_attention
tell_peers m id auth t content requires_action r qid s =
    let signals = extract_signals m.lower content in
    let notice : MessageNotice = record {
      message_id = r.message_id;
      sender = auth.name;
      message_type = t;
      turn = r.new_turns;
      turns_remaining = r.max_turns - r.new_turns;
      max_turns = r.max_turns;
      consumes_turn = r.consumes_turn;
      requires_action = r.requires_action;
      turn_number = r.turn_number;
      attention = resolve_primary_attention t signals requires_action;
      attention_signals = signals;
      async_completion = has_signal completed signals;
      awaiting_completion_approval = r.awaiting_completion_approval;
      question_id = qid;
    } in
    deliver (peers_of id auth s) (message_sent notice) id s

abbrev pub closed_by_max_turns : MessageType → Inserted → Bool
closed_by_max_turns t r = r.max_reached && not r.awaiting_completion_approval && consumes_turn t

-- `emitContractClosed`, where the insert closed the contract.
unfoldable pub tell_closed : String → Contract → MessageType → Inserted → Store → Store
unfolding consumes_turn
tell_closed id c t r s =
    let now_is = record c {
      current_turns = r.new_turns;
      max_turns = r.max_turns;
      completion_approved_at = r.completion_approved_at;
    } in
    let tell = λ (by : String). λ (why : CloseReason).
      emit_contract_closed id closed (some by) (some ClosedByKind.system) (some why) now_is false
        s in
    if r.completed
    then tell "system:completion-approved" completed_with_approval
    else if closed_by_max_turns t r
    then tell "system:max-turns" max_turns_reached
    else s

question_notice : String → Caller → ValidatedQuestion → Option String → QuestionNotice
question_notice qid auth q mid = record {
  question_id = qid;
  asked_by = auth.name;
  asked_by_agent_id = auth.id;
  asked = q;
  message_id = mid;
}

-- `announceContractQuestion` of src/lib/contract-operator-channel-server.ts
unfoldable pub announce_contract_question :
    String → String → Caller → ValidatedQuestion → Option String → Store → Store
unfolding audit deliver question_notice
announce_contract_question id qid auth q mid s =
    let logged = audit auth.name (asked_a_question qid mid) id s in
    let to = peers_of id auth s in
    if eqb (length to) 0
    then logged
    else deliver to (question_asked (question_notice qid auth q mid)) id logged

abbrev pub tell_question :
    String → Caller → Option ValidatedQuestion → Option String → String → Store → Store
tell_question id auth (some q) (some qid) mid s =
    announce_contract_question id qid auth q (some mid) s
tell_question id auth _ _ mid s = s

-- `budgetExhaustedNextSteps` of src/lib/contract-succession.ts
unfoldable pub budget_exhausted_next_steps :
    (by_proposer gate_pending is_completed : Bool) → List NextStep
budget_exhausted_next_steps by_proposer gate_pending true = []
budget_exhausted_next_steps true true false =
    approve_completion ∷ close_without_approval ∷ propose_continuation ∷ []
budget_exhausted_next_steps false true false = wait_for_proposer ∷ propose_continuation ∷ []
budget_exhausted_next_steps by_proposer false false =
    closed_as_exhausted ∷ propose_continuation ∷ []

-- What a sender is told once no turn is left.
abbrev pub steps_left : Caller → Contract → MessageType → Inserted → List NextStep
steps_left auth c t r =
    let approved_already = is_some r.completion_approved_at || is_some c.completion_approved_at in
    budget_exhausted_next_steps (auth.id == c.proposer_id)
      (c.completion_requires_approval && not approved_already)
      (r.completed || (closed_by_max_turns t r && approved_already))

unfoldable pub message_response :
    String → Caller → Contract → MessageType → Fields → Inserted → Option String → MessageResponse
unfolding budget_exhausted_next_steps consumes_turn
message_response id auth c t content r qid =
    let remaining = r.max_turns - r.new_turns in
    record {
      id = r.message_id;
      contract_id = id;
      sender_id = auth.id;
      message_type = t;
      content = content;
      created_at = r.message_created_at;
      turn_number = r.new_turns;
      turns_remaining = remaining;
      consumes_turn = r.consumes_turn;
      requires_action = r.requires_action;
      completion_approved_at = r.completion_approved_at;
      question_id = qid;
      budget_exhausted = eqb remaining 0;
      next_steps = if eqb remaining 0 then steps_left auth c t r else [];
    }

unfoldable pub announce_message :
    Platform
    → Caller
    → String
    → Contract
    → Draft
    → Option ValidatedQuestion
    → Inserted
    → Option String
    → Store
    → Store
unfolding tell_peers tell_closed announce_contract_question audit
announce_message m auth id checked d asked r qid s =
    let t = d.message_type in
    let told = tell_peers m id auth t d.content (get_or d.requires_action true) r qid s in
    let closing = tell_closed id checked t r told in
    let questioned = tell_question id auth asked qid r.message_id closing in
    audit auth.name (message_send id r.new_turns qid) r.message_id questioned

-- The route on a contract that was fetched and checked for its expiry.
unfoldable pub post_checked :
    Platform
    → (Store → Store)
    → ℕ
    → Caller
    → String
    → MessageBody
    → Participant
    → Contract
    → Action MessageResponse
post_checked m others now auth id body participant checked = do
  guard (is_active checked.status) 409 invalid_state
  check_policy ContractMutationAction.send_message participant
  d ← read_message m auth id body checked
  modify others
  r ← run_insert m now d.0 d.1
  modify (announce_message m auth id checked d.0 d.1 r.0 r.1)
  pure (message_response id auth checked d.0.message_type d.0.content r.0 r.1)

unfoldable pub post_message :
    Platform → (Store → Store) → ℕ → Caller → String → MessageBody → Action MessageResponse
unfolding post_checked
post_message m others now auth id body = do
  found ← gets (get_participant id auth.id)
  participant ← require found 404 not_found
  row ← gets (λ s. select_contract id s.contracts)
  contract ← require row 404 not_found
  checked ← auto_close_if_expired (λ s. s) now contract
  post_checked m others now auth id body participant checked
