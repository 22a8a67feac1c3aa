-- ===== src/Contract/Turns.antt =====
-- src/lib/contract-turn-state.ts: whose move it is on a contract, from one agent's point of view.
-- The sentence shown to the agent is the constructor of `TurnReason` for its template.
pub mod Owed
pub mod Viewers
mod Examples
use a2a_comms.Common.{
  ℕ, zero, suc, ◌+◌, ◌-◌, ◌*◌, ◌/◌, ◌%◌, ◌≤◌, ◌<◌, String, ◌≡◌, refl, sym, ap, ◌∙◌, ◌≢◌, ◌↔◌, ◌⊎◌,
  inl, inr, Bool, true, false, not, ◌&&◌, ◌||◌, Option, none, some, List, [], ◌∷◌, ◌++◌, map, arith,
  ◌==◌, eq_iff, ltb, leb, eqb, if◌then◌else◌, get_or, is_some, truthy, is_text, Bool-cases,
  Option-cases, eq_self, leb→le, ltb→lt, length, filter, find?, every, any, All, update_where,
  includes, Text, is_space, trim_start, trim,
}
use a2a_comms.Contract.{
  is_proposed, is_active, is_ended, is_proposer, is_invitee, is_observer, is_pending, is_accepted,
  is_request, consumes_turn, ContractStatus, proposed, active, expired, cancelled, closed,
  ParticipantRole, proposer, invitee, observer, ParticipantStatus, pending, accepted, MessageType,
  message, request, response, update, receipt, approval, ClosedByKind, agent, user, system,
  CloseReason, closed_by_name, cancelled_by_name, rejected_by_name, given,
  expired_before_activation, max_turns_reached, completed_with_approval, Contract, Participant,
  ErrorCode, not_found, forbidden, already_responded, invalid_state, conflict, contract_not_found,
  completion_approval_required, db_error,
}

pub data ContractWaitState : Type 0 where
  you peer nobody human : ContractWaitState

pub data TurnReason : Type 0 where
  has_ended : ContractStatus → TurnReason
  all_responded waiting_for_answer : TurnReason
  not_answered : ℕ → TurnReason
  approval_needed budget_is_spent : TurnReason
  no_single_opener you_open opener_opens : TurnReason
  asked_for_nothing : MessageType → TurnReason
  was_informational : TurnReason
  yours_for_one_of_many yours : TurnReason
  asked_for_reply : MessageType → TurnReason
  you_asked_a_human : (blocked : Bool) → TurnReason
  waits_on_a_human : (who : String) → TurnReason

pub record ContractTurnState : Type 0 where
  pub awaiting : ContractWaitState
  pub reason : TurnReason
  pub awaiting_agent_id : Option String
  pub awaiting_agent_name : Option String
  pub last_message_at : Option ℕ
  pub last_sender_id : Option String
  pub last_requires_action : Option Bool

pub record TurnStateParticipant : Type 0 where
  pub agent_id : String
  pub role : ParticipantRole
  pub status : ParticipantStatus
  pub name : Option String

pub record TurnStateBlockingQuestion : Type 0 where
  pub asked_by_agent_id : String
  pub kind : String

pub record TurnStateLastMessage : Type 0 where
  pub sender_id : String
  pub message_type : MessageType
  pub requires_action : Option Bool
  pub consumes_turn : Option Bool
  pub created_at : ℕ

-- `list.length === 1 ? list[0] : null`
abbrev pub only {ℓ} : {A : Type ℓ} → List A → Option A
only (x ∷ []) = some x
only _ = none

abbrev pub id_of : Option TurnStateParticipant → Option String
id_of none = none
id_of (some p) = some p.agent_id

-- `optional === false`
abbrev pub is_false : Option Bool → Bool
is_false (some false) = true
is_false _ = false

abbrev find_name : List TurnStateParticipant → String → Option String
find_name [] a = none
find_name (p ∷ ps) a = if p.agent_id == a then p.name else find_name ps a

unfoldable pub name_of : List TurnStateParticipant → Option String → Option String
name_of ps none = none
name_of ps (some a) = if a == "" then none else find_name ps a

unfoldable pub opener : List TurnStateParticipant → String → Option String
opener ps proposer_id = id_of (
    only (
      filter (λ p. is_invitee p.role && is_accepted p.status && not (p.agent_id == proposer_id))
        ps))

abbrev wait_state : Option String → String → ContractWaitState
wait_state none viewer = nobody
wait_state (some a) viewer = if a == viewer then you else peer

abbrev last_requires : Option TurnStateLastMessage → Option Bool
last_requires none = none
last_requires (some m) = m.requires_action

abbrev last_at : Option TurnStateLastMessage → Option ℕ
last_at none = none
last_at (some m) = some m.created_at

abbrev last_sender : Option TurnStateLastMessage → Option String
last_sender none = none
last_sender (some m) = some m.sender_id

unfoldable pub state :
    Option String
    → String
    → List TurnStateParticipant
    → TurnReason
    → Option TurnStateLastMessage
    → ContractTurnState
unfolding name_of
state awaited viewer ps reason last = record {
  awaiting = wait_state awaited viewer;
  reason = reason;
  awaiting_agent_id = awaited;
  awaiting_agent_name = name_of ps awaited;
  last_message_at = last_at last;
  last_sender_id = last_sender last;
  last_requires_action = last_requires last;
}

-- The contract is proposed: the invitation is what is waited for.
unfoldable pub derive_proposed :
    String → List TurnStateParticipant → Option TurnStateLastMessage → ContractTurnState
unfolding state
derive_proposed viewer ps last =
    let waiting = filter (λ p. is_pending p.status) ps in
    state (id_of (only waiting)) viewer ps
      (if eqb (length waiting) 0
        then all_responded
        else if eqb (length waiting) 1
        then waiting_for_answer
        else not_answered (length waiting))
      last

-- The contract is active and has no message yet.
unfoldable pub derive_opening : Contract → String → List TurnStateParticipant → ContractTurnState
unfolding state opener
derive_opening c viewer ps =
    let opens_next = opener ps c.proposer_id in
    state opens_next viewer ps
      (if not (is_some opens_next)
        then no_single_opener
        else if is_text opens_next viewer
        then you_open
        else opener_opens)
      none

-- The participants that could answer a message.
unfoldable pub other_participants : List TurnStateParticipant → String → List TurnStateParticipant
other_participants ps sender =
    filter (λ p. not (is_observer p.role) && not (p.agent_id == sender)) ps

-- The contract is active and the last message is there.
unfoldable pub derive_reply :
    String → List TurnStateParticipant → TurnStateLastMessage → ContractTurnState
unfolding state other_participants
derive_reply viewer ps m =
    let awaited = id_of (only (other_participants ps m.sender_id)) in
    if is_false m.consumes_turn
    then state none viewer ps (asked_for_nothing m.message_type) (some m)
    else if is_false m.requires_action
    then state none viewer ps was_informational (some m)
    else if m.sender_id == viewer
    then state awaited viewer ps (if is_some awaited then yours else yours_for_one_of_many) (some m)
    else state (some (get_or awaited viewer)) viewer ps (asked_for_reply m.message_type) (some m)

abbrev derive_conversation :
    Contract → String → List TurnStateParticipant → Option TurnStateLastMessage → ContractTurnState
derive_conversation c viewer ps none = derive_opening c viewer ps
derive_conversation c viewer ps (some m) = derive_reply viewer ps m

unfoldable pub derive_without_questions :
    Contract → String → List TurnStateParticipant → Option TurnStateLastMessage → ContractTurnState
unfolding state is_ended derive_proposed derive_opening derive_reply
derive_without_questions c viewer ps last =
    let budget_spent = leb c.max_turns c.current_turns in
    if is_ended c.status
    then state none viewer ps (has_ended c.status) last
    else if is_proposed c.status
    then derive_proposed viewer ps last
    else if budget_spent && c.completion_requires_approval && not (is_some c.completion_approved_at)
    then state (some c.proposer_id) viewer ps approval_needed last
    else if budget_spent
    then state none viewer ps budget_is_spent last
    else derive_conversation c viewer ps last

abbrev first {ℓ} : {A : Type ℓ} → List A → Option A
first [] = none
first (x ∷ xs) = some x

-- The question that stops the move: one of the agent that owes it, or any if no agent does.
unfoldable pub blocking_question :
    Option String → List TurnStateBlockingQuestion → Option TurnStateBlockingQuestion
blocking_question none qs = first qs
blocking_question (some a) qs = find? (λ q. q.asked_by_agent_id == a) qs

abbrev ask_human :
    ContractTurnState
    → String
    → List TurnStateParticipant
    → TurnStateBlockingQuestion
    → ContractTurnState
ask_human derived viewer ps q = record derived {
  awaiting = human;
  awaiting_agent_id = none;
  awaiting_agent_name = none;
  reason =
      if q.asked_by_agent_id == viewer
      then you_asked_a_human (q.kind == "blocked")
      else waits_on_a_human (get_or (name_of ps (some q.asked_by_agent_id)) "An agent");
}

override :
    Contract
    → String
    → List TurnStateParticipant
    → ContractTurnState
    → Option TurnStateBlockingQuestion
    → ContractTurnState
override c viewer ps derived none = derived
override c viewer ps derived (some q) =
    if is_ended c.status then derived else ask_human derived viewer ps q

unfoldable pub derive_contract_turn_state :
    Contract
    → String
    → List TurnStateParticipant
    → Option TurnStateLastMessage
    → List TurnStateBlockingQuestion
    → ContractTurnState
unfolding override
derive_contract_turn_state c viewer ps last qs =
    let derived = derive_without_questions c viewer ps last in
    override c viewer ps derived (blocking_question derived.awaiting_agent_id qs)
