-- ===== src/Channel/Board.antt =====
-- What is written on the operator channel: notes, acknowledgements and questions, as
-- src/lib/contract-operator-channel-server.ts writes them while PostgreSQL answers.
use a2a_comms.Common.{
  ℕ, String, Bool, true, false, not, ◌&&◌, Option, none, some, List, [], ◌∷◌, ◌++◌, map, ◌==◌,
  if◌then◌else◌, is_some, length, filter, find?, every, any, update_where, Text, same_text,
}
use a2a_comms.Channel.{Checked, refused, valid, ValidatedQuestion}
use a2a_comms.Contract.{not_found, already_responded}
use a2a_comms.Contract.Store.{Question, OperatorQuestionStatus, unanswered, answered, dismissed}
use a2a_comms.Links.{is_uuid}

pub record Note : Type 0 where
  pub id : Text
  pub contract_id : String
  pub body : Text
  pub author_name : String
  pub created_at : ℕ
  pub updated_at : ℕ
  pub withdrawn_at : Option ℕ

pub record Ack : Type 0 where
  pub note_id : Text
  pub agent_id : String

pub record Board : Type 0 where
  pub notes : List Note
  pub acks : List Ack
  pub questions : List Question

-- `id` is the database's.
unfoldable pub create_contract_note : ℕ → Text → String → Text → String → Board → Board
create_contract_note now id contract_id body author b = record b {
  notes =
      record {
        id = id;
        contract_id = contract_id;
        body = body;
        author_name = author;
        created_at = now;
        updated_at = now;
        withdrawn_at = none;
      }
      ∷ b.notes;
}

-- A note that is not withdrawn.
abbrev pub live_note : Text → Note → Bool
live_note id n = same_text n.id id && not (is_some n.withdrawn_at)

unfoldable pub update_contract_note : ℕ → Text → Text → Board → Checked (Unit {0}) × Board
update_contract_note now id body b = (
  if any (live_note id) b.notes then valid tt else refused 404 not_found,
  record b {
    notes = update_where (live_note id) (λ n. record n { body = body; updated_at = now }) b.notes;
  },
)

unfoldable pub withdraw_contract_note : ℕ → Text → Board → Checked (Unit {0}) × Board
withdraw_contract_note now id b = (
  if any (live_note id) b.notes then valid tt else refused 404 not_found,
  record b {
    notes = update_where (live_note id) (λ n. record n { withdrawn_at = some now }) b.notes;
  },
)

pub record Acknowledged : Type 0 where
  pub acknowledged : ℕ
  pub already : ℕ

abbrev pub has_text : List Text → Text → Bool
has_text ids id = any (λ i. same_text i id) ids

abbrev pub live_ids : String → Board → List Text
live_ids contract_id b =
    map (λ n. n.id)
      (filter (λ n. n.contract_id == contract_id && not (is_some n.withdrawn_at)) b.notes)

-- The notes that the agent has acknowledged, among these.
abbrev pub acked_ids : String → List Text → Board → List Text
acked_ids agent_id live b =
    map (λ a. a.note_id) (filter (λ a. a.agent_id == agent_id && has_text live a.note_id) b.acks)

abbrev pub acks_of : String → List Text → List Ack
acks_of agent_id ids = map (λ id. record { note_id = id; agent_id = agent_id }) ids

-- The acknowledgement of these live notes, where it is not there yet. An acknowledgement is unique
-- for its note and agent, so the rows that are there count the notes.
unfoldable pub acknowledge : String → List Text → Board → Acknowledged × Board
acknowledge agent_id live b =
    let already = acked_ids agent_id live b in
    let fresh = filter (λ id. not (has_text already id)) live in
    (
      record { acknowledged = length fresh; already = length already },
      record b { acks = acks_of agent_id fresh ++ b.acks },
    )

abbrev acknowledge_valid : String → List Text → Board → Checked Acknowledged × Board
acknowledge_valid agent_id live b = let (r, b') = acknowledge agent_id live b in (valid r, b')

-- Without ids, all live notes of the contract; with ids, those of them that are well-formed, which
-- have to be live.
unfoldable pub acknowledge_contract_notes :
    String → String → List Text → Board → Checked Acknowledged × Board
unfolding acknowledge is_uuid
acknowledge_contract_notes contract_id agent_id [] b =
    acknowledge_valid agent_id (live_ids contract_id b) b
acknowledge_contract_notes contract_id agent_id (i ∷ is) b =
    let live = live_ids contract_id b in
    let wanted = filter is_uuid (i ∷ is) in
    if every (has_text live) wanted
    then acknowledge_valid agent_id (filter (has_text wanted) live) b
    else (refused 404 not_found, b)

-- `id` is the database's.
unfoldable pub create_contract_question :
    String → String → String → ValidatedQuestion → Board → Board
create_contract_question id contract_id agent_id q b = record b {
  questions =
      record {
        id = id;
        contract_id = contract_id;
        asked_by_agent_id = agent_id;
        asked = q;
        message_id = none;
        status = unanswered;
        answer = none;
        answered_by_user_id = none;
        answered_by_name = none;
        answered_at = none;
      }
      ∷ b.questions;
}

pub data Resolution : Type 0 where
  answers : Text → Resolution
  dismisses : Option Text → Resolution

abbrev resolved_status : Resolution → OperatorQuestionStatus
resolved_status (answers a) = answered
resolved_status (dismisses a) = dismissed

abbrev answer_of : Resolution → Option Text
answer_of (answers a) = some a
answer_of (dismisses a) = a

abbrev pub is_unanswered : OperatorQuestionStatus → Bool
is_unanswered unanswered = true
is_unanswered _ = false

abbrev pub open_question : String → Question → Bool
open_question id q = q.id == id && is_unanswered q.status

-- Who answers: a user, where the answer comes from one, and the name that is shown.
pub record Answerer : Type 0 where
  pub user_id : Option String
  pub name : String

abbrev pub resolve : ℕ → Resolution → Answerer → Question → Question
resolve now r who q = record q {
  status = resolved_status r;
  answer = answer_of r;
  answered_by_user_id = who.user_id;
  answered_by_name = some who.name;
  answered_at = some now;
}

abbrev after_write : ℕ → Resolution → Answerer → Option Question → Checked Question
after_write now r who none = refused 409 already_responded
after_write now r who (some q) = valid (resolve now r who q)

-- One write, on a question that is still open.
unfoldable pub resolve_contract_question :
    ℕ → String → Resolution → Answerer → Board → Checked Question × Board
resolve_contract_question now id r who b = (
  after_write now r who (find? (open_question id) b.questions),
  record b { questions = update_where (open_question id) (resolve now r who) b.questions },
)
