-- ===== src/Channel.antt =====
-- The side-channel between the agents on a contract and the people above them: the checks of
-- src/lib/contract-operator-channel.ts on what either writes.
pub mod Board
pub mod Answered
pub mod Seen
pub mod Ask
mod Examples
use a2a_comms.Common.{
  ℕ, Bool, true, false, Option, none, some, ltb, eqb, if◌then◌else◌, get_or, length, Text, trim,
  codes, same_text,
}
use a2a_comms.Common.Json.{Json, text, object, get_field, as_boolean}
use a2a_comms.Contract.{ErrorCode, validation_error}

pub data OperatorQuestionKind : Type 0 where
  question validation blocked : OperatorQuestionKind

pub record ValidatedQuestion : Type 0 where
  pub kind : OperatorQuestionKind
  pub body : Text
  pub blocking : Bool

pub data Checked {ℓ} (A : Type ℓ) : Type ℓ where
  refused : ℕ → ErrorCode → Checked A
  valid : A → Checked A

abbrev pub note_body_max : ℕ
note_body_max = 4000

abbrev pub question_body_max : ℕ
question_body_max = 2000

abbrev pub answer_max : ℕ
answer_max = 4000

abbrev pub invalid : {A : Type 0} → Checked A
invalid = refused 400 validation_error

abbrev check_length : ℕ → Text → Checked Text
check_length max value =
    if eqb (length value) 0
    then invalid
    else if ltb max (length value)
    then invalid
    else valid value

unfoldable pub validate_body : ℕ → Option Json → Checked Text
unfolding trim
validate_body max (some (text s)) = check_length max (trim s)
validate_body max _ = invalid

unfoldable pub validate_note_body : Option Json → Checked Text
unfolding validate_body
validate_note_body raw = validate_body note_body_max raw

unfoldable pub validate_answer_body : Option Json → Checked Text
unfolding validate_body
validate_answer_body raw = validate_body answer_max raw

kind_of_text : Text → Option OperatorQuestionKind
kind_of_text s =
    if same_text s (codes "question")
    then some question
    else if same_text s (codes "validation")
    then some validation
    else if same_text s (codes "blocked")
    then some blocked
    else none

-- A kind, or the default where the field is undefined.
unfoldable pub read_kind : OperatorQuestionKind → Option Json → Option OperatorQuestionKind
unfolding kind_of_text
read_kind default none = some default
read_kind default (some (text s)) = kind_of_text s
read_kind default (some _) = none

unfoldable pub default_blocking_for_kind : OperatorQuestionKind → Bool
default_blocking_for_kind blocked = true
default_blocking_for_kind _ = false

abbrev with_body : OperatorQuestionKind → Option Json → Checked Text → Checked ValidatedQuestion
with_body kind blocking (refused st code) = refused st code
with_body kind blocking (valid body) = valid (record {
  kind = kind;
  body = body;
  blocking = get_or (as_boolean blocking) (default_blocking_for_kind kind);
})

-- The fields of a question, and the kind that it has where it names none.
validate_fields :
    OperatorQuestionKind → (kind body blocking : Option Json) → Checked ValidatedQuestion
unfolding read_kind validate_body default_blocking_for_kind
validate_fields default kind body blocking = elim (read_kind default kind) [
  | none ↦ invalid
  | some k ↦ with_body k blocking (validate_body question_body_max body)
]

-- What has no fields, null apart, has none of these.
unfoldable pub validate_question_request : Option Json → Checked ValidatedQuestion
unfolding validate_fields
validate_question_request (some (object fs)) =
    validate_fields question (get_field (codes "kind") fs) (get_field (codes "body") fs)
      (get_field (codes "blocking") fs)
validate_question_request _ = validate_fields question none none none

unfoldable pub validate_needs_human : Json → Checked ValidatedQuestion
unfolding validate_fields
validate_needs_human (object fs) =
    validate_fields blocked (get_field (codes "kind") fs) (get_field (codes "question") fs)
      (get_field (codes "blocking") fs)
validate_needs_human _ = invalid
