-- ===== src/Channel/Examples.antt =====
-- A question and a note on a concrete channel, and the laws at them.
use a2a_comms.Common.{◌≡◌, refl, true, none, some, [], ◌∷◌, codes}
use a2a_comms.Channel.{blocked, refused, valid}
use a2a_comms.Contract.{already_responded}
use a2a_comms.Contract.Store.{Question, unanswered}
use a2a_comms.Channel.Board.{
  create_contract_note, resolve, resolve_contract_question, Answerer, Board, Resolution, answers,
  dismisses,
}
use a2a_comms.Channel.Answered.{question_by_id, Distinct, answered_once, rests, notes}

abbrev asked_once : Board
asked_once = record {
  notes = [];
  acks = [];
  questions =
      record {
        id = "q1";
        contract_id = "c1";
        asked_by_agent_id = "a1";
        asked = record { kind = blocked; body = codes "which one?"; blocking = true };
        message_id = none;
        status = unanswered;
        answer = none;
        answered_by_user_id = none;
        answered_by_name = none;
        answered_at = none;
      }
      ∷ [];
}

abbrev said : Resolution
said = answers (codes "the first")

abbrev ann : Answerer
ann = record { user_id = some "u1"; name = "ann" }

abbrev bob : Answerer
bob = record { user_id = none; name = "bob" }

abbrev settled : Board
settled = (resolve_contract_question 10 "q1" said ann asked_once).1

abbrev answered_row : Question
answered_row = resolve 10 said ann (record {
  id = "q1";
  contract_id = "c1";
  asked_by_agent_id = "a1";
  asked = record { kind = blocked; body = codes "which one?"; blocking = true };
  message_id = none;
  status = unanswered;
  answer = none;
  answered_by_user_id = none;
  answered_by_name = none;
  answered_at = none;
})

answer_given : (resolve_contract_question 10 "q1" said ann asked_once).0 ≡ valid answered_row
unfolding resolve_contract_question
answer_given = refl

abbrev noted : Board
noted = create_contract_note 12 (codes "n1") "c1" (codes "mind the gap") "ann" settled

noted-Distinct : Distinct noted.questions
unfolding create_contract_note resolve_contract_question
noted-Distinct = (refl, tt)

answered_once_example :
    (question_by_id "q1" noted.questions ≡ some answered_row)
    × ((resolve_contract_question 20 "q1" (dismisses none) bob noted).0
        ≡ refused 409 already_responded)
answered_once_example =
    answered_once 10 20 "q1" said (dismisses none) ann bob asked_once noted answered_row (refl, tt)
      noted-Distinct answer_given (notes 12 (codes "n1") "c1" (codes "mind the gap") "ann" rests)
