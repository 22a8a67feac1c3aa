-- ===== src/Channel/Ask.antt =====
-- An agent asks a person: the handler `POST` of src/app/api/v1/contracts/[id]/questions/route.ts.
use a2a_comms.Common.{String, refl, Bool, true, not, Option, none, some, ◌∷◌}
use a2a_comms.Common.Json.{Json}
use a2a_comms.Channel.{ValidatedQuestion, validate_question_request}
use a2a_comms.Contract.{is_ended, Contract, invalid_body, contract_not_active}
use a2a_comms.Contract.Store.{
  Action, pure, gets, modify, guard, ◌>>=◌, ◌>>◌, select_contract, unanswered, Store, Caller,
  refuse,
}
use a2a_comms.Contract.History.{
  Follows-refl, Follows-Same, Keeps-pure, Keeps-gets, Keeps-guard, Keeps-modify, Keeps-bind, Keeps,
}
use a2a_comms.Messages.Request.{accept_question, check_channel_write_access}
use a2a_comms.Messages.Send.{announce_contract_question}
use a2a_comms.Messages.Reading.{accept_question-Reads, check_channel-Reads}
use a2a_comms.Messages.Accounting.{Reads-Keeps, announce_question-Same}

-- No body, what `JSON.parse` refuses, or what it returns.
pub data QuestionBody : Type 0 where
  empty malformed : QuestionBody
  parsed : Json → QuestionBody

unfoldable pub read_question : QuestionBody → Action ValidatedQuestion
unfolding accept_question validate_question_request
read_question empty = accept_question (validate_question_request none)
read_question malformed = λ s. (refuse 400 invalid_body, s)
read_question (parsed v) = accept_question (validate_question_request (some v))

-- Asking is refused on a contract that has ended, and only there.
abbrev pub may_ask : Option Contract → Bool
may_ask none = true
may_ask (some c) = not (is_ended c.status)

-- `createContractQuestion`, with the database's id.
abbrev pub insert_question : String → Caller → String → ValidatedQuestion → Store → Store
insert_question qid auth id q s = record s {
  questions =
      record {
        id = qid;
        contract_id = id;
        asked_by_agent_id = auth.id;
        asked = q;
        message_id = none;
        status = unanswered;
        answer = none;
        answered_by_user_id = none;
        answered_by_name = none;
        answered_at = none;
      }
      ∷ s.questions;
}

unfoldable pub post_question : String → Caller → String → QuestionBody → Action String
unfolding read_question check_channel_write_access is_ended
post_question qid auth id body = do
  q ← read_question body
  check_channel_write_access id auth.id
  row ← gets (λ s. select_contract id s.contracts)
  guard (may_ask row) 409 contract_not_active
  modify (insert_question qid auth id q)
  modify (announce_contract_question id qid auth q none)
  pure qid

read_question-Keeps : (body : QuestionBody) → Keeps (read_question body)
unfolding read_question
read_question-Keeps empty = Reads-Keeps _ (accept_question-Reads (validate_question_request none))
read_question-Keeps malformed = record { at = λ s. Follows-refl s }
read_question-Keeps (parsed v) =
    Reads-Keeps _ (accept_question-Reads (validate_question_request (some v)))

-- Asking is no turn, and leaves every contract as it is.
pub post_question-Keeps :
    (qid : String) (auth : Caller) (id : String) (body : QuestionBody)
    → Keeps (post_question qid auth id body)
unfolding post_question
post_question-Keeps qid auth id body = Keeps-bind _ _ (read_question-Keeps body) (λ q.
    Keeps-bind _ _ (Reads-Keeps _ (check_channel-Reads id auth.id)) (λ _.
      Keeps-bind _ _ (Keeps-gets _) (λ row. Keeps-bind _ _ (Keeps-guard _ _ _) (λ _.
        Keeps-bind _ _
          (Keeps-modify (insert_question qid auth id q)
            (λ s. Follows-Same (record { contracts_kept = refl; messages_kept = refl })))
          (λ _.
            Keeps-bind _ _
              (Keeps-modify _ (λ s. Follows-Same (announce_question-Same id qid auth q none s)))
              (λ _. Keeps-pure _))))))
