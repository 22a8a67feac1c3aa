-- ===== src/Messages/Examples.antt =====
-- Messages on a concrete contract, and the laws of the send route at it.
use a2a_comms.Common.{
  String, ◌≡◌, refl, ◌⊎◌, Bool, true, false, none, some, List, [], ◌∷◌, ◌++◌, map, arith, codes,
}
use a2a_comms.Common.Json.{text, object, no_fields, field}
use a2a_comms.Contract.{
  is_active, consumes_turn, active, MessageType, message, response, receipt, approval, Contract,
}
use a2a_comms.Contract.Store.{◌>>=◌, select_contract, Store}
use a2a_comms.Contract.Policy.{evaluate_contract_participant_mutation}
use a2a_comms.Contract.Routes.{get_participant, enforce, auto_close_if_expired, is_due}
use a2a_comms.Contract.Outcomes.{is_reply}
use a2a_comms.Contract.Examples.{alpha, under_way, deal}
use a2a_comms.RateLimit.{rate_limit_increment}
use a2a_comms.Messages.Structure.{loop, has_escaped_break_outside_code}
use a2a_comms.Messages.Insert.{insert_message_atomic}
use a2a_comms.Messages.Request.{read_message, MessageBody, parsed, Platform}
use a2a_comms.Messages.Send.{
  run_insert, message_response, announce_message, post_message, MessageResponse,
}
use a2a_comms.Messages.Serve.{send, Server, Response, created, replayed}
use a2a_comms.Messages.Once.{retry_replayed}
use a2a_comms.Messages.Scanner.{loop_answers}
use a2a_comms.Messages.Ending.{conversation_ends}
use a2a_comms.Messages.Ledger.{play, view, insert_all, play_all, insert_all_refines, Call}
use a2a_comms.Messages.Refusals.{refused_message}

abbrev runtime : Platform
runtime = record {
  lower = λ s. s;
  accepts_content = λ c content. true;
  message_id = "m1";
  question_id = "q1";
}

abbrev hello : MessageBody
hello = parsed (record {
  message_type = none;
  content = some (object (field (codes "text") (text (codes "hello")) no_fields));
  requires_action = none;
  needs_human = none;
})

abbrev blank : MessageBody
blank = parsed (record {
  message_type = none;
  content = some (object (field (codes "text") (text (codes " ")) no_fields));
  requires_action = none;
  needs_human = none;
})

abbrev sent_once : Store
sent_once = (post_message runtime (λ t. t) 80 alpha "c1" hello under_way).1

sent_turn : map (λ m. m.turn_number) sent_once.messages ≡ 1 ∷ []
unfolding post_message ◌>>=◌ auto_close_if_expired enforce get_participant
    evaluate_contract_participant_mutation read_message run_insert insert_message_atomic
    announce_message
sent_turn = refl

abbrev waiting_deal : Contract
waiting_deal = record deal { status = active; completion_requires_approval = true }

-- Five messages and a receipt, and the approval between.
abbrev call : String → MessageType → Bool → Call
call who t approves = record {
  now = 90;
  message_id = "m";
  draft = record {
    contract_id = "c1";
    sender_id = who;
    message_type = t;
    content = no_fields;
    approves_completion = approves;
    requires_action = none;
  };
}

abbrev exchange : List Call
exchange =
    call "a1" message false
    ∷ call "b1" response false
    ∷ call "b1" receipt false
    ∷ call "a1" message false
    ∷ call "b1" response false
    ∷ call "a1" message false
    ∷ call "b1" approval true
    ∷ call "a1" approval true
    ∷ []

insert_all_refines_example :
    (e : Contract) × (select_contract "c1" (insert_all exchange under_way).contracts ≡ some e)
    × (view e ≡ play_all "a1" exchange (view waiting_deal))
insert_all_refines_example =
    insert_all_refines "c1" exchange under_way waiting_deal
      (refl, (refl, (refl, (refl, (refl, (refl, (refl, (refl, tt)))))))) refl (λ h. refl)

exchange_played :
    play_all "a1" exchange (view waiting_deal)
    ≡ record { taken = 4; limit = 4; gated = true; is_approved = true; running = false }
unfolding play consumes_turn
exchange_played = refl

blank_refused : is_reply (post_message runtime (λ t. t) 80 alpha "c1" blank under_way).0 ≡ false
unfolding post_message ◌>>=◌ auto_close_if_expired enforce get_participant
    evaluate_contract_participant_mutation read_message run_insert insert_message_atomic
    announce_message
blank_refused = refl

refused_message_example :
    ((post_message runtime (λ t. t) 80 alpha "c1" blank under_way).1 ≡ under_way)
    ⊎ ((c : Contract) × (select_contract "c1" under_way.contracts ≡ some c)
        × (is_due 80 c ≡ true)
        × ((post_message runtime (λ t. t) 80 alpha "c1" blank under_way).1
            ≡ (auto_close_if_expired (λ t. t) 80 c under_way).1))
refused_message_example = refused_message runtime 80 alpha "c1" blank under_way blank_refused

abbrev idle : Server
idle = record { store = under_way; keys = []; limits = record { table = []; fallback = [] } }

abbrev reply_sent : MessageResponse
reply_sent = record {
  id = "m1";
  contract_id = "c1";
  sender_id = "a1";
  message_type = message;
  content = field (codes "text") (text (codes "hello")) no_fields;
  created_at = 80;
  turn_number = 1;
  turns_remaining = 3;
  consumes_turn = true;
  requires_action = true;
  completion_approved_at = none;
  question_id = none;
  budget_exhausted = false;
  next_steps = [];
}

abbrev keyed : MessageBody → Response × Server
keyed body = send runtime (λ t. t) true 80 alpha "c1" (some (codes "k1")) body idle

reply_to_hello : (keyed hello).0 ≡ created reply_sent (some 3) false
unfolding send rate_limit_increment ◌>>=◌ auto_close_if_expired enforce get_participant
    evaluate_contract_participant_mutation read_message run_insert insert_message_atomic
    announce_message message_response
reply_to_hello = refl

retry_replayed_example :
    send runtime (λ t. t) true 9000 alpha "c1" (some (codes "k1")) hello (keyed hello).1
    ≡ (replayed 201 (some reply_sent), (keyed hello).1)
retry_replayed_example =
    retry_replayed runtime runtime (λ t. t) (λ t. t) true true 80 9000 alpha "c1" (codes "k1") hello
      hello idle (keyed hello).1 reply_sent (some 3) false (refl, refl) reply_to_hello refl
      (ground arith)

loop_answers_example :
    loop 40 (codes "use `\\n` here")
    ≡ some (has_escaped_break_outside_code (codes "use `\\n` here"))
loop_answers_example = loop_answers (codes "use `\\n` here") 40 (ground arith)

in_code : has_escaped_break_outside_code (codes "use `\\n` here") ≡ false
unfolding has_escaped_break_outside_code
in_code = refl

abbrev four_turns : List Call
four_turns =
    call "a1" message false
    ∷ call "b1" response false
    ∷ call "a1" message false
    ∷ call "b1" response false
    ∷ []

conversation_ends_example :
    (e : Contract) × (select_contract "c1"
        (insert_all (four_turns ++ (call "a1" approval true ∷ [])) under_way).contracts
      ≡ some e)
    × (is_active e.status ≡ false)
unfolding consumes_turn
conversation_ends_example =
    conversation_ends "c1" four_turns (call "a1" approval true) under_way waiting_deal
      (refl, (refl, (refl, (refl, tt)))) refl
      ((refl, refl), ((refl, refl), ((refl, refl), ((refl, refl), tt)))) refl refl refl refl refl
      (λ h. refl)
