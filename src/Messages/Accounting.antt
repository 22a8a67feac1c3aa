-- ===== src/Messages/Accounting.antt =====
-- A message that is stored keeps to the life cycle of its contract, and takes the turn that it
-- counts: the insert of `insert_message_atomic` and the route around it.
use a2a_comms.Common.{
  ℕ, String, ◌≡◌, refl, ◌∙◌, inl, inr, Bool, false, Option, none, some, arith, ◌==◌, eq_iff, eqb,
  Bool-cases, Option-cases, length,
}
use a2a_comms.Contract.{consumes_turn, MessageType, Contract, Participant}
use a2a_comms.Contract.Store.{Action, select_contract, Store, Caller}
use a2a_comms.Contract.History.{
  may_become, History-refl, Follows-refl, Follows-trans, Same-refl, Same-trans, Follows-Same,
  Keeps-pure, Keeps-gets, Keeps-require, Keeps-guard, Keeps-modify, Keeps-bind, History, Follows,
  Same, Keeps,
}
use a2a_comms.Channel.{ValidatedQuestion}
use a2a_comms.Messages.Request.{MessageBody, Platform}
use a2a_comms.Messages.Send.{
  answered_by, run_insert, peers_of, tell_peers, closed_by_max_turns, tell_closed,
  announce_contract_question, tell_question, announce_message, post_checked, post_message,
}
use a2a_comms.Messages.Reading.{read_message-Reads, Reads}
use a2a_comms.Contract.Writes.{
  update_other, update_hit, deliver-Same, audit-Same, emit_Same, enforce-Keeps,
}
use a2a_comms.Common.Json.{Fields}
use a2a_comms.Contract.Lifecycle.{Keeps-checked}
use a2a_comms.Messages.Insert.{
  Inserted, new_turns, write_contract, new_message, insert_into, refusal, insert_message_atomic,
  insert_message_with_question, RpcResult, error, success, Draft,
}

pub write_contract-History :
    (now : ℕ) (d : Draft) (c : Contract) → refusal d c ≡ none → History c (write_contract now d c c)
unfolding write_contract refusal may_become
write_contract-History now d c h = ground arith

write_contract-id : (now : ℕ) (d : Draft) (c r : Contract) → (write_contract now d c r).id ≡ r.id
unfolding write_contract
write_contract-id now d c r = ground arith

write_contract-turns :
    (now : ℕ) (d : Draft) (c : Contract) → (write_contract now d c c).current_turns ≡ new_turns d c
unfolding write_contract consumes_turn
write_contract-turns now d c = ground arith

-- The row of the message's contract, after the insert.
pub insert_into-row :
    (now : ℕ) (id : String) (d : Draft) (c : Contract) (s : Store)
    → select_contract d.contract_id s.contracts ≡ some c
    → select_contract d.contract_id (insert_into now id d c s).contracts
      ≡ some (write_contract now d c c)
insert_into-row now id d c s found =
    update_hit d.contract_id (write_contract now d c) s.contracts c (write_contract-id now d c)
      found

insert_into-Follows :
    (now : ℕ) (id : String) (d : Draft) (c : Contract) (s : Store)
    → select_contract d.contract_id s.contracts ≡ some c
    → refusal d c ≡ none
    → Follows s (insert_into now id d c s)
unfolding new_message consumes_turn
insert_into-Follows now id d c s found free = record {
  row = λ j e at_j. elim (Bool-cases (d.contract_id == j)) [
    | inl same ↦ (
      write_contract now d c c,
      ground (arith, same, eq_iff d.contract_id j, insert_into-row now id d c s found),
      ground (arith, same, eq_iff d.contract_id j, write_contract-History now d c free),
      ground (arith, same, eq_iff d.contract_id j, write_contract-turns now d c),
    )
    | inr other ↦ (
      e,
      update_other d.contract_id j (write_contract now d c) s.contracts (write_contract-id now d c)
            (λ h. ground (arith, other, (eq_iff d.contract_id j).1 h))
          ∙ at_j,
      History-refl e,
      ground (arith, other),
    )
  ];
}

insert_message-Follows :
    (now : ℕ) (id : String) (d : Draft) (s : Store) → Follows s (insert_message_atomic now id d s).1
unfolding insert_message_atomic
insert_message-Follows now id d s =
    elim (Option-cases (select_contract d.contract_id s.contracts)) [
      | inl missing ↦ rw missing (Follows-refl s)
      | inr (c, found) ↦ elim (Option-cases (refusal d c)) [
        | inl free ↦ rw (found, free) (insert_into-Follows now id d c s found free)
        | inr (e, barred) ↦ rw (found, barred) (Follows-refl s)
      ]
    ]

-- The question is a row of another table.
with_question-Follows :
    (now : ℕ) (id qid : String) (d : Draft) (q : ValidatedQuestion) (s : Store)
    → Follows s (insert_message_with_question now id qid d q s).1
unfolding insert_message_with_question insert_message_atomic
with_question-Follows now id qid d q s =
    let e = record d { requires_action = some false } in
    elim (Option-cases (select_contract d.contract_id s.contracts)) [
      | inl missing ↦ rw missing (Follows-refl s)
      | inr (c, found) ↦ elim (Option-cases (refusal e c)) [
        | inl free ↦
            rw (found, free)
              (Follows-trans (insert_into-Follows now id e c s found free)
                (Follows-Same (record { contracts_kept = refl; messages_kept = refl })))
        | inr (x, barred) ↦ rw (found, barred) (Follows-refl s)
      ]
    ]

answered_by_same : (x : (RpcResult × Option String) × Store) → (answered_by x).1 ≡ x.1
answered_by_same ((error e, q), s) = refl
answered_by_same ((success r, q), s) = refl

run_insert-Keeps :
    (m : Platform) (now : ℕ) (d : Draft) (q : Option ValidatedQuestion)
    → Keeps (run_insert m now d q)
unfolding run_insert
run_insert-Keeps m now d none = record {
  at = λ s. rw answered_by_same (insert_message-Follows now m.message_id d s);
}
run_insert-Keeps m now d (some q) = record {
  at = λ s. rw answered_by_same (with_question-Follows now m.message_id m.question_id d q s);
}

pub Reads-Keeps : {A : Type 0} (m : Action A) → Reads m → Keeps m
Reads-Keeps m h = record { at = λ s. rw (h.kept s) (Follows-refl s) }

tell_peers-Same :
    (m : Platform) (id : String) (auth : Caller) (t : MessageType) (content : Fields) (b : Bool)
    (r : Inserted) (qid : Option String) (s : Store)
    → Same s (tell_peers m id auth t content b r qid s)
unfolding tell_peers
tell_peers-Same m id auth t content b r qid s = deliver-Same _ _ id s

tell_closed-Same :
    (id : String) (c : Contract) (t : MessageType) (r : Inserted) (s : Store)
    → Same s (tell_closed id c t r s)
unfolding tell_closed
tell_closed-Same id c t r s = elim (Bool-cases r.completed) [
  | inl done ↦ rw done (emit_Same id _ _ _ _ _ false s)
  | inr going ↦ elim (Bool-cases (closed_by_max_turns t r)) [
    | inl spent_out ↦ rw (going, spent_out) (emit_Same id _ _ _ _ _ false s)
    | inr open_still ↦ rw (going, open_still) (Same-refl s)
  ]
]

pub announce_question-Same :
    (id qid : String) (auth : Caller) (q : ValidatedQuestion) (mid : Option String) (s : Store)
    → Same s (announce_contract_question id qid auth q mid s)
unfolding announce_contract_question
announce_question-Same id qid auth q mid s =
    elim (Bool-cases (eqb (length (peers_of id auth s)) 0)) [
      | inl alone ↦ rw alone (audit-Same _ _ id s)
      | inr with_peers ↦ rw with_peers (Same-trans (audit-Same _ _ id s) (deliver-Same _ _ id _))
    ]

tell_question-Same :
    (id : String) (auth : Caller) (q : Option ValidatedQuestion) (qid : Option String)
    (mid : String) (s : Store)
    → Same s (tell_question id auth q qid mid s)
tell_question-Same id auth none qid mid s = Same-refl s
tell_question-Same id auth (some q) none mid s = Same-refl s
tell_question-Same id auth (some q) (some qid) mid s =
    announce_question-Same id qid auth q (some mid) s

pub announce_message-Same :
    (m : Platform) (auth : Caller) (id : String) (c : Contract) (d : Draft)
    (q : Option ValidatedQuestion) (r : Inserted) (qid : Option String) (s : Store)
    → Same s (announce_message m auth id c d q r qid s)
unfolding announce_message
announce_message-Same m auth id c d q r qid s =
    Same-trans (tell_peers-Same m id auth d.message_type d.content _ r qid s) (
      Same-trans (tell_closed-Same id c d.message_type r _)
        (Same-trans (tell_question-Same id auth q qid r.message_id _) (audit-Same _ _ _ _)))

module _ (m : Platform) (others : Store → Store) (now : ℕ) (auth : Caller) (id : String)
    (body : MessageBody) (polite : (s : Store) → Follows s (others s)) where
  post_checked-Keeps :
      (p : Participant) (c : Contract) → Keeps (post_checked m others now auth id body p c)
  unfolding post_checked
  post_checked-Keeps p c = Keeps-bind _ _ (Keeps-guard _ _ _) (λ _.
      Keeps-bind _ _ (enforce-Keeps _) (λ _.
        Keeps-bind _ _ (Reads-Keeps _ (read_message-Reads m auth id body c)) (λ d.
          Keeps-bind _ _ (Keeps-modify others polite) (λ _.
            Keeps-bind _ _ (run_insert-Keeps m now d.0 d.1) (λ r.
              Keeps-bind _ _
                (Keeps-modify _
                  (λ s. Follows-Same (announce_message-Same m auth id c d.0 d.1 r.0 r.1 s)))
                (λ _. Keeps-pure _))))))

  pub post_message-Keeps : Keeps (post_message m others now auth id body)
  unfolding post_message
  post_message-Keeps = Keeps-bind _ _ (Keeps-gets _) (λ found.
      Keeps-bind _ _ (Keeps-require found _ _)
        (λ p. Keeps-checked now id _ _ _ (λ c checked. post_checked-Keeps p checked)))
