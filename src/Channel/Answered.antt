-- ===== src/Channel/Answered.antt =====
-- A question to a person is answered or dismissed once, and then stays as it is.
use a2a_comms.Common.{
  ℕ, String, ◌≡◌, refl, inl, inr, true, false, Option, none, some, List, [], ◌∷◌, arith, ◌==◌,
  eq_iff, Bool-cases, Option-cases, filter, find?, every, update_where, Text,
}
use a2a_comms.Contract.{already_responded}
use a2a_comms.Channel.{ValidatedQuestion, refused, valid}
use a2a_comms.Contract.Store.{Question}
use a2a_comms.Links.{is_uuid}
use a2a_comms.Channel.Board.{
  create_contract_note, update_contract_note, withdraw_contract_note, has_text, live_ids,
  acknowledge_contract_notes, create_contract_question, is_unanswered, open_question, resolve,
  resolve_contract_question, Answerer, Board, Resolution, answers, dismisses,
}

-- What agents and operators do to the channel, one request after the other.
pub data Goes : Board → Board → Type 0 where
  rests : {b : Board} → Goes b b
  notes :
      {b c : Board} (now : ℕ) (id : Text) (cid : String) (body : Text) (author : String)
      → Goes (create_contract_note now id cid body author b) c
      → Goes b c
  edits :
      {b c : Board} (now : ℕ) (id body : Text)
      → Goes (update_contract_note now id body b).1 c
      → Goes b c
  withdraws :
      {b c : Board} (now : ℕ) (id : Text) → Goes (withdraw_contract_note now id b).1 c → Goes b c
  acknowledges :
      {b c : Board} (cid agent_id : String) (ids : List Text)
      → Goes (acknowledge_contract_notes cid agent_id ids b).1 c
      → Goes b c
  asks :
      {b c : Board} (id cid agent_id : String) (q : ValidatedQuestion)
      → find? (λ x. x.id == id) b.questions ≡ none
      → Goes (create_contract_question id cid agent_id q b) c
      → Goes b c
  -- A message that needs a person inserts a question of its own.
  raises :
      {b c : Board} (x : Question)
      → find? (λ q. q.id == x.id) b.questions ≡ none
      → Goes (record b { questions = x ∷ b.questions }) c
      → Goes b c
  resolves :
      {b c : Board} (now : ℕ) (id : String) (r : Resolution) (who : Answerer)
      → Goes (resolve_contract_question now id r who b).1 c
      → Goes b c

abbrev pub question_by_id : String → List Question → Option Question
question_by_id id qs = find? (λ q. q.id == id) qs

-- A question that is no longer open stays as it is when another write looks for open ones.
resolve_keeps :
    (now : ℕ) (id j : String) (r : Resolution) (who : Answerer) (qs : List Question) (q : Question)
    → question_by_id j qs ≡ some q
    → is_unanswered q.status ≡ false
    → question_by_id j (update_where (open_question id) (resolve now r who) qs) ≡ some q
resolve_keeps now id j r who [] q h d = cc
resolve_keeps now id j r who (x ∷ qs) q h d = ground (arith, resolve_keeps now id j r who qs q)

ask_keeps :
    (id j : String) (x q : Question) (qs : List Question)
    → x.id ≡ id
    → question_by_id id qs ≡ none
    → question_by_id j qs ≡ some q
    → question_by_id j (x ∷ qs) ≡ some q
ask_keeps id j x q qs e new h = ground (arith, e, eq_iff id j, new, h)

acknowledge_same :
    (cid agent_id : String) (ids : List Text) (b : Board)
    → (acknowledge_contract_notes cid agent_id ids b).1.questions ≡ b.questions
unfolding acknowledge_contract_notes
acknowledge_same cid agent_id [] b = refl
acknowledge_same cid agent_id (i ∷ is) b =
    elim (Bool-cases (every (has_text (live_ids cid b)) (filter is_uuid (i ∷ is)))) [
      | inl all_live ↦ rw all_live refl
      | inr missing ↦ rw missing refl
    ]

-- A question that is closed stays as it is, whatever is done to the channel.
closed_stays :
    (b c : Board) (id : String) (q : Question)
    → Goes b c
    → question_by_id id b.questions ≡ some q
    → is_unanswered q.status ≡ false
    → question_by_id id c.questions ≡ some q
unfolding create_contract_note update_contract_note withdraw_contract_note create_contract_question
    resolve_contract_question
closed_stays b c id q rests h d = h
closed_stays b c id q (notes now i cid body author next) h d = closed_stays _ c id q next h d
closed_stays b c id q (edits now i body next) h d = closed_stays _ c id q next h d
closed_stays b c id q (withdraws now i next) h d = closed_stays _ c id q next h d
closed_stays b c id q (acknowledges cid a ids next) h d =
    closed_stays _ c id q next (rw (acknowledge_same cid a ids b) h) d
closed_stays b c id q (asks i cid a v new next) h d =
    closed_stays _ c id q next (ask_keeps i id _ q b.questions refl new h) d
closed_stays b c id q (raises x new next) h d =
    closed_stays _ c id q next (ask_keeps x.id id x q b.questions refl new h) d
closed_stays b c id q (resolves now i r who next) h d =
    closed_stays _ c id q next (resolve_keeps now i id r who b.questions q h d) d

-- `id` is the primary key.
abbrev pub Distinct : List Question → Type 0
Distinct [] = Unit
Distinct (q ∷ qs) = (question_by_id q.id qs ≡ none) × Distinct qs

no_open :
    (id : String) (qs : List Question)
    → question_by_id id qs ≡ none
    → find? (open_question id) qs ≡ none
no_open id [] h = refl
no_open id (x ∷ qs) h = ground (arith, no_open id qs)

-- The open question with an id is the question with that id, if it is open.
find_open :
    (id : String) (qs : List Question) (q : Question)
    → Distinct qs
    → find? (open_question id) qs ≡ some q
    → (question_by_id id qs ≡ some q) × (is_unanswered q.status ≡ true)
find_open id [] q k h = cc
find_open id (x ∷ qs) q (new, k) h = elim (Bool-cases (x.id == id)) [
  | inl same ↦ elim (Bool-cases (is_unanswered x.status)) [
    | inl waiting ↦ (ground (arith, same, waiting, h), ground (arith, same, waiting, h))
    | inr over ↦
        let none_left = no_open id qs (ground (arith, eq_iff x.id id, same, new)) in
        (ground (arith, same, over, h, none_left), ground (arith, same, over, h, none_left))
  ]
  | inr other ↦
      let (found, waiting) = find_open id qs q k (ground (arith, other, h)) in
      (ground (arith, other, found), waiting)
]

resolve_writes :
    (now : ℕ) (id : String) (r : Resolution) (who : Answerer) (qs : List Question) (q : Question)
    → question_by_id id qs ≡ some q
    → is_unanswered q.status ≡ true
    → question_by_id id (update_where (open_question id) (resolve now r who) qs)
      ≡ some (resolve now r who q)
resolve_writes now id r who [] q h k = cc
resolve_writes now id r who (x ∷ qs) q h k = ground (arith, resolve_writes now id r who qs q)

resolved_is_closed :
    (now : ℕ) (r : Resolution) (who : Answerer) (q : Question)
    → is_unanswered (resolve now r who q).status ≡ false
resolved_is_closed now (answers a) who q = refl
resolved_is_closed now (dismisses a) who q = refl

no_open_if_closed :
    (id : String) (qs : List Question) (q : Question)
    → Distinct qs
    → question_by_id id qs ≡ some q
    → is_unanswered q.status ≡ false
    → find? (open_question id) qs ≡ none
no_open_if_closed id qs q k h d = elim (Option-cases (find? (open_question id) qs)) [
  | inl gone ↦ gone
  | inr (x, found) ↦
      let (same, waiting) = find_open id qs x k found in ground (arith, same, waiting, h, d)
]

-- Ids are a primary key, before and after: a question that was answered or dismissed stays exactly
-- as that answer left it, whatever agents and operators then do to the channel, and each later
-- attempt to answer or dismiss it is refused as already responded.
pub answered_once :
    (now later : ℕ) (id : String) (r s : Resolution) (who other : Answerer) (b c : Board)
    (q : Question)
    → Distinct b.questions
    → Distinct c.questions
    → (resolve_contract_question now id r who b).0 ≡ valid q
    → Goes (resolve_contract_question now id r who b).1 c
    → (question_by_id id c.questions ≡ some q)
      × ((resolve_contract_question later id s other c).0 ≡ refused 409 already_responded)
unfolding resolve_contract_question
answered_once now later id r s who other b c q kb kc sent run =
    elim (Option-cases (find? (open_question id) b.questions)) [
      | inl none_open ↦ ground (arith, none_open, sent)
      | inr (x, found) ↦
          let (at_b, waiting) = find_open id b.questions x kb found in
          let written = resolve_writes now id r who b.questions x at_b waiting in
          let over = resolved_is_closed now r who x in
          let at_c = closed_stays _ c id (resolve now r who x) run written over in
          let gone = no_open_if_closed id c.questions (resolve now r who x) kc at_c over in
          (ground (arith, at_c, found, sent), rw gone refl)
    ]
