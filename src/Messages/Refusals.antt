-- ===== src/Messages/Refusals.antt =====
-- What a refused message leaves behind, with nobody else at work.
use a2a_comms.Common.{
  ℕ, String, ◌≡◌, refl, sym, ap, ◌∙◌, ◌⊎◌, inl, inr, true, false, Option, none, some, arith,
  Bool-cases, Option-cases,
}
use a2a_comms.Contract.{is_proposed, Contract, Participant, ErrorCode, not_found}
use a2a_comms.Contract.Store.{
  Action, pure, gets, modify, require, ◌>>=◌, select_contract, update_contract, Store, Caller,
  Reply, refuse, reply,
}
use a2a_comms.Contract.Routes.{get_participant, enforce, is_due, auto_close_if_expired}
use a2a_comms.Contract.Policy
use a2a_comms.Contract.Outcomes.{is_reply}
use a2a_comms.Channel.{ValidatedQuestion}
use a2a_comms.Messages.Insert.{
  refusal, insert_message_atomic, insert_message_with_question, Inserted, Draft,
}
use a2a_comms.Messages.Request.{MessageBody, Platform}
use a2a_comms.Messages.Send.{
  run_insert, message_response, announce_message, post_checked, post_message,
}
use a2a_comms.Messages.Reading.{Reads-guard, read_message-Reads, Reads}

-- A refusal comes with the store that was found.
record Clean {A : Type 0} (m : Action A) : Type 0 where
  kept : (s : Store) → is_reply (m s).0 ≡ false → (m s).1 ≡ s

module _ {A B : Type 0} where
  Clean-after :
      (r : Reply A) (s t : Store) (f : A → Action B)
      → ((a : A) → Clean (f a))
      → t ≡ s
      → (let x : Reply B × Store = elim r [ reply a ↦ f a t | refuse st c ↦ (refuse st c, t) ] in
          is_reply x.0 ≡ false → x.1 ≡ s)
  Clean-after (reply a) s t f kf e = λ h. (kf a).kept t h ∙ e
  Clean-after (refuse st c) s t f kf e = λ h. e

  Reads-Clean :
      (m : Action A) (f : A → Action B) → Reads m → ((a : A) → Clean (f a)) → Clean (m >>= f)
  unfolding ◌>>=◌
  Reads-Clean m f km kf = record { kept = λ s h. Clean-after (m s).0 s (m s).1 f kf (km.kept s) h }

enforce-Reads : (d : Policy.ContractParticipantPolicyDecision) → Reads (enforce d)
unfolding enforce
enforce-Reads Policy.ContractParticipantPolicyDecision.allowed = record { kept = λ s. refl }
enforce-Reads (Policy.ContractParticipantPolicyDecision.refused st c) = record { kept = λ s. refl }

-- An insert that is answered by an error has written nothing.
insert_refused :
    (m : Platform) (now : ℕ) (d : Draft) (q : Option ValidatedQuestion) (s : Store)
    → is_reply (run_insert m now d q s).0 ≡ false
    → (run_insert m now d q s).1 ≡ s
unfolding run_insert insert_message_atomic insert_message_with_question
insert_refused m now d none s h = elim (Option-cases (select_contract d.contract_id s.contracts)) [
  | inl missing ↦ rw missing refl
  | inr (c, found) ↦ elim (Option-cases (refusal d c)) [
    | inl free ↦ ground (arith, found, free)
    | inr (e, barred) ↦ rw (found, barred) refl
  ]
]
insert_refused m now d (some q) s h =
    elim (Option-cases (select_contract d.contract_id s.contracts)) [
      | inl missing ↦ rw missing refl
      | inr (c, found) ↦
          elim (Option-cases (refusal (record d { requires_action = some false }) c)) [
            | inl free ↦ ground (arith, found, free)
            | inr (e, barred) ↦ rw (found, barred) refl
          ]
    ]

-- After the insert the route only announces and replies.
after_insert :
    {A : Type 0} (x : Reply (Inserted × Option String) × Store) (s : Store)
    (f : Inserted × Option String → Store → Store) (g : Inserted × Option String → A)
    → (is_reply x.0 ≡ false → x.1 ≡ s)
    → (let y : Reply A × Store = elim x.0 [
      | reply a ↦ (reply (g a), f a x.1)
      | refuse st c ↦ (refuse st c, x.1)
    ] in
        is_reply y.0 ≡ false → y.1 ≡ s)
after_insert (reply a, t) s f g h = λ e. ground (arith, e)
after_insert (refuse st c, t) s f g h = λ e. h refl

bind_at :
    {A B : Type 0} (m : Action A) (f : A → Action B) (s : Store) (a : A) (t : Store)
    → m s ≡ (reply a, t)
    → (m >>= f) s ≡ f a t
unfolding ◌>>=◌
bind_at {A} {B} m f s a t e =
    ap
      (λ (x : Reply A × Store).
        let y : Reply B × Store = elim x.0 [
          | reply b ↦ f b x.1
          | refuse st c ↦ (refuse st c, x.1)
        ] in
        y)
      e

bind_stop :
    {A B : Type 0} (f : A → Action B) (st : ℕ) (c : ErrorCode) (s : Store)
    → (require none st c >>= f) s ≡ (refuse st c, s)
unfolding ◌>>=◌
bind_stop f st c s = refl

gets_at : {A : Type 0} (f : Store → A) (s : Store) (a : A) → f s ≡ a → gets f s ≡ (reply a, s)
unfolding gets
gets_at f s a e = rw e refl

require_at :
    {A : Type 0} (a : A) (st : ℕ) (c : ErrorCode) (s : Store)
    → require (some a) st c s ≡ (reply a, s)
unfolding require
require_at a st c s = refl

not_due :
    (now : ℕ) (c : Contract) (s : Store)
    → is_due now c ≡ false
    → auto_close_if_expired (λ t. t) now c s ≡ (reply c, s)
unfolding auto_close_if_expired ◌>>=◌
not_due now c s fresh = rw fresh refl

module _ (m : Platform) (now : ℕ) (auth : Caller) (id : String) (body : MessageBody) where
  insert-Clean :
      (d : Draft) (q : Option ValidatedQuestion) (c : Contract)
      → Clean (
          modify (λ s. s) >>= λ _. run_insert m now d q >>= λ r.
          modify (announce_message m auth id c d q r.0 r.1) >>= λ _.
          pure (message_response id auth c d.message_type d.content r.0 r.1))
  unfolding ◌>>=◌
  insert-Clean d q c = record {
    kept = λ s h.
        after_insert (run_insert m now d q s) s (λ a. announce_message m auth id c d q a.0 a.1)
          (λ a. message_response id auth c d.message_type d.content a.0 a.1)
          (insert_refused m now d q s) h;
  }

  post_checked-Clean :
      (p : Participant) (c : Contract) → Clean (post_checked m (λ s. s) now auth id body p c)
  unfolding post_checked
  post_checked-Clean p c = Reads-Clean _ _ (Reads-guard _ _ _) (λ _.
      Reads-Clean _ _ (enforce-Reads _)
        (λ _. Reads-Clean _ _ (read_message-Reads m auth id body c) (λ d. insert-Clean d.0 d.1 c)))

  -- The route, once the participant and the contract were found.
  reaches :
      (p : Participant) (c : Contract) (s : Store)
      → get_participant id auth.id s ≡ some p
      → select_contract id s.contracts ≡ some c
      → post_message m (λ t. t) now auth id body s
        ≡ (auto_close_if_expired (λ t. t) now c >>= post_checked m (λ t. t) now auth id body p) s
  unfolding post_message
  reaches p c s found row =
      bind_at (gets (get_participant id auth.id)) _ s (some p) s (gets_at _ s (some p) found)
      ∙ bind_at (require (some p) 404 not_found) _ s p s (require_at p _ _ s)
      ∙ bind_at (gets (λ t. select_contract id t.contracts)) _ s (some c) s
          (gets_at _ s (some c) row)
      ∙ bind_at (require (some c) 404 not_found) _ s c s (require_at c _ _ s)

  no_contract :
      (p : Participant) (s : Store)
      → get_participant id auth.id s ≡ some p
      → select_contract id s.contracts ≡ none
      → post_message m (λ t. t) now auth id body s ≡ (refuse 404 not_found, s)
  unfolding post_message
  no_contract p s found gone =
      bind_at (gets (get_participant id auth.id)) _ s (some p) s (gets_at _ s (some p) found)
      ∙ bind_at (require (some p) 404 not_found) _ s p s (require_at p _ _ s)
      ∙ bind_at (gets (λ t. select_contract id t.contracts)) _ s none s (gets_at _ s none gone)
      ∙ bind_stop _ 404 not_found s

  -- A contract that is due no longer takes messages.
  due_refuses :
      (p : Participant) (c : Contract) (s : Store)
      → is_due now c ≡ true
      → ((auto_close_if_expired (λ t. t) now c >>= post_checked m (λ t. t) now auth id body p) s).1
        ≡ (auto_close_if_expired (λ t. t) now c s).1
  unfolding ◌>>=◌ auto_close_if_expired post_checked update_contract
  due_refuses p c s due = elim (Bool-cases (is_proposed c.status)) [
    | inl early ↦ ground (arith, due, early)
    | inr later ↦ ground (arith, due, later)
  ]

  -- With nobody else at work, a message that is refused leaves the store as it was found; or, where
  -- the contract had passed its date, as the expiry check of that contract leaves it.
  pub refused_message :
      (s : Store)
      → is_reply (post_message m (λ t. t) now auth id body s).0 ≡ false
      → ((post_message m (λ t. t) now auth id body s).1 ≡ s)
        ⊎ ((c : Contract) × (select_contract id s.contracts ≡ some c)
            × (is_due now c ≡ true)
            × ((post_message m (λ t. t) now auth id body s).1
                ≡ (auto_close_if_expired (λ t. t) now c s).1))
  unfolding post_message ◌>>=◌
  refused_message s h = elim (Option-cases (get_participant id auth.id s)) [
    | inl missing ↦ inl (rw missing refl)
    | inr (p, found) ↦ elim (Option-cases (select_contract id s.contracts)) [
      | inl gone ↦ inl (ap (λ x. x.1) (no_contract p s found gone))
      | inr (c, row) ↦ elim (Bool-cases (is_due now c)) [
        | inr fresh ↦
            let e =
              reaches p c s found row
              ∙ bind_at (auto_close_if_expired (λ t. t) now c)
                  (post_checked m (λ t. t) now auth id body p) s c s (not_due now c s fresh) in
            inl (
              ap (λ x. x.1) e
              ∙ (post_checked-Clean p c).kept s (ap (λ x. is_reply x.0) (sym e) ∙ h))
        | inl due ↦
            inr (c, row, due, ap (λ x. x.1) (reaches p c s found row) ∙ due_refuses p c s due)
      ]
    ]
  ]
