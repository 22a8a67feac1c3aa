-- ===== src/Contract/Turns/Owed.antt =====
-- src/lib/contract-turn-state.ts: what the derived state says, whoever looks.
use a2a_comms.Common.{
  ◌≤◌, String, ◌≡◌, refl, sym, ◌∙◌, ◌≢◌, ◌↔◌, ◌⊎◌, inl, inr, true, false, not, ◌&&◌, Option, none,
  some, List, [], ◌∷◌, arith, ◌==◌, eq_iff, if◌then◌else◌, is_some, Bool-cases, Option-cases, find?,
}
use mathlib.Core.List.{Memᴰ}
use a2a_comms.Contract.{is_ended, active, Contract}
use a2a_comms.Contract.Turns.{
  wait_state, derive_without_questions, blocking_question, override, derive_contract_turn_state,
  you, peer, human, ContractTurnState, TurnStateParticipant, TurnStateBlockingQuestion,
  TurnStateLastMessage,
}

wait_state_lem :
    (c : Contract) (viewer : String) (ps : List TurnStateParticipant)
    (last : Option TurnStateLastMessage)
    → (derive_without_questions c viewer ps last).awaiting
      ≡ wait_state (derive_without_questions c viewer ps last).awaiting_agent_id viewer
unfolding derive_without_questions
wait_state_lem c viewer ps none = ground arith
wait_state_lem c viewer ps (some m) = ground arith

-- The word shown follows from the agent named, unless a person is waited for.
abbrev IsConsistent : String → ContractTurnState → Type 0
IsConsistent viewer t =
    (t.awaiting ≡ wait_state t.awaiting_agent_id viewer)
    ⊎ ((t.awaiting ≡ human) × (t.awaiting_agent_id ≡ none))

override-IsConsistent :
    (c : Contract) (viewer : String) (ps : List TurnStateParticipant) (t : ContractTurnState)
    (q : Option TurnStateBlockingQuestion)
    → t.awaiting ≡ wait_state t.awaiting_agent_id viewer
    → IsConsistent viewer (override c viewer ps t q)
unfolding override
override-IsConsistent c viewer ps t none h = inl h
override-IsConsistent c viewer ps t (some q) h = elim (Bool-cases (is_ended c.status)) [
  | inl over ↦ inl (rw over h)
  | inr live ↦ inr (rw live (refl, refl))
]

derive-IsConsistent :
    (c : Contract) (viewer : String) (ps : List TurnStateParticipant)
    (last : Option TurnStateLastMessage) (qs : List TurnStateBlockingQuestion)
    → IsConsistent viewer (derive_contract_turn_state c viewer ps last qs)
unfolding derive_contract_turn_state
derive-IsConsistent c viewer ps last qs =
    override-IsConsistent c viewer ps _ _ (wait_state_lem c viewer ps last)

named_of_IsConsistent :
    (viewer : String) (t : ContractTurnState)
    → IsConsistent viewer t
    → ((t.awaiting ≡ you) ↔ (t.awaiting_agent_id ≡ some viewer))
      × ((t.awaiting ≡ peer) ↔ ((a : String) × (t.awaiting_agent_id ≡ some a) × (a ≢ viewer)))
named_of_IsConsistent viewer t h = elim (Option-cases t.awaiting_agent_id) [
  | inl e ↦
      ((λ a. ground arith, λ a. ground arith), (λ a. ground arith, λ x. absurd (ground arith)))
  | inr (a, e) ↦ (
    (λ w. ground (arith, eq_iff a viewer), λ w. ground (arith, eq_iff a viewer)),
    (λ w. (a, e, ground (arith, eq_iff a viewer)), λ x. ground (arith, eq_iff a viewer, x.1, x.2)),
  )
]

-- The field that names the agent and the word shown to the viewer agree: `you` is shown exactly to
-- the agent named, `peer` exactly where another is named.
pub awaiting_names_agent :
    (c : Contract) (viewer : String) (ps : List TurnStateParticipant)
    (last : Option TurnStateLastMessage) (qs : List TurnStateBlockingQuestion)
    → let t = derive_contract_turn_state c viewer ps last qs in
      ((t.awaiting ≡ you) ↔ (t.awaiting_agent_id ≡ some viewer))
      × ((t.awaiting ≡ peer) ↔ ((a : String) × (t.awaiting_agent_id ≡ some a) × (a ≢ viewer)))
awaiting_names_agent c viewer ps last qs =
    named_of_IsConsistent viewer (derive_contract_turn_state c viewer ps last qs)
      (derive-IsConsistent c viewer ps last qs)

-- Once the turns of an active contract are spent the conversation no longer matters: the proposer
-- owes the approval if the gate wants one that is missing, and otherwise nobody owes anything.
pub budget_outranks_conversation :
    (c : Contract) (viewer : String) (ps : List TurnStateParticipant)
    (last : Option TurnStateLastMessage)
    → c.status ≡ active
    → c.max_turns ≤ c.current_turns
    → (derive_without_questions c viewer ps last).awaiting_agent_id ≡ (
        if c.completion_requires_approval && not (is_some c.completion_approved_at)
        then some c.proposer_id
        else none)
unfolding derive_without_questions
budget_outranks_conversation c viewer ps last live spent = ground arith

-- The question is put by the agent that owes the move, or by anyone if no agent owes it.
abbrev pub Stops : Option String → TurnStateBlockingQuestion → Type 0
Stops owed q = (owed ≡ none) ⊎ (owed ≡ some q.asked_by_agent_id)

find-Memᴰ :
    (a : String) (qs : List TurnStateBlockingQuestion) {q : TurnStateBlockingQuestion}
    → find? (λ r. r.asked_by_agent_id == a) qs ≡ some q
    → Memᴰ q qs × (q.asked_by_agent_id ≡ a)
find-Memᴰ a [] h = cc
find-Memᴰ a (r ∷ qs) h = elim (Bool-cases (r.asked_by_agent_id == a)) [
  | inl same ↦ (Memᴰ.head (ground arith), ground (arith, eq_iff r.asked_by_agent_id a))
  | inr other ↦ let (m, e) = find-Memᴰ a qs (ground arith) in (Memᴰ.tail m, e)
]

find_of_Memᴰ :
    (a : String) (qs : List TurnStateBlockingQuestion) {q : TurnStateBlockingQuestion}
    → Memᴰ q qs
    → q.asked_by_agent_id ≡ a
    → is_some (find? (λ r. r.asked_by_agent_id == a) qs) ≡ true
find_of_Memᴰ a [] m h = elim m [ ]
find_of_Memᴰ a (r ∷ qs) (Memᴰ.head e) h = ground (arith, eq_iff r.asked_by_agent_id a)
find_of_Memᴰ a (r ∷ qs) (Memᴰ.tail m) h = ground (arith, find_of_Memᴰ a qs m h)

blocking_question-Memᴰ :
    (owed : Option String) (qs : List TurnStateBlockingQuestion) {q : TurnStateBlockingQuestion}
    → blocking_question owed qs ≡ some q
    → Memᴰ q qs × Stops owed q
unfolding blocking_question
blocking_question-Memᴰ none [] h = cc
blocking_question-Memᴰ none (r ∷ qs) h = (Memᴰ.head (ground arith), inl refl)
blocking_question-Memᴰ (some a) qs h = let (m, e) = find-Memᴰ a qs h in (m, inr (rw e))

blocking_question_of_Memᴰ :
    (owed : Option String) (qs : List TurnStateBlockingQuestion) {q : TurnStateBlockingQuestion}
    → Memᴰ q qs
    → Stops owed q
    → is_some (blocking_question owed qs) ≡ true
unfolding blocking_question
blocking_question_of_Memᴰ none [] m h = elim m [ ]
blocking_question_of_Memᴰ none (r ∷ qs) m h = refl
blocking_question_of_Memᴰ (some a) qs m h = find_of_Memᴰ a qs m (ground arith)

override-human :
    (c : Contract) (viewer : String) (ps : List TurnStateParticipant) (t : ContractTurnState)
    (q : Option TurnStateBlockingQuestion)
    → t.awaiting ≢ human
    → ((override c viewer ps t q).awaiting ≡ human)
      ↔ ((is_ended c.status ≡ false) × (is_some q ≡ true))
unfolding override
override-human c viewer ps t none h = (λ e. absurd (h e), λ x. ground arith)
override-human c viewer ps t (some q) h = elim (Bool-cases (is_ended c.status)) [
  | inl over ↦ rw over (λ e. absurd (h e), λ x. ground arith)
  | inr live ↦ rw live (λ e. (refl, refl), λ x. refl)
]

wait_state-ne-human : (a : Option String) (viewer : String) → wait_state a viewer ≢ human
wait_state-ne-human a viewer h = ground arith

-- The contract waits for a person exactly when it has not ended and some question among those
-- given is put by the agent that would owe the move, or no agent would owe it.
pub human_iff_question :
    (c : Contract) (viewer : String) (ps : List TurnStateParticipant)
    (last : Option TurnStateLastMessage) (qs : List TurnStateBlockingQuestion)
    → ((derive_contract_turn_state c viewer ps last qs).awaiting ≡ human) ↔ (
        (is_ended c.status ≡ false)
        × ((q : TurnStateBlockingQuestion) × Memᴰ q qs
            × Stops (derive_without_questions c viewer ps last).awaiting_agent_id q))
unfolding derive_contract_turn_state
human_iff_question c viewer ps last qs =
    let t = derive_without_questions c viewer ps last in
    let asked = blocking_question t.awaiting_agent_id qs in
    let (to, from) = override-human c viewer ps t asked (λ e.
      wait_state-ne-human t.awaiting_agent_id viewer (sym (wait_state_lem c viewer ps last) ∙ e)) in
    (
      λ e. elim (Option-cases asked) [
        | inl nobody_asked ↦ absurd (ground (arith, to e))
        | inr (q, found) ↦ (
          (to e).0,
          let (m, s) = blocking_question-Memᴰ t.awaiting_agent_id qs found in (q, m, s),
        )
      ],
      λ (live, (q, m, s)). from (live, blocking_question_of_Memᴰ t.awaiting_agent_id qs m s),
    )
