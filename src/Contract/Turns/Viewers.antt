-- ===== src/Contract/Turns/Viewers.antt =====
-- src/lib/contract-turn-state.ts: whether two agents who look at one contract see one answer.
use a2a_comms.Common.{
  ◌<◌, String, ◌≡◌, refl, ap, ◌∙◌, ◌≢◌, inl, inr, true, false, Option, none, some, List, [], arith,
  eq_iff, is_some, Bool-cases,
}
use a2a_comms.Contract.{is_ended, active, Contract}
use a2a_comms.Contract.Turns.{
  only, is_false, other_participants, derive_reply, derive_without_questions, blocking_question,
  override, derive_contract_turn_state, you, ContractTurnState, TurnStateParticipant,
  TurnStateBlockingQuestion, TurnStateLastMessage,
}
use a2a_comms.Contract.Turns.Owed.{awaiting_names_agent}

-- Exactly one participant could answer the last message, if there is one.
abbrev pub HasOneAnswerer : List TurnStateParticipant → Option TurnStateLastMessage → Type 0
HasOneAnswerer ps none = Unit
HasOneAnswerer ps (some m) = is_some (only (other_participants ps m.sender_id)) ≡ true

same_owed :
    (c : Contract) (v w : String) (ps : List TurnStateParticipant)
    (last : Option TurnStateLastMessage)
    → HasOneAnswerer ps last
    → (derive_without_questions c v ps last).awaiting_agent_id
      ≡ (derive_without_questions c w ps last).awaiting_agent_id
unfolding derive_without_questions
same_owed c v w ps none h = ground arith
same_owed c v w ps (some m) h = ground arith

override_same_owed :
    (c : Contract) (v w : String) (ps : List TurnStateParticipant) (t u : ContractTurnState)
    (q : Option TurnStateBlockingQuestion)
    → t.awaiting_agent_id ≡ u.awaiting_agent_id
    → (override c v ps t q).awaiting_agent_id ≡ (override c w ps u q).awaiting_agent_id
unfolding override
override_same_owed c v w ps t u none h = h
override_same_owed c v w ps t u (some q) h = elim (Bool-cases (is_ended c.status)) [
  | inl over ↦ rw over h
  | inr live ↦ rw live refl
]

same_agent :
    (c : Contract) (v w : String) (ps : List TurnStateParticipant)
    (last : Option TurnStateLastMessage) (qs : List TurnStateBlockingQuestion)
    → HasOneAnswerer ps last
    → (derive_contract_turn_state c v ps last qs).awaiting_agent_id
      ≡ (derive_contract_turn_state c w ps last qs).awaiting_agent_id
unfolding derive_contract_turn_state
same_agent c v w ps last qs h =
    let same = same_owed c v w ps last h in
    let u = derive_without_questions c w ps last in
    override_same_owed c v w ps (derive_without_questions c v ps last) u _ same
    ∙ ap (λ o. (override c w ps u (blocking_question o qs)).awaiting_agent_id) same

blocking_question-nil : (o : Option String) → blocking_question o [] ≡ none
unfolding blocking_question
blocking_question-nil none = refl
blocking_question-nil (some a) = refl

no_questions :
    (c : Contract) (viewer : String) (ps : List TurnStateParticipant)
    (last : Option TurnStateLastMessage)
    → (derive_contract_turn_state c viewer ps last []).awaiting_agent_id
      ≡ (derive_without_questions c viewer ps last).awaiting_agent_id
unfolding derive_contract_turn_state override
no_questions c viewer ps last =
    let t = derive_without_questions c viewer ps last in
    ap (λ q. (override c viewer ps t q).awaiting_agent_id)
      (blocking_question-nil t.awaiting_agent_id)

-- Where exactly one participant can answer the last message, or there is no message, any two
-- viewers are shown the same agent as the one that owes the move; so two different agents are
-- never both told that the move is theirs.
pub viewers_agree :
    (c : Contract) (v w : String) (ps : List TurnStateParticipant)
    (last : Option TurnStateLastMessage) (qs : List TurnStateBlockingQuestion)
    → HasOneAnswerer ps last
    → let t = derive_contract_turn_state c v ps last qs in
      let u = derive_contract_turn_state c w ps last qs in
      (t.awaiting_agent_id ≡ u.awaiting_agent_id) × (t.awaiting ≡ you → u.awaiting ≡ you → v ≡ w)
viewers_agree c v w ps last qs h =
    let same = same_agent c v w ps last qs h in
    let (tv, _) = awaiting_names_agent c v ps last qs in
    let (tw, _) = awaiting_names_agent c w ps last qs in
    (same, λ a b. ground (arith, same, tv.0 a, tw.0 b))

reply_to_many :
    (c : Contract) (viewer : String) (ps : List TurnStateParticipant) (m : TurnStateLastMessage)
    → is_false m.consumes_turn ≡ false
    → is_false m.requires_action ≡ false
    → only (other_participants ps m.sender_id) ≡ none
    → m.sender_id ≢ viewer
    → (derive_reply viewer ps m).awaiting_agent_id ≡ some viewer
unfolding derive_reply
reply_to_many c viewer ps m turn asks many not_sender =
    rw (many, turn, asks) (ground (arith, eq_iff m.sender_id viewer))

reply_stands :
    (c : Contract) (viewer : String) (ps : List TurnStateParticipant) (m : TurnStateLastMessage)
    → c.status ≡ active
    → c.current_turns < c.max_turns
    → derive_without_questions c viewer ps (some m) ≡ derive_reply viewer ps m
unfolding derive_without_questions
reply_stands c viewer ps m live room = ground arith
