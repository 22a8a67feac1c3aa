-- ===== src/Contract/Turns/Examples.antt =====
-- Runs of the turn state, and the theorems at concrete contracts.
use a2a_comms.Common.{String, ◌≡◌, refl, true, false, none, some, List, [], ◌∷◌}
use a2a_comms.Contract.{
  is_ended, active, ParticipantRole, proposer, invitee, observer, ParticipantStatus, MessageType,
  Contract,
}
use a2a_comms.Contract.Turns.{
  name_of, other_participants, derive_without_questions, blocking_question,
  derive_contract_turn_state, you, you_open, you_asked_a_human, TurnStateParticipant,
  TurnStateBlockingQuestion, TurnStateLastMessage,
}
use a2a_comms.Contract.Turns.Viewers.{viewers_agree}

turns : Unit {0}
unfolding derive_contract_turn_state derive_without_questions blocking_question name_of is_ended
turns = tt

abbrev review : Contract
review = record {
  id = "k1";
  status = active;
  proposer_id = "p";
  max_turns = 5;
  current_turns = 2;
  close_reason = none;
  closed_by = none;
  closed_by_kind = none;
  expires_at = none;
  closed_at = none;
  completion_requires_approval = true;
  completion_approved_at = none;
  completion_approved_by = none;
  closed_without_approval = false;
  updated_at = 0;
}

abbrev party : String → ParticipantRole → TurnStateParticipant
party a r = record { agent_id = a; role = r; status = ParticipantStatus.accepted; name = some a }

abbrev two : List TurnStateParticipant
two = party "p" proposer ∷ party "i" invitee ∷ []

abbrev three : List TurnStateParticipant
three = party "p" proposer ∷ party "i" invitee ∷ party "j" invitee ∷ party "o" observer ∷ []

abbrev asking : TurnStateLastMessage
asking = record {
  sender_id = "p";
  message_type = MessageType.request;
  requires_action = some true;
  consumes_turn = some true;
  created_at = 7;
}

abbrev stuck : TurnStateBlockingQuestion
stuck = record { asked_by_agent_id = "i"; kind = "blocked" }

opened : (derive_contract_turn_state review "i" two none []).reason ≡ you_open
unfolding turns
opened = refl

handed_to_human :
    (derive_contract_turn_state review "i" two (some asking) (stuck ∷ [])).reason
    ≡ you_asked_a_human true
unfolding turns
handed_to_human = refl

viewers_agree_example :
    let t = derive_contract_turn_state review "i" two (some asking) [] in
    let u = derive_contract_turn_state review "p" two (some asking) [] in
    (t.awaiting_agent_id ≡ u.awaiting_agent_id)
    × (t.awaiting ≡ you → u.awaiting ≡ you → ◌≡◌ {A = String} "i" "p")
unfolding other_participants
viewers_agree_example = viewers_agree review "i" "p" two (some asking) [] refl
