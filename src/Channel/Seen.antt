-- ===== src/Channel/Seen.antt =====
-- Acknowledging the notes of a contract again writes nothing.
use a2a_comms.Common.{
  same_text_self, same_text-eq, ℕ, String, ◌≡◌, refl, ap, inl, inr, Bool, true, false, not, ◌&&◌,
  ◌||◌, List, [], ◌∷◌, ◌++◌, map, arith, ◌==◌, Bool-cases, eq_self, length, filter, any, Text,
  same_text,
}
use a2a_comms.Channel.{valid}
use a2a_comms.Channel.Board.{
  has_text, live_ids, acked_ids, acks_of, acknowledge, acknowledge_contract_notes, Ack, Board,
  Acknowledged,
}

-- Whether the agent has acknowledged the note.
abbrev has_ack : String → Text → List Ack → Bool
has_ack agent_id id acks = any (λ a. a.agent_id == agent_id && same_text a.note_id id) acks

ack-listed :
    (agent_id : String) (live : List Text) (id : Text) (acks : List Ack)
    → has_text live id ≡ true
    → has_ack agent_id id acks ≡ true
    → has_text
        (map
          (λ a. a.note_id)
          (filter (λ a. a.agent_id == agent_id && has_text live a.note_id) acks))
        id
      ≡ true
ack-listed agent_id live id [] h k = cc
ack-listed agent_id live id (x ∷ acks) h k = elim (Bool-cases (x.agent_id == agent_id)) [
  | inr other ↦ ground (arith, other, k, ack-listed agent_id live id acks h)
  | inl own ↦ elim (Bool-cases (same_text x.note_id id)) [
    | inl hit ↦
        let same = same_text-eq x.note_id id hit in rw (own, same, h) (rw (same_text_self id) refl)
    | inr miss ↦ elim (Bool-cases (has_text live x.note_id)) [
      | inl kept ↦ ground (arith, own, kept, miss, k, ack-listed agent_id live id acks h)
      | inr left ↦ ground (arith, own, left, miss, k, ack-listed agent_id live id acks h)
    ]
  ]
]

listed-ack :
    (agent_id : String) (live : List Text) (id : Text) (acks : List Ack)
    → has_text
        (map
          (λ a. a.note_id)
          (filter (λ a. a.agent_id == agent_id && has_text live a.note_id) acks))
        id
      ≡ true
    → has_ack agent_id id acks ≡ true
listed-ack agent_id live id [] h = cc
listed-ack agent_id live id (x ∷ acks) h =
    elim (Bool-cases (x.agent_id == agent_id && has_text live x.note_id)) [
      | inl kept ↦ elim (Bool-cases (same_text x.note_id id)) [
        | inl hit ↦ ground (arith, kept, hit)
        | inr miss ↦ ground (arith, kept, miss, h, listed-ack agent_id live id acks)
      ]
      | inr left ↦ ground (arith, left, h, listed-ack agent_id live id acks)
    ]

has_ack-++ :
    (agent_id : String) (id : Text) (xs ys : List Ack)
    → has_ack agent_id id (xs ++ ys) ≡ (has_ack agent_id id xs || has_ack agent_id id ys)
has_ack-++ agent_id id [] ys = refl
has_ack-++ agent_id id (x ∷ xs) ys = ground (arith, has_ack-++ agent_id id xs ys)

has_ack-acks_of :
    (agent_id : String) (id : Text) (ids : List Text)
    → has_text ids id ≡ true
    → has_ack agent_id id (acks_of agent_id ids) ≡ true
has_ack-acks_of agent_id id [] h = cc
has_ack-acks_of agent_id id (i ∷ ids) h =
    ground (arith, eq_self agent_id, has_ack-acks_of agent_id id ids)

has_text-filter :
    (p : Text → Bool) (ids : List Text) (id : Text)
    → has_text ids id ≡ true
    → p id ≡ true
    → has_text (filter p ids) id ≡ true
has_text-filter p [] id h k = cc
has_text-filter p (i ∷ ids) id h k = elim (Bool-cases (same_text i id)) [
  | inl hit ↦ rw (same_text-eq i id hit, k) (rw (same_text_self id) refl)
  | inr miss ↦ ground (arith, miss, h, has_text-filter p ids id)
]

filter_nothing :
    (p : Text → Bool) (all ids : List Text)
    → ((id : Text) → has_text all id ≡ true → p id ≡ false)
    → ((id : Text) → has_text ids id ≡ true → has_text all id ≡ true)
    → filter p ids ≡ []
filter_nothing p all [] h k = refl
filter_nothing p all (i ∷ ids) h k =
    rw (h i (k i (rw (same_text_self i) refl)))
      (filter_nothing p all ids h (λ id e. k id (ground (arith, e))))

module _ (agent_id : String) (live : List Text) (b : Board) where
  abbrev fresh_ids : List Text
  fresh_ids = filter (λ id. not (has_text (acked_ids agent_id live b) id)) live

  abbrev acks_then : List Ack
  acks_then = acks_of agent_id fresh_ids ++ b.acks

  -- Every live note is acknowledged then.
  all_acked : (id : Text) → has_text live id ≡ true → has_ack agent_id id acks_then ≡ true
  all_acked id h = elim (Bool-cases (has_text (acked_ids agent_id live b) id)) [
    | inl before ↦
        let old = listed-ack agent_id live id b.acks before in
        ground (arith, has_ack-++ agent_id id (acks_of agent_id fresh_ids) b.acks, old)
    | inr unseen ↦
        let new = has_ack-acks_of agent_id id fresh_ids (
          has_text-filter (λ i. not (has_text (acked_ids agent_id live b) i)) live id h
            (rw unseen refl)) in
        ground (arith, has_ack-++ agent_id id (acks_of agent_id fresh_ids) b.acks, new)
  ]

  nothing_fresh :
      filter
        (λ id. not (has_text (acked_ids agent_id live (record b { acks = acks_then })) id))
        live
      ≡ []
  nothing_fresh =
      filter_nothing _ live live
        (λ id h. rw (ack-listed agent_id live id acks_then h (all_acked id h)) refl) (λ id h. h)

  acknowledge_again : (acknowledge agent_id live (acknowledge agent_id live b).1) ≡ (
    record {
      acknowledged = 0;
      already = length (acked_ids agent_id live (acknowledge agent_id live b).1);
    },
    (acknowledge agent_id live b).1,
  )
  unfolding acknowledge
  acknowledge_again = rw nothing_fresh refl

-- An agent that has acknowledged the notes of a contract and does so again at once is told that it
-- acknowledged none, and the channel is as it was.
pub acknowledge_twice :
    (contract_id agent_id : String) (b : Board)
    → (n : ℕ) × (acknowledge_contract_notes contract_id agent_id []
          (acknowledge_contract_notes contract_id agent_id [] b).1
        ≡ (
          valid (record { acknowledged = 0; already = n }),
          (acknowledge_contract_notes contract_id agent_id [] b).1,
        ))
unfolding acknowledge_contract_notes
acknowledge_twice contract_id agent_id b =
    let live = live_ids contract_id b in
    (
      length (acked_ids agent_id live (acknowledge agent_id live b).1),
      ap (λ (x : Acknowledged × Board). (valid x.0, x.1)) (acknowledge_again agent_id live b),
    )
