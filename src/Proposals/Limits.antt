-- ===== src/Proposals/Limits.antt =====
-- The limit on an agent's open contracts, and what the second check of it is worth.
use a2a_comms.Common.{
  ℕ, zero, suc, String, ◌≡◌, refl, inl, inr, true, false, ◌&&◌, ◌||◌, Option, none, List, [], ◌∷◌,
  ◌++◌, map, arith, ◌==◌, eq_iff, get_or, Bool-cases, eq_self, length, filter, any,
}
use a2a_comms.Contract.{invitee, observer, invitee, observer, Contract, Participant}
use a2a_comms.Contract.{invitee, observer}
use a2a_comms.Contract.Store.{
  audit, contract_propose, ◌>>=◌, reply, ◌>>=◌, select_contract, audit, contract_propose, Store,
  reply,
}
use a2a_comms.Proposals.{
  is_open, takes_part, open_contracts, exceeded, takes_role, new_participants, AgentRow,
  ProposeContractRequest, Settled,
}
use a2a_comms.Proposals.Create.{
  insert_contract, insert_participants, recheck, contract_for, participants_for, proposal_for,
  write_proposal,
}

-- Nothing refers to this id yet.
pub record IsFresh (id : String) (s : Store) : Type 0 where
  pub no_contract : select_contract id s.contracts ≡ none
  pub no_participant : any (λ p. p.contract_id == id) s.participants ≡ false

not_taking_part :
    (a id : String) (ps : List Participant)
    → any (λ p. p.contract_id == id) ps ≡ false
    → takes_part a id ps ≡ false
not_taking_part a id [] h = refl
not_taking_part a id (p ∷ ps) h = ground (arith, not_taking_part a id ps)

takes_part-append :
    (a id : String) (xs ys : List Participant)
    → takes_part a id (xs ++ ys) ≡ (takes_part a id xs || takes_part a id ys)
takes_part-append a id [] ys = refl
takes_part-append a id (x ∷ xs) ys = ground (arith, takes_part-append a id xs ys)

elsewhere :
    (a id j : String) (f : AgentRow → Participant) (rows : List AgentRow)
    → ((x : AgentRow) → (f x).contract_id ≡ id)
    → (id == j) ≡ false
    → takes_part a j (map f rows) ≡ false
elsewhere a id j f [] there h = refl
elsewhere a id j f (x ∷ rows) there h = ground (arith, there x, h, elsewhere a id j f rows there h)

-- The new participants take part in the new contract only.
new_elsewhere :
    (now : ℕ) (a id j : String) (actor : AgentRow) (inv obs : List AgentRow) (ps : List Participant)
    → (id == j) ≡ false
    → takes_part a j (new_participants now id actor inv obs ++ ps) ≡ takes_part a j ps
new_elsewhere now a id j actor inv obs ps h =
    let i = elsewhere a id j (takes_role now id invitee) inv (λ x. refl) h in
    let o = elsewhere a id j (takes_role now id observer) obs (λ x. refl) h in
    let split = takes_part-append a j (new_participants now id actor inv obs) ps in
    let inner =
      takes_part-append a j (map (takes_role now id invitee) inv)
        (map (takes_role now id observer) obs) in
    ground (arith, h, i, o, split, inner)

count_same :
    (now : ℕ) (a id : String) (actor : AgentRow) (inv obs : List AgentRow) (ps : List Participant)
    (cs : List Contract)
    → select_contract id cs ≡ none
    → length (
        filter
          (λ c. is_open c.status && takes_part a c.id (new_participants now id actor inv obs ++ ps))
          cs)
      ≡ length (filter (λ c. is_open c.status && takes_part a c.id ps) cs)
count_same now a id actor inv obs ps [] h = refl
count_same now a id actor inv obs ps (c ∷ cs) h = elim (Bool-cases (c.id == id)) [
  | inl same ↦ ground (arith, same, h)
  | inr other ↦
      let apart : (id == c.id) ≡ false = ground (arith, other, eq_iff c.id id, eq_iff id c.id) in
      let rest : select_contract id cs ≡ none = ground (arith, other, h) in
      let ih = count_same now a id actor inv obs ps cs rest in
      ground (arith, ih, new_elsewhere now a id c.id actor inv obs ps apart)
]

abbrev pub alone : ℕ → Store → Store
alone n s = s

-- What a proposal that goes through leaves of the counts.
abbrev pub proposed_store : ℕ → String → AgentRow → Settled → Contract → Store → Store
proposed_store now id actor x c s = record s {
  contracts = c ∷ s.contracts;
  participants = participants_for now id actor x ++ s.participants;
}

actor_takes_part :
    (now : ℕ) (id : String) (actor : AgentRow) (x : Settled) (ps : List Participant)
    → takes_part actor.policy.id id (participants_for now id actor x ++ ps) ≡ true
actor_takes_part now id actor x ps = ground (arith, eq_self id, eq_self actor.policy.id)

one_more :
    (now : ℕ) (id : String) (actor : AgentRow) (x : Settled) (c : Contract) (s : Store)
    → c.id ≡ id
    → is_open c.status ≡ true
    → IsFresh id s
    → open_contracts actor.policy.id (proposed_store now id actor x c s)
      ≡ suc (open_contracts actor.policy.id s)
unfolding open_contracts
one_more now id actor x c s here opened fresh =
    let same =
      count_same now actor.policy.id id actor x.invitees x.observers s.participants s.contracts
        fresh.no_contract in
    let mine = actor_takes_part now id actor x s.participants in
    ground (arith, here, opened, same, mine)

-- The new contract does not count as long as its participants are not there.
uncounted :
    (id : String) (actor : AgentRow) (c : Contract) (s : Store)
    → c.id ≡ id
    → IsFresh id s
    → open_contracts actor.policy.id (insert_contract c s) ≡ open_contracts actor.policy.id s
unfolding open_contracts insert_contract
uncounted id actor c s here fresh =
    let apart = not_taking_part actor.policy.id id s.participants fresh.no_participant in
    ground (arith, here, apart)

-- Other requests come in once, before the first statement that writes.
abbrev pub first_gap : (Store → Store) → ℕ → Store → Store
first_gap others zero s = others s
first_gap others (suc n) s = s

abbrev pub announced : AgentRow → String → ProposeContractRequest → Settled → Store → Store
announced actor id q x =
    audit actor.policy.name
      (contract_propose q.title x.invitee_names x.observer_names (get_or q.max_turns 50)) id

rechecked :
    (id : String) (limit : Option ℕ) (count : ℕ) (s : Store)
    → exceeded limit count ≡ false
    → recheck id limit count s ≡ (reply tt, s)
unfolding recheck
rechecked id limit count s h = rw h refl

pub written :
    (others : Store → Store) (now : ℕ) (id : String) (actor : AgentRow) (q : ProposeContractRequest)
    (x : Settled) (s : Store)
    → IsFresh id (others s)
    → exceeded actor.max_concurrent_contracts (open_contracts actor.policy.id (others s)) ≡ false
    → write_proposal (first_gap others) now id actor q x s ≡ (
      reply (proposal_for now id actor q x),
      announced actor id q x
          (proposed_store now id actor x (contract_for now id actor q x) (others s)),
    )
unfolding write_proposal insert_participants insert_contract ◌>>=◌
written others now id actor q x s fresh within =
    let same = uncounted id actor (contract_for now id actor q x) (others s) refl fresh in
    let passed =
      rechecked id actor.max_concurrent_contracts (open_contracts actor.policy.id (others s))
        (insert_contract (contract_for now id actor q x) (others s)) within in
    ground (arith, same, passed)

pub counted :
    (now : ℕ) (id : String) (actor : AgentRow) (q : ProposeContractRequest) (x : Settled)
    (s : Store)
    → IsFresh id s
    → open_contracts actor.policy.id
        (announced actor id q x (proposed_store now id actor x (contract_for now id actor q x) s))
      ≡ suc (open_contracts actor.policy.id s)
unfolding audit open_contracts
counted now id actor q x s fresh =
    one_more now id actor x (contract_for now id actor q x) s refl refl fresh
