-- ===== src/Proposals/Participants.antt =====
-- Who takes part in a new contract.
use a2a_comms.Common.{
  Distinct, ℕ, String, ◌≡◌, refl, sym, ap, ◌∙◌, inl, inr, false, some, List, [], ◌∷◌, ◌++◌, map,
  arith, Option-cases, any, Text,
}
use a2a_comms.Contract.{invitee, observer}
use a2a_comms.Contract.Store.{◌>>=◌, Store, reply}
use a2a_comms.Common.Json.{Items}
use a2a_comms.Proposals.Bounds.{passes}
use a2a_comms.Proposals.Create.{write_proposal, proposal_for, create_contract_proposal, recheck}
use a2a_comms.Proposals.{
  Proposal, normalized, has_name, agent_named, agents_named, takes_role, check_request, AgentRow,
  ProposeContractRequest, Clock, Settled,
}
use a2a_comms.Proposals.Names.{
  NoRepeat, unique-NoRepeat, has_name-append, append-NoRepeat, ids_of, not_listed, named-Distinct,
  agents_named-append,
}

roles_of_rows :
    (now : ℕ) (id : String) (inv obs : List AgentRow)
    → map
        (λ p. p.agent_id)
        (map (takes_role now id invitee) inv ++ map (takes_role now id observer) obs)
      ≡ ids_of (inv ++ obs)
roles_of_rows now id [] [] = refl
roles_of_rows now id [] (o ∷ obs) = ap (λ l. o.policy.id ∷ l) (roles_of_rows now id [] obs)
roles_of_rows now id (i ∷ inv) obs = ap (λ l. i.policy.id ∷ l) (roles_of_rows now id inv obs)

-- What the checks say of the names.
record AreNamed (agents : List AgentRow) (actor : AgentRow) (x : Settled)
    (invitees observers : List Text) : Type 0 where
  rows : x.invitees ≡ agents_named agents invitees
  watchers : x.observers ≡ agents_named agents observers
  invitees_differ : NoRepeat invitees
  observers_differ : NoRepeat observers
  not_invited : has_name invitees actor.name ≡ false
  not_watching : has_name observers actor.name ≡ false
  apart : any (has_name invitees) observers ≡ false

checked_names :
    (k : Clock) (agents : List AgentRow) (actor : AgentRow) (q : ProposeContractRequest) (s : Store)
    (x : Settled) (items : Items)
    → q.invitees ≡ some items
    → check_request k agents actor q s ≡ (reply x, s)
    → AreNamed agents actor x (normalized items) (normalized q.observers)
unfolding check_request ◌>>=◌
checked_names k agents actor q s x items e h = record {
  rows = ground (arith, e, h);
  watchers = ground (arith, e, h);
  invitees_differ = unique-NoRepeat _;
  observers_differ = unique-NoRepeat _;
  not_invited = ground (arith, e, h);
  not_watching = ground (arith, e, h);
  apart = ground (arith, e, h);
}

write_replies :
    (others : ℕ → Store → Store) (now : ℕ) (id : String) (actor : AgentRow)
    (q : ProposeContractRequest) (x : Settled) (s : Store) (p : Proposal)
    → (write_proposal others now id actor q x s).0 ≡ reply p
    → p ≡ proposal_for now id actor q x
unfolding write_proposal recheck ◌>>=◌
write_replies others now id actor q x s p h = ground (arith, h)

needs_invitees :
    (k : Clock) (agents : List AgentRow) (actor : AgentRow) (q : ProposeContractRequest) (s : Store)
    (x : Settled)
    → check_request k agents actor q s ≡ (reply x, s)
    → (items : Items) × (q.invitees ≡ some items)
unfolding check_request ◌>>=◌
needs_invitees k agents actor q s x h = elim (Option-cases q.invitees) [
  | inl missing ↦ absurd (ground (arith, missing, h))
  | inr found ↦ found
]

-- Ids are a primary key of the agents, and the actor is the row that its name finds: whatever other
-- requests do meanwhile, no agent stands twice among the participants of a proposal that went
-- through, in one role or in two.
pub nobody_proposed_twice :
    (k : Clock) (agents : List AgentRow) (others : ℕ → Store → Store) (now : ℕ) (id : String)
    (actor : AgentRow) (q : ProposeContractRequest) (s : Store) (p : Proposal)
    → Distinct (ids_of agents)
    → agent_named agents actor.name ≡ some actor
    → (create_contract_proposal k agents others now id actor q s).0 ≡ reply p
    → Distinct (map (λ r. r.agent_id) p.participants)
nobody_proposed_twice k agents others now id actor q s p keyed own went =
    let (x, settled, _, done) = passes k agents others now id actor q s p went in
    let (items, given) = needs_invitees k agents actor q s x settled in
    let n = checked_names k agents actor q s x items given settled in
    let names = normalized items ++ normalized q.observers in
    let no_repeat =
      append-NoRepeat (normalized items) (normalized q.observers) n.invitees_differ
        n.observers_differ n.apart in
    let alone = has_name-append actor.name (normalized items) (normalized q.observers) in
    let away : has_name names actor.name ≡ false =
      ground (arith, alone, n.not_invited, n.not_watching) in
    let rows = agents_named-append agents (normalized items) (normalized q.observers) in
    let all : Distinct (ids_of (actor ∷ agents_named agents names)) = (
      not_listed actor.name names agents actor keyed own away,
      named-Distinct names agents keyed no_repeat,
    ) in
    let reached_rows = roles_of_rows now id x.invitees x.observers in
    let ids : map (λ r. r.agent_id) p.participants ≡ ids_of (actor ∷ agents_named agents names) =
      ap (λ (y : Proposal). map (λ r. r.agent_id) y.participants)
        (write_replies others now id actor q x s p done)
      ∙ ap (λ l. actor.policy.id ∷ l)
          (reached_rows ∙ (rw (n.rows, n.watchers) (ap ids_of (sym rows)))) in
    rw ids all
