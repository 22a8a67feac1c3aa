-- ===== src/Proposals/Bounds.antt =====
-- Proposals and their limits, whole: alone, with another request in between, and over the life of
-- the contract.
use a2a_comms.Common.{
  ℕ, zero, suc, ◌≤◌, ◌<◌, String, ◌≡◌, refl, sym, ap, ◌∙◌, inl, inr, false, Option, none, some,
  List, arith, get_or, Bool-cases, eq_self,
}
use a2a_comms.Contract.{Contract}
use a2a_comms.Contract.Store.{audit, ◌>>=◌, ◌>>◌, select_contract, audit, Store, reply}
use a2a_comms.Proposals.{
  reached, exceeded, open_contracts, reached, exceeded, check_request, AgentRow,
  ProposeContractRequest, Clock, Proposal, Settled,
}
use a2a_comms.Proposals.Create.{
  check_limits, contract_for, proposal_for, write_proposal, create_contract_proposal,
}
use a2a_comms.Proposals.Limits.{proposed_store, first_gap, announced, written, counted, IsFresh}
use a2a_comms.Proposals.Checks.{check_request-IsReader, check_limits-IsReader, went_through}
use a2a_comms.Contract.History.{spent}
use a2a_comms.Contract.Interleavings.{turns_bounded, Runs}

-- A proposal that goes through passed the checks, and they do not depend on what comes between.
pub passes :
    (k : Clock) (agents : List AgentRow) (others : ℕ → Store → Store) (now : ℕ) (id : String)
    (actor : AgentRow) (q : ProposeContractRequest) (s : Store) (p : Proposal)
    → (create_contract_proposal k agents others now id actor q s).0 ≡ reply p
    → (x : Settled) × (check_request k agents actor q s ≡ (reply x, s))
      × (check_limits actor x.invitees s ≡ (reply tt, s))
      × ((write_proposal others now id actor q x s).0 ≡ reply p)
unfolding create_contract_proposal
passes k agents others now id actor q s p h =
    let write = λ (x : Settled). write_proposal others now id actor q x in
    let (x, settled, rest) =
      went_through (check_request k agents actor q) (λ x. check_limits actor x.invitees >> write x)
        p s (check_request-IsReader k agents actor q) h in
    let (u, limits, done) =
      went_through (check_limits actor x.invitees) (λ _. write x) p s
        (check_limits-IsReader actor x.invitees) rest in
    (x, settled, limits, done)

comes_to :
    (k : Clock) (agents : List AgentRow) (others : ℕ → Store → Store) (now : ℕ) (id : String)
    (actor : AgentRow) (q : ProposeContractRequest) (s : Store) (x : Settled)
    → check_request k agents actor q s ≡ (reply x, s)
    → check_limits actor x.invitees s ≡ (reply tt, s)
    → create_contract_proposal k agents others now id actor q s
      ≡ write_proposal others now id actor q x s
unfolding create_contract_proposal ◌>>=◌
comes_to k agents others now id actor q s x settled limits = ground (arith, settled, limits)

below_limit :
    (actor : AgentRow) (inv : List AgentRow) (m : ℕ) (s : Store)
    → check_limits actor inv s ≡ (reply tt, s)
    → actor.max_concurrent_contracts ≡ some (suc m)
    → open_contracts actor.policy.id s < suc m
unfolding check_limits ◌>>=◌
below_limit actor inv m s h limit = ground (arith, h, limit)

exceeded_not :
    (limit : Option ℕ) (m n : ℕ) → limit ≡ some (suc m) → n ≤ suc m → exceeded limit n ≡ false
exceeded_not limit m n e h = rw e (ground arith)

-- With nobody else at work: an agent that has a limit, and whose proposal went through, takes part in
-- no more open contracts than its limit, the new one included.
pub proposal_within_limit :
    (k : Clock) (agents : List AgentRow) (now : ℕ) (id : String) (actor : AgentRow)
    (q : ProposeContractRequest) (s : Store) (p : Proposal) (m : ℕ)
    → (create_contract_proposal k agents (first_gap (λ t. t)) now id actor q s).0 ≡ reply p
    → actor.max_concurrent_contracts ≡ some (suc m)
    → IsFresh id s
    → open_contracts actor.policy.id
        (create_contract_proposal k agents (first_gap (λ t. t)) now id actor q s).1
      ≤ suc m
proposal_within_limit k agents now id actor q s p m went limit fresh =
    let (x, settled, limits, _) = passes k agents (first_gap (λ t. t)) now id actor q s p went in
    let below = below_limit actor x.invitees m s limits limit in
    let done =
      written (λ t. t) now id actor q x s fresh
        (exceeded_not actor.max_concurrent_contracts m (open_contracts actor.policy.id s) limit
          (omega arith)) in
    let count = counted now id actor q x s fresh in
    rw (comes_to k agents (first_gap (λ t. t)) now id actor q s x settled limits, done)
      (omega (arith, count))

-- A proposal that goes through with nobody else at work also goes through where other requests come
-- in between its checks and its insert and take the agent to its limit: the second check, made before
-- the participants are written, does not count the new contract, and the agent is left with one open
-- contract more than its limit.
pub limit_overrun :
    (k : Clock) (agents : List AgentRow) (others : Store → Store) (now : ℕ) (id : String)
    (actor : AgentRow) (q : ProposeContractRequest) (s : Store) (p : Proposal) (m : ℕ)
    → (create_contract_proposal k agents (first_gap (λ t. t)) now id actor q s).0 ≡ reply p
    → actor.max_concurrent_contracts ≡ some (suc m)
    → IsFresh id s
    → IsFresh id (others s)
    → open_contracts actor.policy.id (others s) ≡ suc m
    → ((create_contract_proposal k agents (first_gap others) now id actor q s).0 ≡ reply p)
      × (open_contracts actor.policy.id
            (create_contract_proposal k agents (first_gap others) now id actor q s).1
          ≡ suc (suc m))
limit_overrun k agents others now id actor q s p m went limit fresh fresh' full =
    let (x, settled, limits, _) = passes k agents (first_gap (λ t. t)) now id actor q s p went in
    let below = below_limit actor x.invitees m s limits limit in
    let alone =
      written (λ t. t) now id actor q x s fresh
        (exceeded_not actor.max_concurrent_contracts m (open_contracts actor.policy.id s) limit
          (omega arith)) in
    let done = written others now id actor q x s fresh' (
      exceeded_not actor.max_concurrent_contracts m (open_contracts actor.policy.id (others s))
        limit (omega arith)) in
    let count = counted now id actor q x (others s) fresh' in
    let ran = comes_to k agents (first_gap others) now id actor q s x settled limits in
    let first = comes_to k agents (first_gap (λ t. t)) now id actor q s x settled limits in
    let same : reply (proposal_for now id actor q x) ≡ reply p = cc in
    (rw (ran, done) same, rw (ran, done) (omega (arith, count, full)))

not_exceeded : (limit : Option ℕ) (n : ℕ) → reached limit n ≡ false → exceeded limit n ≡ false
not_exceeded none n h = refl
not_exceeded (some zero) n h = refl
not_exceeded (some (suc m)) n h = ground (arith, h)

not_reached :
    (actor : AgentRow) (inv : List AgentRow) (s : Store)
    → check_limits actor inv s ≡ (reply tt, s)
    → reached actor.max_concurrent_contracts (open_contracts actor.policy.id s) ≡ false
unfolding check_limits ◌>>=◌
not_reached actor inv s h =
    elim (Bool-cases (reached actor.max_concurrent_contracts (open_contracts actor.policy.id s))) [
      | inl full ↦ ground (arith, h, full)
      | inr free ↦ free
    ]

-- Nobody else at work while it is proposed, and no message of its id before: a contract whose
-- proposal went through is there after whatever requests then ran, in whatever interleaving; its
-- count of turns is the number of its turn messages, and these are no more than the limit that was
-- proposed, or 50 where none was.
pub proposed_turns_bounded :
    (k : Clock) (agents : List AgentRow) (now : ℕ) (id : String) (actor : AgentRow)
    (q : ProposeContractRequest) (s t : Store) (p : Proposal)
    → (create_contract_proposal k agents (first_gap (λ t. t)) now id actor q s).0 ≡ reply p
    → IsFresh id s
    → spent id s.messages ≡ 0
    → Runs (create_contract_proposal k agents (first_gap (λ t. t)) now id actor q s).1 t
    → (d : Contract) × (select_contract id t.contracts ≡ some d)
      × (d.current_turns ≡ spent id t.messages)
      × (spent id t.messages ≤ get_or q.max_turns 50)
unfolding audit
proposed_turns_bounded k agents now id actor q s t p went fresh unspent run =
    let (x, settled, limits, _) = passes k agents (first_gap (λ t. t)) now id actor q s p went in
    let free =
      not_exceeded actor.max_concurrent_contracts (open_contracts actor.policy.id s)
        (not_reached actor x.invitees s limits) in
    let ran =
      comes_to k agents (first_gap (λ t. t)) now id actor q s x settled limits
      ∙ written (λ t. t) now id actor q x s fresh free in
    let after =
      announced actor id q x (proposed_store now id actor x (contract_for now id actor q x) s) in
    let run' : Runs after t = rw (sym (ap (λ y. y.1) ran)) run in
    turns_bounded after t id (contract_for now id actor q x) run' (rw (eq_self id) refl)
      (sym unspent) (omega arith)
