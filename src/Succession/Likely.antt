-- ===== src/Succession/Likely.antt =====
-- Which earlier contracts a proposal may have meant to carry on.
use a2a_comms.Common.{
  ◌≤◌, String, ◌≡◌, refl, sym, ap, ◌∙◌, ◌≢◌, ◌↔◌, ◌⊎◌, inl, inr, Bool, true, false, not, List, [],
  ◌∷◌, map, arith, if◌then◌else◌, get_or, Bool-cases, filter, includes,
}
use a2a_comms.Succession.{
  same_set, is_unaccepted, summarize, filter_likely_predecessors, PredecessorCandidateRow,
  LikelyPredecessorSummary,
}
use a2a_comms.Succession.SameSet.{same_set_iff}
use a2a_comms.Contract.{ContractStatus, active, closed}
use a2a_comms.Contract.Closure.{
  resolve_close_outcome, outcome_is_success, ContractCloseOutcome, completed_approved,
}
use mathlib.Core.List.{Memᴰ}

-- The agents of the row are those of the proposal.
abbrev pub SameAgents : PredecessorCandidateRow → List String → Type 0
SameAgents r ids = (z : String) → includes (get_or r.participant_ids []) z ≡ includes ids z

abbrev pub outcome_of : PredecessorCandidateRow → ContractCloseOutcome
outcome_of r =
    resolve_close_outcome r.closed_by r.completion_approved_at
      (get_or r.closed_without_approval false)

-- The work of the row was not accepted: its turns are spent while it runs, or it ended, and not as
-- completed.
abbrev pub IsUnaccepted : PredecessorCandidateRow → Type 0
IsUnaccepted r =
    ((r.status ≡ active) × (r.max_turns ≤ r.current_turns))
    ⊎ (((r.status ≡ closed) ⊎ (r.status ≡ ContractStatus.expired))
        × (outcome_of r ≢ completed_approved))

outcome_succeeds :
    (o : ContractCloseOutcome) → (not (outcome_is_success o) ≡ true) ⊎ (o ≡ completed_approved)
unfolding outcome_is_success
outcome_succeeds completed_approved = inr refl
outcome_succeeds _ = inl refl

failed_outcome :
    (o : ContractCloseOutcome) → (not (outcome_is_success o) ≡ true) ↔ (o ≢ completed_approved)
unfolding outcome_is_success
failed_outcome o = (
  λ h e. ground (arith, h, ap outcome_is_success e),
  λ h. elim (outcome_succeeds o) [ inl failed ↦ failed | inr done ↦ absurd (h done) ],
)

is_unaccepted-lem :
    (r : PredecessorCandidateRow) (st : ContractStatus)
    → r.status ≡ st
    → is_unaccepted r ≡ true
    → IsUnaccepted r
unfolding is_unaccepted
is_unaccepted-lem r active e h = inl (e, ground (arith, e, h))
is_unaccepted-lem r closed e h =
    inr (inl e, (failed_outcome (outcome_of r)).0 (ground (arith, e, h)))
is_unaccepted-lem r ContractStatus.expired e h =
    inr (inr e, (failed_outcome (outcome_of r)).0 (ground (arith, e, h)))
is_unaccepted-lem r _ e h = absurd (ground (arith, e, h))

is_unaccepted-IsUnaccepted :
    (r : PredecessorCandidateRow) → (is_unaccepted r ≡ true) ↔ IsUnaccepted r
unfolding is_unaccepted
is_unaccepted-IsUnaccepted r = (
  is_unaccepted-lem r r.status refl,
  λ u. elim u [
    | inl (e, spent) ↦ ground (arith, e, spent)
    | inr (inl e, failed) ↦ rw e ((failed_outcome (outcome_of r)).1 failed)
    | inr (inr e, failed) ↦ rw e ((failed_outcome (outcome_of r)).1 failed)
  ],
)

module _ {A : Type 0} where
  kept_first :
      (p : A → Bool) (y : A) (xs : List A) (b : Bool) {x : A}
      → p y ≡ b
      → (Memᴰ x (filter p xs) → Memᴰ x xs × (p x ≡ true))
      → Memᴰ x (if b then y ∷ filter p xs else filter p xs)
      → Memᴰ x (y ∷ xs) × (p x ≡ true)
  kept_first p y xs true e later (Memᴰ.head same) = (Memᴰ.head same, ap p same ∙ e)
  kept_first p y xs true e later (Memᴰ.tail m) =
      let (there, holds) = later m in (Memᴰ.tail there, holds)
  kept_first p y xs false e later m = let (there, holds) = later m in (Memᴰ.tail there, holds)

  filter-Memᴰ :
      (p : A → Bool) (xs : List A) {x : A} → Memᴰ x (filter p xs) → Memᴰ x xs × (p x ≡ true)
  filter-Memᴰ p [] m = elim m [ ]
  filter-Memᴰ p (y ∷ xs) m = kept_first p y xs (p y) refl (filter-Memᴰ p xs) m

  Memᴰ-filter : (p : A → Bool) (xs : List A) {x : A} → Memᴰ x xs → p x ≡ true → Memᴰ x (filter p xs)
  Memᴰ-filter p [] m h = elim m [ ]
  Memᴰ-filter p (y ∷ xs) (Memᴰ.head e) h = rw (ap p (sym e) ∙ h) (Memᴰ.head e)
  Memᴰ-filter p (y ∷ xs) {x} (Memᴰ.tail m) h = elim (Bool-cases (p y)) [
    | inl kept ↦ rw kept (Memᴰ.tail (Memᴰ-filter p xs m h))
    | inr dropped ↦ rw dropped (Memᴰ-filter p xs m h)
  ]

summarize-Memᴰ :
    (rows : List PredecessorCandidateRow) {x : LikelyPredecessorSummary}
    → Memᴰ x (map summarize rows)
    → (r : PredecessorCandidateRow) × Memᴰ r rows × (summarize r ≡ x)
summarize-Memᴰ [] m = elim m [ ]
summarize-Memᴰ (r ∷ rows) (Memᴰ.head e) = (r, Memᴰ.head refl, sym e)
summarize-Memᴰ (r ∷ rows) (Memᴰ.tail m) =
    let (s, there, e) = summarize-Memᴰ rows m in (s, Memᴰ.tail there, e)

Memᴰ-summarize :
    (rows : List PredecessorCandidateRow) {r : PredecessorCandidateRow}
    → Memᴰ r rows
    → Memᴰ (summarize r) (map summarize rows)
Memᴰ-summarize [] m = elim m [ ]
Memᴰ-summarize (s ∷ rows) (Memᴰ.head e) = Memᴰ.head (ap summarize e)
Memᴰ-summarize (s ∷ rows) (Memᴰ.tail m) = Memᴰ.tail (Memᴰ-summarize rows m)

-- A contract is named as a likely predecessor exactly when it is one of the candidates, the same
-- agents take part in it as in the proposal, however often and in whatever order they are listed, and
-- its work was not accepted: it runs with its turns spent, or it was closed or expired and did not
-- end as completed.
pub likely_iff :
    (rows : List PredecessorCandidateRow) (ids : List String) (x : LikelyPredecessorSummary)
    → Memᴰ x (filter_likely_predecessors rows ids) ↔ (
        (r : PredecessorCandidateRow) × Memᴰ r rows
        × SameAgents r ids
        × IsUnaccepted r
        × (summarize r ≡ x))
unfolding filter_likely_predecessors
likely_iff rows ids x =
    let agents = λ (r : PredecessorCandidateRow). same_set (get_or r.participant_ids []) ids in
    (
      λ m.
          let (r, listed, e) = summarize-Memᴰ (filter is_unaccepted (filter agents rows)) m in
          let (left, work) = filter-Memᴰ is_unaccepted (filter agents rows) listed in
          let (found, same) = filter-Memᴰ agents rows left in
          (
            r,
            found,
            (same_set_iff (get_or r.participant_ids []) ids).0 same,
            (is_unaccepted-IsUnaccepted r).0 work,
            e,
          ),
      λ h.
          let (r, found, same, work, e) = h in
          let left =
            Memᴰ-filter agents rows found
              ((same_set_iff (get_or r.participant_ids []) ids).1 same) in
          let listed =
            Memᴰ-filter is_unaccepted (filter agents rows) left
              ((is_unaccepted-IsUnaccepted r).1 work) in
          rw (sym e) (Memᴰ-summarize (filter is_unaccepted (filter agents rows)) listed),
    )
