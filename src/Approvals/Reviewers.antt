-- ===== src/Approvals/Reviewers.antt =====
-- Who may review is who is told: `getAdminAgentIds` and `isAuthorizedReviewer` of
-- src/lib/approvals.ts agree.
use a2a_comms.Common.{
  String, ◌≡◌, refl, sym, ◌∙◌, inl, inr, Bool, true, false, not, ◌&&◌, ◌||◌, Option, none, some,
  List, [], ◌∷◌, map, arith, ◌==◌, eq_iff, get_or, truthy, is_text, Bool-cases, filter, find?,
  includes,
}
use a2a_comms.Approvals.{
  agent_by_id, agent_by_name, owner_of, is_admin, on_allowlist, owns_actor, is_authorized_reviewer,
  excluded_owner, admin_user_ids, listed, is_eligible, get_admin_agent_ids, Agent, UserProfile,
  Desk, may_review, any_admin,
}

-- A primary key: no id occurs twice.
abbrev pub distinct_ids : List String → Bool
distinct_ids [] = true
distinct_ids (i ∷ is) = not (includes is i) && distinct_ids is

abbrev holds {ℓ} : {A : Type ℓ} → (A → Bool) → Option A → Bool
holds p none = false
holds p (some a) = p a

module _ {A : Type 0} (key : A → String) (p : A → Bool) where
  includes-filter :
      (u : String) (xs : List A)
      → includes (map key (filter p xs)) u ≡ true
      → includes (map key xs) u ≡ true
  includes-filter u [] h = h
  includes-filter u (x ∷ xs) h = ground (arith, includes-filter u xs)

  -- To select by a test and look for an id is to look up the id and test.
  filter-find :
      (u : String) (xs : List A)
      → distinct_ids (map key xs) ≡ true
      → includes (map key (filter p xs)) u ≡ holds p (find? (λ x. key x == u) xs)
  filter-find u [] h = refl
  filter-find u (x ∷ xs) h = elim (Bool-cases (key x == u)) [
    | inl here ↦ ground (arith, (eq_iff (key x) u).0 here, includes-filter u xs)
    | inr below ↦ ground (arith, filter-find u xs)
  ]

any_admin-holds : (o : Option UserProfile) → any_admin o ≡ holds (λ p. p.is_super_admin) o
any_admin-holds none = refl
any_admin-holds (some p) = refl

admin_by_id :
    (u : String) (s : Desk)
    → distinct_ids (map (λ p. p.id) s.profiles) ≡ true
    → includes (admin_user_ids s) u ≡ is_admin u s
admin_by_id u s h =
    filter-find (λ p. p.id) (λ p. p.is_super_admin) u s.profiles h
    ∙ sym (any_admin-holds (find? (λ p. p.id == u) s.profiles))

nobody :
    (s : Desk)
    → includes (map (λ p. p.id) s.profiles) "" ≡ false
    → includes (admin_user_ids s) "" ≡ false
nobody s h = ground (arith, includes-filter (λ p. p.id) (λ p. p.is_super_admin) "" s.profiles)

-- No name on the allowlist is empty, as the parsing of the variable sees to.
abbrev pub has_names : Option (List String) → Bool
has_names none = true
has_names (some names) = not (includes names "")

listed_on :
    (allowlist : Option (List String)) (name : String)
    → has_names allowlist ≡ true
    → listed allowlist name ≡ on_allowlist allowlist name
listed_on none name h = refl
listed_on (some names) name h = elim (Bool-cases (name == "")) [
  | inl is_empty ↦ ground (arith, (eq_iff name "").0 is_empty)
  | inr named ↦ ground arith
]

same_owner_test :
    (o : Option String) (u : String)
    → not (truthy o) || not (u == get_or o "") ≡ not (truthy o && is_text o u)
same_owner_test none u = refl
same_owner_test (some o) u = ground (arith, eq_iff u o, eq_iff o u)

excluded_owns :
    (actor : Option String) (s : Desk) (u : String)
    → not (truthy (excluded_owner actor s))
        || not (is_text (some u) (get_or (excluded_owner actor s) ""))
      ≡ not (owns_actor actor u s)
excluded_owns actor s u = elim (Bool-cases (truthy actor)) [
  | inl asked ↦ rw asked (same_owner_test (owner_of (agent_by_name (get_or actor "") s)) u)
  | inr nobody_asked ↦ rw nobody_asked refl
]

-- The owner of a candidate, both ways.
module _ (allowlist : Option (List String)) (actor : Option String) (s : Desk)
    (names : has_names allowlist ≡ true) (unique : distinct_ids (map (λ p. p.id) s.profiles) ≡ true)
    (real : includes (map (λ p. p.id) s.profiles) "" ≡ false) where
  eligible_owner :
      (id name : String) (o : Option String)
      → is_eligible allowlist actor s (record { id = id; name = name; owner_user_id = o })
        ≡ may_review allowlist actor s (some (record { id = id; name = name; owner_user_id = o }))
  eligible_owner id name none = refl
  eligible_owner id name (some u) = elim (Bool-cases (u == "")) [
    | inl is_empty ↦ rw ((eq_iff u "").0 is_empty, nobody s real) refl
    | inr owned ↦ ground (
      arith,
      owned,
      admin_by_id u s unique,
      listed_on allowlist name names,
      excluded_owns actor s u,
    )
  ]

  eligible_may_review :
      (o : Option Agent) → holds (is_eligible allowlist actor s) o ≡ may_review allowlist actor s o
  eligible_may_review none = refl
  eligible_may_review (some a) = eligible_owner a.id a.name a.owner_user_id

  -- Profiles and agents have distinct ids, no profile has an empty one, and no name on the
  -- allowlist is empty: the agents told of a request are exactly those that the reviewer check
  -- passes.
  pub told_may_review :
      (id : String)
      → distinct_ids (map (λ a. a.id) s.agents) ≡ true
      → includes (get_admin_agent_ids allowlist actor s) id
        ≡ is_authorized_reviewer allowlist id actor s
  unfolding get_admin_agent_ids is_authorized_reviewer
  told_may_review id distinct =
      filter-find (λ a. a.id) (is_eligible allowlist actor s) id s.agents distinct
      ∙ eligible_may_review (agent_by_id id s)
