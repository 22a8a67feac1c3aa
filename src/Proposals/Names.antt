-- ===== src/Proposals/Names.antt =====
-- Names without repetition, and the rows that they find.
use a2a_comms.Common.{
  Distinct, same_text_self, same_text-eq, same_text_comm, String, ◌≡◌, refl, sym, ap, ◌∙◌, inl, inr,
  Bool, true, false, not, ◌||◌, Option, some, List, [], ◌∷◌, ◌++◌, map, arith, ◌==◌, eq_iff,
  Bool-cases, Option-cases, eq_self, filter, find?, any, includes, Text, same_text,
}
use a2a_comms.Proposals.{unique, has_name, agent_named, agents_named, AgentRow}

-- No text of the list stands in it twice.
abbrev pub NoRepeat : List Text → Type 0
NoRepeat [] = Unit
NoRepeat (n ∷ ns) = (has_name ns n ≡ false) × NoRepeat ns

has_name-filter :
    (p : Text → Bool) (n : Text) (ns : List Text)
    → has_name ns n ≡ false
    → has_name (filter p ns) n ≡ false
has_name-filter p n [] h = refl
has_name-filter p n (m ∷ ns) h = ground (arith, has_name-filter p n ns)

filter-NoRepeat : (p : Text → Bool) (ns : List Text) → NoRepeat ns → NoRepeat (filter p ns)
filter-NoRepeat p [] h = tt
filter-NoRepeat p (n ∷ ns) (new, h) = elim (Bool-cases (p n)) [
  | inl kept ↦ rw kept (has_name-filter p n ns new, filter-NoRepeat p ns h)
  | inr dropped ↦ rw dropped (filter-NoRepeat p ns h)
]

dropped_name :
    (n : Text) (ns : List Text) → has_name (filter (λ m. not (same_text n m)) ns) n ≡ false
dropped_name n [] = refl
dropped_name n (m ∷ ns) = ground (arith, same_text_comm n m, dropped_name n ns)

pub unique-NoRepeat : (ns : List Text) → NoRepeat (unique ns)
unfolding unique
unique-NoRepeat [] = tt
unique-NoRepeat (n ∷ ns) = (
  dropped_name n (unique ns),
  filter-NoRepeat (λ m. not (same_text n m)) (unique ns) (unique-NoRepeat ns),
)

pub has_name-append :
    (n : Text) (xs ys : List Text) → has_name (xs ++ ys) n ≡ (has_name xs n || has_name ys n)
has_name-append n [] ys = refl
has_name-append n (x ∷ xs) ys = ground (arith, has_name-append n xs ys)

-- No name of the second list is in the first: then neither the other way round.
apart_comm :
    (n : Text) (xs ys : List Text)
    → any (has_name (n ∷ xs)) ys ≡ false
    → (has_name ys n ≡ false) × (any (has_name xs) ys ≡ false)
apart_comm n xs [] h = (refl, refl)
apart_comm n xs (y ∷ ys) h = ground (arith, same_text_comm n y, apart_comm n xs ys)

pub append-NoRepeat :
    (xs ys : List Text)
    → NoRepeat xs
    → NoRepeat ys
    → any (has_name xs) ys ≡ false
    → NoRepeat (xs ++ ys)
append-NoRepeat [] ys h k apart = k
append-NoRepeat (x ∷ xs) ys (new, h) k apart =
    let (away, rest) = apart_comm x xs ys apart in
    (has_name-append x xs ys ∙ ground (arith, new, away), append-NoRepeat xs ys h k rest)

-- The rows of an agents' table by their id.
abbrev by_id : String → List AgentRow → Option AgentRow
by_id id rows = find? (λ a. a.policy.id == id) rows

abbrev pub ids_of : List AgentRow → List String
ids_of rows = map (λ a. a.policy.id) rows

id_listed :
    (n : Text) (rows : List AgentRow) (a : AgentRow)
    → agent_named rows n ≡ some a
    → includes (ids_of rows) a.policy.id ≡ true
id_listed n [] a h = cc
id_listed n (r ∷ rows) a h = elim (Bool-cases (same_text r.name n)) [
  | inl named ↦ ground (arith, named, h, eq_self a.policy.id)
  | inr other ↦ ground (arith, other, h, id_listed n rows a)
]

named_by_id :
    (n : Text) (rows : List AgentRow) (a : AgentRow)
    → Distinct (ids_of rows)
    → agent_named rows n ≡ some a
    → by_id a.policy.id rows ≡ some a
named_by_id n [] a d h = cc
named_by_id n (r ∷ rows) a (new, d) h = elim (Bool-cases (same_text r.name n)) [
  | inl named ↦ ground (arith, named, h, eq_self a.policy.id)
  | inr other ↦
      let found : agent_named rows n ≡ some a = ground (arith, other, h) in
      let listed = id_listed n rows a found in
      let later = named_by_id n rows a d found in
      ground (arith, listed, new, later, eq_iff r.policy.id a.policy.id)
]

named_name :
    (n : Text) (rows : List AgentRow) (a : AgentRow)
    → agent_named rows n ≡ some a
    → same_text a.name n ≡ true
named_name n [] a h = cc
named_name n (r ∷ rows) a h = ground (arith, named_name n rows a)

-- Two names that one row bears are one.
same_row :
    (n m : Text) (rows : List AgentRow) (a b : AgentRow)
    → Distinct (ids_of rows)
    → agent_named rows n ≡ some a
    → agent_named rows m ≡ some b
    → same_text m n ≡ false
    → (b.policy.id == a.policy.id) ≡ false
same_row n m rows a b d at_n at_m other = elim (Bool-cases (b.policy.id == a.policy.id)) [
  | inl same ↦
      let here = named_by_id n rows a d at_n in
      let there = named_by_id m rows b d at_m in
      let there' : by_id a.policy.id rows ≡ some b =
        rw (sym ((eq_iff b.policy.id a.policy.id).0 same)) there in
      let one : a ≡ b = cc in
      let e = same_text-eq a.name n (named_name n rows a at_n) in
      let e' = same_text-eq b.name m (named_name m rows b at_m) in
      let names : m ≡ n = sym e' ∙ (sym (ap (λ (r : AgentRow). r.name) one) ∙ e) in
      let clash : same_text m n ≡ true = rw names (same_text_self n) in cc
  | inr apart ↦ apart
]

pub not_listed :
    (n : Text) (ns : List Text) (rows : List AgentRow) (a : AgentRow)
    → Distinct (ids_of rows)
    → agent_named rows n ≡ some a
    → has_name ns n ≡ false
    → includes (ids_of (agents_named rows ns)) a.policy.id ≡ false
unfolding agents_named
not_listed n [] rows a d at_n h = refl
not_listed n (m ∷ ns) rows a d at_n h = elim (Option-cases (agent_named rows m)) [
  | inl unknown ↦ rw unknown (not_listed n ns rows a d at_n (ground (arith, h)))
  | inr (b, at_m) ↦
      let apart = same_row n m rows a b d at_n at_m (ground (arith, h)) in
      rw at_m (ground (arith, apart, not_listed n ns rows a d at_n (ground (arith, h))))
]

pub named-Distinct :
    (ns : List Text) (rows : List AgentRow)
    → Distinct (ids_of rows)
    → NoRepeat ns
    → Distinct (ids_of (agents_named rows ns))
unfolding agents_named
named-Distinct [] rows d h = tt
named-Distinct (n ∷ ns) rows d (new, h) = elim (Option-cases (agent_named rows n)) [
  | inl unknown ↦ rw unknown (named-Distinct ns rows d h)
  | inr (a, at_n) ↦ rw at_n (not_listed n ns rows a d at_n new, named-Distinct ns rows d h)
]

pub agents_named-append :
    (rows : List AgentRow) (xs ys : List Text)
    → agents_named rows (xs ++ ys) ≡ agents_named rows xs ++ agents_named rows ys
unfolding agents_named
agents_named-append rows [] ys = refl
agents_named-append rows (x ∷ xs) ys = elim (Option-cases (agent_named rows x)) [
  | inl unknown ↦ rw unknown (agents_named-append rows xs ys)
  | inr (a, at_x) ↦ rw at_x (ap (λ l. a ∷ l) (agents_named-append rows xs ys))
]
