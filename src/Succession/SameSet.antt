-- ===== src/Succession/SameSet.antt =====
-- Comparing two lists as sets: their sizes, and the members of one in the other.
use a2a_comms.Common.{
  Distinct, ◌≤◌, ◌<◌, String, ◌≡◌, refl, sym, ◌∙◌, ◌↔◌, inl, inr, Bool, true, false, not, ◌&&◌,
  List, [], ◌∷◌, arith, ◌==◌, eq_iff, Bool-cases, eq_self, length, filter, every, includes,
}
use a2a_comms.Succession.{members, same_set}

includes-filter :
    (p : String → Bool) (ys : List String) (z : String)
    → includes (filter p ys) z ≡ (p z && includes ys z)
includes-filter p [] z = ground arith
includes-filter p (y ∷ ys) z = ground (arith, includes-filter p ys z, eq_iff y z)

-- Each of these ids is one of those.
abbrev pub Within : List String → List String → Type 0
Within xs ys = (z : String) → includes xs z ≡ true → includes ys z ≡ true

pub includes-members : (xs : List String) (z : String) → includes (members xs) z ≡ includes xs z
unfolding members
includes-members [] z = refl
includes-members (x ∷ xs) z =
    let kept = includes-filter (λ y. not (x == y)) (members xs) z in
    ground (arith, kept, includes-members xs z)

filter-Distinct : (p : String → Bool) (xs : List String) → Distinct xs → Distinct (filter p xs)
filter-Distinct p [] d = tt
filter-Distinct p (x ∷ xs) (new, d) = elim (Bool-cases (p x)) [
  | inl kept ↦ rw kept (includes-filter p xs x ∙ ground (arith, kept, new), filter-Distinct p xs d)
  | inr dropped ↦ rw dropped (filter-Distinct p xs d)
]

pub members-Distinct : (xs : List String) → Distinct (members xs)
unfolding members
members-Distinct [] = tt
members-Distinct (x ∷ xs) = (
  includes-filter (λ y. not (x == y)) (members xs) x ∙ ground (arith, eq_self x),
  filter-Distinct (λ y. not (x == y)) (members xs) (members-Distinct xs),
)

length-filter : (p : String → Bool) (ys : List String) → length (filter p ys) ≤ length ys
length-filter p [] = ground arith
length-filter p (y ∷ ys) = ground (arith, length-filter p ys)

-- Dropping an id that is there makes a list shorter.
shorter :
    (x : String) (ys : List String)
    → includes ys x ≡ true
    → length (filter (λ y. not (x == y)) ys) < length ys
shorter x [] h = cc
shorter x (y ∷ ys) h = elim (Bool-cases (x == y)) [
  | inl same ↦ rw same (omega (arith, length-filter (λ y. not (x == y)) ys))
  | inr other ↦ rw other (ground (arith, shorter x ys, h, other, eq_iff x y, eq_iff y x))
]

-- Ids that differ, all of them within a list, are no more than it holds.
pub Distinct-fit : (xs ys : List String) → Distinct xs → Within xs ys → length xs ≤ length ys
Distinct-fit [] ys d h = ground arith
Distinct-fit (x ∷ xs) ys (new, d) h =
    let rest = filter (λ y. not (x == y)) ys in
    let inside : Within xs rest = λ z m.
      let there = h z (ground (arith, m)) in
      includes-filter (λ y. not (x == y)) ys z ∙ ground (arith, there, m, new, eq_iff x z) in
    let fits = Distinct-fit xs rest d inside in
    let drop = shorter x ys (h x (ground (arith, eq_self x))) in omega (arith, fits, drop)

every-Within : (xs ys : List String) → every (includes ys) xs ≡ true → Within xs ys
every-Within [] ys h z m = cc
every-Within (x ∷ xs) ys h z m = elim (Bool-cases (x == z)) [
  | inl this ↦ ground (arith, h, this, eq_iff x z)
  | inr other ↦ every-Within xs ys (ground (arith, h)) z (ground (arith, m, other))
]

Within-every : (xs ys : List String) → Within xs ys → every (includes ys) xs ≡ true
Within-every [] ys h = refl
Within-every (x ∷ xs) ys h =
    let first = h x (ground (arith, eq_self x)) in
    let rest = Within-every xs ys (λ z m. h z (ground (arith, m))) in ground (arith, first, rest)

-- As many, and one within the other: then the other way round.
Within-back :
    (xs ys : List String) → Distinct xs → length xs ≡ length ys → Within xs ys → Within ys xs
Within-back xs ys d same h z m = elim (Bool-cases (includes xs z)) [
  | inl there ↦ there
  | inr missing ↦
      let more : Within (z ∷ xs) ys = λ w k. elim (Bool-cases (z == w)) [
        | inl this ↦ ground (arith, this, m, eq_iff z w)
        | inr other ↦ h w (ground (arith, k, other))
      ] in
      let fits = Distinct-fit (z ∷ xs) ys (missing, d) more in absurd (omega (arith, fits, same))
]

both_ways : (a b : Bool) → (a ≡ true → b ≡ true) → (b ≡ true → a ≡ true) → a ≡ b
both_ways true b h k = sym (h refl)
both_ways false true h k = k refl
both_ways false false h k = refl

-- The size and the members of one side are enough: the test holds exactly when the same ids are on
-- both lists.
pub same_set_iff :
    (a b : List String) → (same_set a b ≡ true) ↔ ((z : String) → includes a z ≡ includes b z)
unfolding same_set
same_set_iff a b = (
  λ h z.
      let sizes : length (members a) ≡ length (members b) = ground (arith, h) in
      let inside = every-Within (members a) (members b) (ground (arith, h)) in
      let back = Within-back (members a) (members b) (members-Distinct a) sizes inside in
      sym (includes-members a z)
      ∙ (both_ways (includes (members a) z) (includes (members b) z) (inside z) (back z)
          ∙ includes-members b z),
  λ h.
      let same : (z : String) → includes (members a) z ≡ includes (members b) z =
        λ z. includes-members a z ∙ (h z ∙ sym (includes-members b z)) in
      let to : Within (members a) (members b) = λ z m. sym (same z) ∙ m in
      let back : Within (members b) (members a) = λ z m. same z ∙ m in
      let le = Distinct-fit (members a) (members b) (members-Distinct a) to in
      let ge = Distinct-fit (members b) (members a) (members-Distinct b) back in
      let included = Within-every (members a) (members b) to in ground (arith, le, ge, included),
)
