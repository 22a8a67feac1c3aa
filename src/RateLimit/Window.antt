-- ===== src/RateLimit/Window.antt =====
-- What a window of src/lib/rate-limit.ts lets through.
use a2a_comms.Common.{
  ℕ, suc, ◌+◌, ◌-◌, String, ◌≡◌, refl, ◌∙◌, inl, inr, Bool, true, false, ◌&&◌, some, List, [], ◌∷◌,
  arith, ◌==◌, eq_iff, ltb, leb, if◌then◌else◌, Bool-cases, Option-cases, eq_self,
}
use a2a_comms.RateLimit.{
  get, put, judge, check_rate_limit_fallback, rate_limit_increment, check_rate_limit, Bucket,
  RateLimitConfig,
}

-- The shared table and the fallback follow one rule: on the same buckets they give the same answer
-- and leave the same buckets.
pub fallback_agrees :
    (key : String) (config : RateLimitConfig) (now : ℕ) (buckets : List Bucket)
    → ((check_rate_limit true key config now (record { table = buckets; fallback = [] })).0
        ≡ (check_rate_limit false key config now (record { table = []; fallback = buckets })).0)
      × ((check_rate_limit true key config now (record { table = buckets; fallback = [] })).1.table
          ≡ (check_rate_limit false key config now
              (record { table = []; fallback = buckets })).1.fallback)
unfolding check_rate_limit rate_limit_increment check_rate_limit_fallback
fallback_agrees key config now buckets = elim (Option-cases (get key buckets)) [
  | inl new ↦ rw new (refl, refl)
  | inr (b, found) ↦ elim (Bool-cases (ltb b.reset_at now)) [
    | inl over ↦ rw (found, over) (refl, refl)
    | inr kept ↦ rw (found, kept) (ground arith, ground arith)
  ]
]

-- A request: whose it is, and when it comes.
pub record Arrival : Type 0 where
  pub key : String
  pub at : ℕ

-- How many of the requests for a key are let through, one after another.
abbrev pub let_through : String → RateLimitConfig → List Arrival → List Bucket → ℕ
let_through key config [] buckets = 0
let_through key config (a ∷ as') buckets =
    let checked = check_rate_limit_fallback a.key config a.at buckets in
    let rest = let_through key config as' checked.1 in
    if a.key == key && checked.0.allowed then suc rest else rest

abbrev pub count_for : String → List Arrival → ℕ
count_for key [] = 0
count_for key (a ∷ as') = let rest = count_for key as' in if a.key == key then suc rest else rest

abbrev pub min : ℕ → ℕ → ℕ
min a b = if leb a b then a else b

abbrev pub none_later_than : ℕ → List Arrival → Bool
none_later_than t [] = true
none_later_than t (a ∷ as') = leb a.at t && none_later_than t as'

get-put : (b : Bucket) (bs : List Bucket) → get b.key (put b bs) ≡ some b
get-put b [] = ground (arith, eq_self b.key)
get-put b (c ∷ cs) = ground (arith, eq_self b.key, get-put b cs)

get_other :
    (b : Bucket) (k : String) (bs : List Bucket)
    → (b.key == k) ≡ false
    → get k (put b bs) ≡ get k bs
get_other b k [] h = ground arith
get_other b k (c ∷ cs) h = ground (arith, eq_iff c.key b.key, get_other b k cs h)

abbrev bumped : String → Bucket → Bucket
bumped key b = record { key = key; count = b.count + 1; reset_at = b.reset_at }

open_window :
    (key : String) (config : RateLimitConfig) (now : ℕ) (buckets : List Bucket) (b : Bucket)
    → get key buckets ≡ some b
    → leb now b.reset_at ≡ true
    → check_rate_limit_fallback key config now buckets
      ≡ (judge config (b.count + 1) b.reset_at, put (bumped key b) buckets)
unfolding check_rate_limit_fallback
open_window key config now buckets b found early =
    let kept : ltb b.reset_at now ≡ false = ground arith in rw (found, kept) refl

another_key :
    (k key : String) (config : RateLimitConfig) (now : ℕ) (buckets : List Bucket)
    → (k == key) ≡ false
    → get key (check_rate_limit_fallback k config now buckets).1 ≡ get key buckets
unfolding check_rate_limit_fallback
another_key k key config now buckets other = elim (Option-cases (get k buckets)) [
  | inl new ↦ rw new (get_other _ key buckets other)
  | inr (b, found) ↦ elim (Bool-cases (ltb b.reset_at now)) [
    | inl over ↦ rw (found, over) (get_other _ key buckets other)
    | inr kept ↦ rw (found, kept) (get_other _ key buckets other)
  ]
]

-- While the bucket of the key stays open: the requests for it that are let through are as many as
-- there are, or what its limit has left, whichever is less.
pub window_lets_through :
    (key : String) (config : RateLimitConfig) (as' : List Arrival) (buckets : List Bucket)
    (b : Bucket)
    → get key buckets ≡ some b
    → none_later_than b.reset_at as' ≡ true
    → let_through key config as' buckets ≡ min (count_for key as') (config.max_requests - b.count)
window_lets_through key config [] buckets b found early = ground arith
window_lets_through key config (a ∷ as') buckets b found early = elim (Bool-cases (a.key == key)) [
  | inl mine ↦
      rw ((eq_iff a.key key).0 mine, open_window key config a.at buckets b found (ground arith))
        (ground (
          arith,
          eq_self key,
          window_lets_through key config as' (put (bumped key b) buckets) (bumped key b)
              (get-put (bumped key b) buckets) (ground arith),
        ))
  | inr another ↦ rw another (
      window_lets_through key config as' (check_rate_limit_fallback a.key config a.at buckets).1 b
        (another_key a.key key config a.at buckets another ∙ found) (ground arith))
]
