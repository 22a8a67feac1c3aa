-- ===== src/RateLimit.antt =====
-- Rate limiting: src/lib/rate-limit.ts, with the SQL function that it calls
-- (`rate_limit_increment` of migrations/20260331144800_shared_rate_limit.sql). A table of buckets and
-- the map of the fallback are both lists with one bucket for a key.
pub mod Window
pub mod Examples
use a2a_comms.Common.{
  ℕ, zero, suc, ◌+◌, ◌-◌, ◌*◌, ◌/◌, ◌%◌, ◌≤◌, ◌<◌, String, ◌≡◌, refl, sym, ap, ◌∙◌, ◌≢◌, ◌↔◌, ◌⊎◌,
  inl, inr, Bool, true, false, not, ◌&&◌, ◌||◌, Option, none, some, List, [], ◌∷◌, ◌++◌, map, arith,
  ◌==◌, eq_iff, ltb, leb, eqb, if◌then◌else◌, get_or, is_some, truthy, is_text, Bool-cases,
  Option-cases, eq_self, leb→le, ltb→lt, length, filter, find?, every, any, All, update_where,
  includes, Text, is_space, trim_start, trim,
}

pub record Bucket : Type 0 where
  pub key : String
  pub count : ℕ
  pub reset_at : ℕ

pub record RateLimitConfig : Type 0 where
  pub window_ms : ℕ
  pub max_requests : ℕ

pub record RateLimitResult : Type 0 where
  pub allowed : Bool
  pub remaining : ℕ
  pub reset_at : ℕ

abbrev pub get : String → List Bucket → Option Bucket
get key buckets = find? (λ b. b.key == key) buckets

-- `Map.set`: over the bucket of the key, or at the end.
abbrev pub put : Bucket → List Bucket → List Bucket
put b [] = b ∷ []
put b (c ∷ cs) = let rest = put b cs in if c.key == b.key then b ∷ cs else c ∷ rest

-- The bucket of a request: a new one where there is none or its window is over.
abbrev pub current : String → RateLimitConfig → ℕ → Option Bucket → Bucket
current key config now none = record { key = key; count = 0; reset_at = now + config.window_ms }
current key config now (some b) =
    if ltb b.reset_at now
    then record { key = key; count = 0; reset_at = now + config.window_ms }
    else record { key = key; count = b.count; reset_at = b.reset_at }

abbrev pub incremented : Bucket → Bucket
incremented b = record b { count = b.count + 1 }

-- Past the limit, or what is left of it.
abbrev pub judge : RateLimitConfig → ℕ → ℕ → RateLimitResult
judge config count reset =
    if ltb config.max_requests count
    then record { allowed = false; remaining = 0; reset_at = reset }
    else record { allowed = true; remaining = config.max_requests - count; reset_at = reset }

unfoldable pub check_rate_limit_fallback :
    String → RateLimitConfig → ℕ → List Bucket → RateLimitResult × List Bucket
check_rate_limit_fallback key config now buckets =
    let b = incremented (current key config now (get key buckets)) in
    (judge config b.count b.reset_at, put b buckets)

-- The upsert: insert with count 1, or on the key's conflict increment, or start over.
abbrev pub upserted : String → ℕ → ℕ → Option Bucket → Bucket
upserted key window now none = record { key = key; count = 1; reset_at = now + window }
upserted key window now (some b) = record {
  key = key;
  count = if ltb b.reset_at now then 1 else b.count + 1;
  reset_at = if ltb b.reset_at now then now + window else b.reset_at;
}

unfoldable pub rate_limit_increment : String → ℕ → ℕ → List Bucket → Bucket × List Bucket
rate_limit_increment key window now table =
    let b = upserted key window now (get key table) in (b, put b table)

pub record Limits : Type 0 where
  pub table : List Bucket
  pub fallback : List Bucket

-- The table where PostgreSQL answers, the fallback where it does not.
unfoldable pub check_rate_limit :
    Bool → String → RateLimitConfig → ℕ → Limits → RateLimitResult × Limits
check_rate_limit true key config now s =
    let (b, table) = rate_limit_increment key config.window_ms now s.table in
    (judge config b.count b.reset_at, record s { table = table })
check_rate_limit false key config now s =
    let (r, fallback) = check_rate_limit_fallback key config now s.fallback in
    (r, record s { fallback = fallback })
