-- ===== src/Signing/Nonces.antt =====
-- Replay protection by nonces: `checkAndRecordNonce` and `runNonceCleanup` of src/lib/hmac.ts. The
-- table `nonce_cache` is shared, its key is the nonce; the fallback is this instance's map.
use a2a_comms.Common.{
  ℕ, Bool, true, false, List, ◌∷◌, leb, if◌then◌else◌, filter, any, Text, same_text,
}

pub record NonceRow : Type 0 where
  pub nonce : Text
  pub expires_at : ℕ

pub record Caches : Type 0 where
  pub nonce_cache : List NonceRow
  pub fallback : List NonceRow

-- How PostgreSQL fares during one check: it answers, the client throws, the select comes back with
-- an error that is not looked at, or the insert fails for another reason than its key.
pub data Postgres : Type 0 where
  answers throws select_fails insert_fails : Postgres

abbrev pub has_nonce : Text → List NonceRow → Bool
has_nonce n rows = any (λ r. same_text r.nonce n) rows

abbrev pub record_fallback : Text → ℕ → Caches → Bool × Caches
record_fallback n e s =
    if has_nonce n s.fallback
    then (true, s)
    else (false, record s { fallback = record { nonce = n; expires_at = e } ∷ s.fallback })

-- Insert: a nonce that is there already violates the key, which says it is a duplicate.
abbrev pub insert_nonce : Text → ℕ → Caches → Bool × Caches
insert_nonce n e s =
    if has_nonce n s.nonce_cache
    then (true, s)
    else (false, record s { nonce_cache = record { nonce = n; expires_at = e } ∷ s.nonce_cache })

-- Whether the nonce is a duplicate. The select and the insert are one test here: with others in
-- between, it is the insert's key that decides.
unfoldable pub check_and_record_nonce : Postgres → Text → ℕ → Caches → Bool × Caches
check_and_record_nonce answers n e s =
    let inserted = insert_nonce n e s in if has_nonce n s.nonce_cache then (true, s) else inserted
check_and_record_nonce throws n e s = record_fallback n e s
check_and_record_nonce select_fails n e s = insert_nonce n e s
check_and_record_nonce insert_fails n e s =
    let failed = record_fallback n e s in if has_nonce n s.nonce_cache then (true, s) else failed

-- Rows whose expiry has passed are deleted, here and (if it can be reached) in the table.
abbrev pub unexpired : ℕ → List NonceRow → List NonceRow
unexpired now rows = filter (λ r. leb now r.expires_at) rows

unfoldable pub run_nonce_cleanup : Bool → ℕ → Caches → Caches
run_nonce_cleanup reachable now s = record {
  nonce_cache = if reachable then unexpired now s.nonce_cache else s.nonce_cache;
  fallback = unexpired now s.fallback;
}
