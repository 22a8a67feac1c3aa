-- ===== src/Signing/Replay.antt =====
-- A request that was let in is not let in again: the life of its nonce in the table of
-- src/lib/hmac.ts, through further validations and clean-ups.
use a2a_comms.Common.{
  same_text_self, ℕ, ◌/◌, ◌≤◌, ◌<◌, ◌≡◌, ◌⊎◌, inl, inr, Bool, true, false, ◌&&◌, Option, none, some,
  List, [], ◌∷◌, arith, ltb, leb, Bool-cases, leb→le, any, Text, same_text,
}
use a2a_comms.Signing.Nonces.{
  has_nonce, check_and_record_nonce, unexpired, run_nonce_cleanup, NonceRow, Caches, Postgres,
  answers, throws, select_fails, insert_fails,
}
use a2a_comms.Signing.Validation.{
  in_window, nonce_expiry, validate_hmac, ℤ, pos, negsuc, Platform, ServiceKey, Request,
}
use a2a_comms.Signing.Accepted.{is_valid}

-- What happens after a moment, in the order of the clock: validations of any requests, whatever
-- PostgreSQL does, and clean-ups.
pub data Later : ℕ → Caches → ℕ → Caches → Type 0 where
  waits : {t u : ℕ} {s : Caches} → t ≤ u → Later t s u s
  validates :
      {t u : ℕ} {s v : Caches} (m : Platform) (pg : Postgres) (now : ℕ) (keys : List ServiceKey)
      (r : Request)
      → t ≤ now
      → Later now (validate_hmac m pg now keys r s).1 u v
      → Later t s u v
  cleans :
      {t u : ℕ} {s v : Caches} (reachable : Bool) (now : ℕ)
      → t ≤ now
      → Later now (run_nonce_cleanup reachable now s) u v
      → Later t s u v

-- A row for the nonce that lasts until `e` at least.
abbrev held_until : ℕ → Text → List NonceRow → Bool
held_until e n rows = any (λ r. same_text r.nonce n && leb e r.expires_at) rows

held-has :
    (e : ℕ) (n : Text) (rows : List NonceRow) → held_until e n rows ≡ true → has_nonce n rows ≡ true
held-has e n [] h = cc
held-has e n (x ∷ rows) h = ground (arith, held-has e n rows)

held-unexpired :
    (e now : ℕ) (n : Text) (rows : List NonceRow)
    → now ≤ e
    → held_until e n rows ≡ true
    → held_until e n (unexpired now rows) ≡ true
held-unexpired e now n [] le h = h
held-unexpired e now n (x ∷ rows) le h = ground (arith, held-unexpired e now n rows le)

check-keeps :
    (e : ℕ) (n : Text) (pg : Postgres) (k : Text) (x : ℕ) (s : Caches)
    → held_until e n s.nonce_cache ≡ true
    → held_until e n (check_and_record_nonce pg k x s).1.nonce_cache ≡ true
unfolding check_and_record_nonce
check-keeps e n answers k x s h = ground arith
check-keeps e n throws k x s h = ground arith
check-keeps e n select_fails k x s h = ground arith
check-keeps e n insert_fails k x s h = ground arith

validate-keeps :
    (e : ℕ) (n : Text) (m : Platform) (pg : Postgres) (now : ℕ) (keys : List ServiceKey)
    (r : Request) (s : Caches)
    → held_until e n s.nonce_cache ≡ true
    → held_until e n (validate_hmac m pg now keys r s).1.nonce_cache ≡ true
unfolding validate_hmac
validate-keeps e n m pg now keys r s h =
    ground (arith, h, check-keeps e n pg r.headers.nonce (nonce_expiry now) s h)

clean-keeps :
    (e : ℕ) (n : Text) (b : Bool) (now : ℕ) (s : Caches)
    → now ≤ e
    → held_until e n s.nonce_cache ≡ true
    → held_until e n (run_nonce_cleanup b now s).nonce_cache ≡ true
unfolding run_nonce_cleanup
clean-keeps e n true now s le h = held-unexpired e now n s.nonce_cache le h
clean-keeps e n false now s le h = h

clock_moves_on : (t u : ℕ) (s v : Caches) → Later t s u v → t ≤ u
clock_moves_on t u s v (waits le) = le
clock_moves_on t u s v (validates m pg now keys r le rest) =
    ground (arith, le, clock_moves_on now u (validate_hmac m pg now keys r s).1 v rest)
clock_moves_on t u s v (cleans b now le rest) =
    ground (arith, le, clock_moves_on now u (run_nonce_cleanup b now s) v rest)

held_through :
    (e : ℕ) (n : Text) (t u : ℕ) (s v : Caches)
    → Later t s u v
    → u ≤ e
    → held_until e n s.nonce_cache ≡ true
    → held_until e n v.nonce_cache ≡ true
held_through e n t u s v (waits le) last h = h
held_through e n t u s v (validates m pg now keys r le rest) last h =
    held_through e n now u (validate_hmac m pg now keys r s).1 v rest last
      (validate-keeps e n m pg now keys r s h)
held_through e n t u s v (cleans b now le rest) last h =
    held_through e n now u (run_nonce_cleanup b now s) v rest last (
      clean-keeps e n b now s
        (ground (arith, last, clock_moves_on now u (run_nonce_cleanup b now s) v rest)) h)

accepted-held :
    (m : Platform) (now : ℕ) (keys : List ServiceKey) (r : Request) (s : Caches)
    → is_valid (validate_hmac m answers now keys r s).0 ≡ true
    → held_until
        (nonce_expiry now)
        r.headers.nonce
        (validate_hmac m answers now keys r s).1.nonce_cache
      ≡ true
unfolding validate_hmac check_and_record_nonce
accepted-held m now keys r s h = ground (arith, h, same_text_self r.headers.nonce)

-- The timestamp is a second that is over at `now`.
abbrev pub stamped_before : ℕ → Option ℤ → Bool
stamped_before now none = false
stamped_before now (some (pos t)) = ltb t (now / 1000)
stamped_before now (some (negsuc t)) = true

out_of_window :
    (now later : ℕ) (t : Option ℤ)
    → stamped_before now t ≡ true
    → nonce_expiry now < later
    → in_window later t ≡ false
out_of_window now later none past h = cc
out_of_window now later (some (pos t)) past h = ground arith
out_of_window now later (some (negsuc t)) past h = ground arith

refused_if_held :
    (m : Platform) (now : ℕ) (keys : List ServiceKey) (r : Request) (s : Caches)
    → (has_nonce r.headers.nonce s.nonce_cache ≡ true)
      ⊎ (in_window now (m.parse_int r.headers.timestamp) ≡ false)
    → is_valid (validate_hmac m answers now keys r s).0 ≡ false
unfolding validate_hmac check_and_record_nonce
refused_if_held m now keys r s (inl seen) = ground (arith, seen)
refused_if_held m now keys r s (inr late) = ground (arith, late)

-- While PostgreSQL answers both times: when a request was let in whose timestamp is a second that
-- was over by then, no request with its nonce and its timestamp is let in later, whatever is
-- validated and cleaned up in between, and whatever PostgreSQL does then.
pub replay_refused :
    (m : Platform) (now later : ℕ) (keys keys' : List ServiceKey) (r r' : Request) (s v : Caches)
    → stamped_before now (m.parse_int r.headers.timestamp) ≡ true
    → r'.headers.nonce ≡ r.headers.nonce
    → r'.headers.timestamp ≡ r.headers.timestamp
    → is_valid (validate_hmac m answers now keys r s).0 ≡ true
    → Later now (validate_hmac m answers now keys r s).1 later v
    → is_valid (validate_hmac m answers later keys' r' v).0 ≡ false
replay_refused m now later keys keys' r r' s v past same same_time ok run =
    refused_if_held m later keys' r' v (elim (Bool-cases (leb later (nonce_expiry now))) [
      | inl soon ↦ inl (
          rw same (
            held-has (nonce_expiry now) r.headers.nonce v.nonce_cache (
              held_through (nonce_expiry now) r.headers.nonce now later _ v run
                (leb→le later (nonce_expiry now) soon) (accepted-held m now keys r s ok))))
      | inr late ↦ inr (
          rw same_time
            (out_of_window now later (m.parse_int r.headers.timestamp) past (ground arith)))
    ])
