-- ===== src/Signing/Future.antt =====
-- A request stamped in the future outlives its nonce: src/lib/hmac.ts keeps a nonce for 300 seconds
-- from its use, while it tolerates a timestamp until 300 seconds after the stamp.
use a2a_comms.Common.{
  ℕ, ◌+◌, ◌/◌, ◌≡◌, Bool, true, false, Option, none, some, List, [], ◌∷◌, arith, ltb, Text,
}
use a2a_comms.Signing.Nonces.{
  has_nonce, check_and_record_nonce, unexpired, run_nonce_cleanup, NonceRow, Caches, answers,
}
use a2a_comms.Signing.Validation.{
  in_window, nonce_expiry, find_key, validate_hmac, ℤ, pos, negsuc, Platform, ServiceKey, Request,
}
use a2a_comms.Signing.Accepted.{is_valid, valid_iff, Signs}

abbrev pub stamped_after : ℕ → Option ℤ → Bool
stamped_after now none = false
stamped_after now (some (pos t)) = ltb (now / 1000) t
stamped_after now (some (negsuc t)) = false

still_in_window :
    (now : ℕ) (t : Option ℤ)
    → stamped_after now t ≡ true
    → in_window now t ≡ true
    → in_window (nonce_expiry now + 1) t ≡ true
still_in_window now none after timely = cc
still_in_window now (some (pos t)) after timely = ground arith
still_in_window now (some (negsuc t)) after timely = cc

has-unexpired :
    (n : Text) (now : ℕ) (rows : List NonceRow)
    → has_nonce n rows ≡ false
    → has_nonce n (unexpired now rows) ≡ false
has-unexpired n now [] h = h
has-unexpired n now (x ∷ rows) h = ground (arith, has-unexpired n now rows)

forgotten :
    (m : Platform) (now : ℕ) (keys : List ServiceKey) (r : Request) (s : Caches)
    → is_valid (validate_hmac m answers now keys r s).0 ≡ true
    → has_nonce r.headers.nonce
        (run_nonce_cleanup true
          (nonce_expiry now + 1)
          (validate_hmac m answers now keys r s).1).nonce_cache
      ≡ false
unfolding validate_hmac check_and_record_nonce run_nonce_cleanup
forgotten m now keys r s h =
    ground (arith, h, has-unexpired r.headers.nonce (nonce_expiry now + 1) s.nonce_cache)

-- While PostgreSQL answers: a request that was let in, stamped with a second that is yet to come,
-- is let in a second time, as it is, right after the first clean-up of its nonce, if its key is
-- live then.
pub future_stamp_replayed :
    (m : Platform) (now : ℕ) (keys : List ServiceKey) (r : Request) (s : Caches) (k : ServiceKey)
    → stamped_after now (m.parse_int r.headers.timestamp) ≡ true
    → is_valid (validate_hmac m answers now keys r s).0 ≡ true
    → Signs m (nonce_expiry now + 1) r (find_key r.headers.api_key keys) k
    → is_valid
        (validate_hmac m answers (nonce_expiry now + 1) keys r (
          run_nonce_cleanup true (nonce_expiry now + 1) (validate_hmac m answers now keys r s).1)).0
      ≡ true
future_stamp_replayed m now keys r s k after ok signs =
    let (fresh, j, signed) = (valid_iff m now keys r s).0 ok in
    (valid_iff m (nonce_expiry now + 1) keys r
        (run_nonce_cleanup true (nonce_expiry now + 1) (validate_hmac m answers now keys r s).1)).1
      (
        record {
          has_headers = fresh.has_headers;
          timely = still_in_window now (m.parse_int r.headers.timestamp) after fresh.timely;
          new = forgotten m now keys r s ok;
          small = fresh.small;
        },
        k,
        signs,
      )
