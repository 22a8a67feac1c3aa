-- ===== src/Signing/Accepted.antt =====
-- Which requests `validateHmac` lets in, and what a request leaves in the nonce table.
use a2a_comms.Common.{
  ℕ, ◌≤◌, ◌≡◌, refl, ◌↔◌, Bool, true, false, Option, none, some, List, arith, same_text,
}
use a2a_comms.Signing.Nonces.{has_nonce, check_and_record_nonce, Caches, answers}
use a2a_comms.Signing.Validation.{
  max_body_size, in_window, signing_message, find_key, key_expired_at, check_key, check_body,
  is_missing, validate_hmac, Platform, ServiceKey, Request, HmacValidationResult, valid, invalid,
}

-- The key that was looked up is there, active, unexpired, and the one that signed the request.
pub record Signs (m : Platform) (now : ℕ) (r : Request) (o : Option ServiceKey) (k : ServiceKey)
    : Type 0 where
  pub found : o ≡ some k
  pub live : k.is_active ≡ true
  pub unexpired : key_expired_at now k.expires_at ≡ false
  pub signed :
      same_text
        (m.from_hex r.headers.signature)
        (m.from_hex (m.hmac_sha256 k.signing_secret (signing_message m r)))
      ≡ true

-- The headers are there, the timestamp is in the window, the nonce is new, the body is small.
pub record Fresh (m : Platform) (now : ℕ) (r : Request) (s : Caches) : Type 0 where
  pub has_headers :
      (is_missing r.headers.api_key ≡ false)
      × (is_missing r.headers.timestamp ≡ false)
      × (is_missing r.headers.signature ≡ false)
      × (is_missing r.headers.nonce ≡ false)
  pub timely : in_window now (m.parse_int r.headers.timestamp) ≡ true
  pub new : has_nonce r.headers.nonce s.nonce_cache ≡ false
  pub small : m.byte_length r.body ≤ max_body_size

-- The result of a validation names the key.
abbrev pub valid_for : ServiceKey → HmacValidationResult
valid_for k = valid k.agent_id k.key_id k.id

abbrev pub is_valid : HmacValidationResult → Bool
is_valid (valid a k i) = true
is_valid (invalid e) = false

module _ (m : Platform) (now : ℕ) (r : Request) where
  pub key_accepts :
      (o : Option ServiceKey)
      → is_valid (check_key m now r o) ≡ true
      → (k : ServiceKey) × (Signs m now r o k)
  unfolding check_key
  key_accepts none h = cc
  key_accepts (some k) h = (
    k,
    record { found = refl; live = ground arith; unexpired = ground arith; signed = ground arith },
  )

  pub accepts_key :
      (o : Option ServiceKey) (k : ServiceKey)
      → Signs m now r o k
      → check_key m now r o ≡ valid_for k
  unfolding check_key
  accepts_key none k h = ground (arith, h.found)
  accepts_key (some j) k h = ground (arith, h.found, h.live, h.unexpired, h.signed)

-- While PostgreSQL answers: a request is let in exactly when its headers are there, its timestamp
-- is in the window, its nonce was not seen, its body is small enough, and the key it names is
-- there, active, unexpired, and signed the method, path, timestamp, nonce and body.
pub valid_iff :
    (m : Platform) (now : ℕ) (keys : List ServiceKey) (r : Request) (s : Caches)
    → (is_valid (validate_hmac m answers now keys r s).0 ≡ true)
      ↔ (Fresh m now r s × (k : ServiceKey) × (Signs m now r (find_key r.headers.api_key keys) k))
unfolding validate_hmac check_body check_and_record_nonce
valid_iff m now keys r s = (
  λ h.
      let (k, signs) = key_accepts m now r (find_key r.headers.api_key keys) (ground arith) in
      (
        record {
          has_headers = ground arith;
          timely = ground arith;
          new = ground arith;
          small = ground arith;
        },
        k,
        signs,
      ),
  λ g.
      let (f, k, h) = g in
      ground (
        arith,
        f.has_headers,
        f.timely,
        f.new,
        f.small,
        accepts_key m now r (find_key r.headers.api_key keys) k h,
      ),
)
