-- ===== src/Signing/Validation.antt =====
-- `validateHmac` of src/lib/hmac.ts, guard by guard. The entry of a refused signature or a replay
-- in the log of security events is left out.
use a2a_comms.Common.{
  ℕ, ◌+◌, ◌-◌, ◌*◌, ◌/◌, String, Bool, true, false, not, ◌||◌, Option, none, some, List, [], ◌∷◌,
  ◌++◌, ltb, leb, eqb, if◌then◌else◌, get_or, find?, Text, same_text, starts_with,
}
use a2a_comms.Common.Json.{Json}
use a2a_comms.Signing.Canonical.{derive_signing_body}
use a2a_comms.Signing.Nonces.{check_and_record_nonce, Caches, Postgres}

-- An integer, as `parseInt` returns it; `negsuc n` is -(n + 1).
pub data ℤ : Type 0 where
  pos negsuc : ℕ → ℤ

pub record Platform : Type 0 where
  pub parse_int : Text → Option ℤ
  pub pathname : Text → Option Text
  pub byte_length : Text → ℕ
  pub parse_json : Text → Option Json
  pub quote : Text → Text
  pub hmac_sha256 : (secret : Text) (message : Text) → Text
  pub from_hex : Text → List ℕ

pub record ServiceKey : Type 0 where
  pub id : String
  pub key_id : Text
  pub signing_secret : Text
  pub agent_id : String
  pub is_active : Bool
  pub expires_at : Option ℕ

-- A missing header is the empty text: the source treats both alike.
pub record Headers : Type 0 where
  pub api_key : Text
  pub timestamp : Text
  pub signature : Text
  pub nonce : Text

pub record Request : Type 0 where
  pub method : Text
  pub path : Text
  pub body : Text
  pub headers : Headers

pub data Refusal : Type 0 where
  missing_headers timestamp_expired nonce_replay missing_nonce body_too_large : Refusal
  invalid_key key_deactivated key_expired invalid_signature : Refusal

pub data HmacValidationResult : Type 0 where
  valid : (agent_id : String) (key_id : Text) (key_record_id : String) → HmacValidationResult
  invalid : Refusal → HmacValidationResult

abbrev pub timestamp_tolerance_seconds : ℕ
timestamp_tolerance_seconds = 300

abbrev pub max_body_size : ℕ
max_body_size = 50 * 1024

-- `Math.abs(now - requestTime)`
abbrev pub distance : ℕ → ℤ → ℕ
distance now (pos t) = (now - t) + (t - now)
distance now (negsuc t) = now + t + 1

-- The timestamp is a number, at most the tolerance away from the second that `now` is in.
abbrev pub in_window : ℕ → Option ℤ → Bool
in_window now none = false
in_window now (some t) = leb (distance (now / 1000) t) timestamp_tolerance_seconds

abbrev pub nonce_expiry : ℕ → ℕ
nonce_expiry now = now + timestamp_tolerance_seconds * 1000

-- `path.split('?')[0]`
abbrev pub before_query : Text → Text
before_query [] = []
before_query (c ∷ s) = let rest = before_query s in if eqb c 63 then [] else c ∷ rest

-- `if (canonicalPath.length > 1 && canonicalPath.endsWith('/'))` drop the last unit; the first one
-- stays.
abbrev pub drop_last_slash : Text → Text
drop_last_slash [] = []
drop_last_slash (c ∷ []) = if eqb c 47 then [] else c ∷ []
drop_last_slash (c ∷ d ∷ s) = c ∷ drop_last_slash (d ∷ s)

abbrev pub strip_slash : Text → Text
strip_slash [] = []
strip_slash (c ∷ []) = c ∷ []
strip_slash (c ∷ d ∷ s) = c ∷ drop_last_slash (d ∷ s)

unfoldable pub canonical_path : Platform → Text → Text
canonical_path m path =
    let whole = get_or (m.pathname path) (before_query path) in
    let is_url = starts_with (104 ∷ 116 ∷ 116 ∷ 112 ∷ []) path in
    strip_slash (if is_url then whole else before_query path)

-- `${method}\n${path}\n${timestamp}\n${nonce}\n${body}`
unfoldable pub signing_message : Platform → Request → Text
signing_message m r =
    r.method
    ++ (10 ∷ canonical_path m r.path
        ++ (10 ∷ r.headers.timestamp
            ++ (10 ∷ r.headers.nonce ++ (10 ∷ derive_signing_body m.parse_json m.quote r.body))))

abbrev pub find_key : Text → List ServiceKey → Option ServiceKey
find_key id keys = find? (λ k. same_text k.key_id id) keys

abbrev pub key_expired_at : ℕ → Option ℕ → Bool
key_expired_at now none = false
key_expired_at now (some t) = ltb t now

abbrev pub signature_matches : Platform → Request → ServiceKey → Bool
signature_matches m r k =
    same_text (m.from_hex r.headers.signature)
      (m.from_hex (m.hmac_sha256 k.signing_secret (signing_message m r)))

unfoldable pub check_key : Platform → ℕ → Request → Option ServiceKey → HmacValidationResult
check_key m now r none = invalid invalid_key
check_key m now r (some k) =
    if not k.is_active
    then invalid key_deactivated
    else if key_expired_at now k.expires_at
    then invalid key_expired
    else if signature_matches m r k
    then valid k.agent_id k.key_id k.id
    else invalid invalid_signature

unfoldable pub check_body : Platform → ℕ → Request → List ServiceKey → HmacValidationResult
check_body m now r keys =
    if ltb max_body_size (m.byte_length r.body)
    then invalid body_too_large
    else check_key m now r (find_key r.headers.api_key keys)

abbrev pub is_missing : Text → Bool
is_missing [] = true
is_missing (c ∷ s) = false

-- The nonce is used up before the key and the signature are looked at.
unfoldable pub validate_hmac :
    Platform → Postgres → ℕ → List ServiceKey → Request → Caches → HmacValidationResult × Caches
validate_hmac m pg now keys r s =
    let h = r.headers in
    let (duplicate, s') = check_and_record_nonce pg h.nonce (nonce_expiry now) s in
    if is_missing h.api_key || is_missing h.timestamp || is_missing h.signature
    then (invalid missing_headers, s)
    else if not (in_window now (m.parse_int h.timestamp))
    then (invalid timestamp_expired, s)
    else if is_missing h.nonce
    then (invalid missing_nonce, s)
    else if duplicate
    then (invalid nonce_replay, s')
    else (check_body m now r keys, s')
