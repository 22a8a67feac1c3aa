-- ===== src/Signing/Examples.antt =====
-- The laws of signed requests at concrete requests, on a toy platform: a timestamp is one unit, the
-- signature is the secret and the message.
use a2a_comms.Common.{
  ℕ, ◌≡◌, refl, ◌↔◌, true, false, Option, none, some, [], ◌∷◌, ◌++◌, arith, eqb, if◌then◌else◌,
  length, Text,
}
use a2a_comms.Common.Json.{Json, null, boolean, object, no_fields, field}
use a2a_comms.Signing.Canonical.{derive_signing_body}
use a2a_comms.Signing.Nonces.{check_and_record_nonce, run_nonce_cleanup, Caches, answers}
use a2a_comms.Signing.Validation.{
  canonical_path, signing_message, check_key, check_body, validate_hmac, ℤ, pos, Platform,
  ServiceKey, Request,
}
use a2a_comms.Signing.Accepted.{is_valid, valid_iff, Signs, Fresh}
use a2a_comms.Signing.Replay.{replay_refused, waits, cleans}
use a2a_comms.Signing.Future.{future_stamp_replayed}
use a2a_comms.Signing.KeyOrder.{key_order_signs_same, same_object, swapped}

abbrev read_int : Text → Option ℤ
read_int [] = none
read_int (c ∷ s) = some (pos c)

abbrev a_then_b : Json
a_then_b = object (field (97 ∷ []) null (field (98 ∷ []) (boolean true) no_fields))

abbrev b_then_a : Json
b_then_a = object (field (98 ∷ []) (boolean true) (field (97 ∷ []) null no_fields))

abbrev parse : Text → Option Json
parse [] = none
parse (c ∷ s) = if eqb c 1 then some a_then_b else if eqb c 2 then some b_then_a else none

abbrev quoted : Text → Text
quoted s = 34 ∷ (s ++ (34 ∷ []))

abbrev toy : Platform
toy = record {
  parse_int = read_int;
  pathname = λ s. none;
  byte_length = λ s. length s;
  parse_json = parse;
  quote = quoted;
  hmac_sha256 = λ secret message. secret ++ message;
  from_hex = λ s. s;
}

abbrev key : ServiceKey
key = record {
  id = "k1";
  key_id = 7 ∷ [];
  signing_secret = 9 ∷ [];
  agent_id = "alpha";
  is_active = true;
  expires_at = none;
}

-- POST /a/?q with an unparsed body, stamped `t` and signed.
abbrev stamped : ℕ → Request
stamped t = record {
  method = 80 ∷ [];
  path = 47 ∷ 97 ∷ 47 ∷ 63 ∷ 113 ∷ [];
  body = 5 ∷ [];
  headers = record {
    api_key = 7 ∷ [];
    timestamp = t ∷ [];
    signature = 9 ∷ 80 ∷ 10 ∷ 47 ∷ 97 ∷ 10 ∷ t ∷ 10 ∷ 3 ∷ 10 ∷ 5 ∷ [];
    nonce = 3 ∷ [];
  };
}

abbrev empty : Caches
empty = record { nonce_cache = []; fallback = [] }

now_valid : is_valid (validate_hmac toy answers 500000 (key ∷ []) (stamped 400) empty).0 ≡ true
unfolding validate_hmac check_and_record_nonce check_body check_key signing_message canonical_path
    derive_signing_body
now_valid = refl

future_valid : is_valid (validate_hmac toy answers 500000 (key ∷ []) (stamped 600) empty).0 ≡ true
unfolding validate_hmac check_and_record_nonce check_body check_key signing_message canonical_path
    derive_signing_body
future_valid = refl

future_key_is_live : Signs toy 800001 (stamped 600) (some key) key
unfolding signing_message canonical_path derive_signing_body
future_key_is_live = record { found = refl; live = refl; unexpired = refl; signed = refl }

valid_iff_example :
    (is_valid (validate_hmac toy answers 500000 (key ∷ []) (stamped 400) empty).0 ≡ true) ↔ (
      Fresh toy 500000 (stamped 400) empty
      × (k : ServiceKey) × (Signs toy 500000 (stamped 400) (some key) k))
valid_iff_example = valid_iff toy 500000 (key ∷ []) (stamped 400) empty

replay_refused_example :
    is_valid
      (validate_hmac toy answers 900000 (key ∷ []) (stamped 400) (
        run_nonce_cleanup true 850000
          (validate_hmac toy answers 500000 (key ∷ []) (stamped 400) empty).1)).0
    ≡ false
replay_refused_example =
    replay_refused toy 500000 900000 (key ∷ []) (key ∷ []) (stamped 400) (stamped 400) empty _ refl
      refl refl now_valid (cleans true 850000 (ground arith) (waits (ground arith)))

future_stamp_replayed_example :
    is_valid
      (validate_hmac toy answers 800001 (key ∷ []) (stamped 600) (
        run_nonce_cleanup true 800001
          (validate_hmac toy answers 500000 (key ∷ []) (stamped 600) empty).1)).0
    ≡ true
future_stamp_replayed_example =
    future_stamp_replayed toy 500000 (key ∷ []) (stamped 600) empty key refl future_valid
      future_key_is_live

key_order_signs_same_example :
    derive_signing_body parse quoted (1 ∷ []) ≡ derive_signing_body parse quoted (2 ∷ [])
key_order_signs_same_example =
    key_order_signs_same quoted parse (1 ∷ []) (2 ∷ []) a_then_b b_then_a refl refl refl
      (same_object (swapped (ground arith)))
