-- ===== src/Idempotency.antt =====
-- src/lib/idempotency.ts: a write request that carries a key is answered once, and then from the
-- table. `R` is the body of a response. PostgreSQL answers.
use a2a_comms.Common.{
  ℕ, ◌+◌, ◌*◌, String, Bool, not, ◌&&◌, Option, none, some, List, [], ◌∷◌, ◌==◌, ltb, eqb,
  if◌then◌else◌, length, filter, find?, Text, same_text,
}

pub record IdempotencyKey {ℓ} (R : Type ℓ) : Type ℓ where
  pub key : Text
  pub agent_id : String
  pub endpoint : Text
  pub status_code : ℕ
  pub response : Option R
  pub created_at : ℕ
  pub expires_at : ℕ

-- Go on, with the key to store the response under; or answer at once.
pub data IdempotencyResult {ℓ} (R : Type ℓ) : Type ℓ where
  go_on : Option Text → IdempotencyResult R
  key_too_long in_progress : IdempotencyResult R
  replay : ℕ → Option R → IdempotencyResult R

abbrev pub max_key_length : ℕ
max_key_length = 256

-- 24 hours
abbrev pub lifetime : ℕ
lifetime = 24 * 60 * 60 * 1000

module _ {ℓ} {R : Type ℓ} where
  abbrev pub is_key : Text → String → Text → IdempotencyKey R → Bool
  is_key key agent_id endpoint r =
      same_text r.key key && r.agent_id == agent_id && same_text r.endpoint endpoint

  abbrev pub find_key : Text → String → Text → List (IdempotencyKey R) → Option (IdempotencyKey R)
  find_key key agent_id endpoint rows = find? (is_key key agent_id endpoint) rows

  abbrev pub delete_key : Text → String → Text → List (IdempotencyKey R) → List (IdempotencyKey R)
  delete_key key agent_id endpoint rows = filter (λ r. not (is_key key agent_id endpoint r)) rows

  -- The row that a claim or a response writes.
  abbrev pub key_row : ℕ → Text → String → Text → ℕ → Option R → IdempotencyKey R
  key_row now key agent_id endpoint status response = record {
    key = key;
    agent_id = agent_id;
    endpoint = endpoint;
    status_code = status;
    response = response;
    created_at = now;
    expires_at = now + lifetime;
  }

  -- The insert that gives way to a row that is there, and what that row says.
  unfoldable pub claim :
      ℕ
      → Text
      → String
      → Text
      → List (IdempotencyKey R)
      → Option (IdempotencyKey R)
      → IdempotencyResult R × List (IdempotencyKey R)
  claim now key agent_id endpoint rows none =
      (go_on (some key), key_row now key agent_id endpoint 0 none ∷ rows)
  claim now key agent_id endpoint rows (some r) =
      if eqb r.status_code 0
      then (in_progress, rows)
      else if ltb r.expires_at now
      then (go_on (some key), delete_key key agent_id endpoint rows)
      else (replay r.status_code r.response, rows)

  unfoldable pub check_idempotency :
      ℕ
      → Option Text
      → String
      → Text
      → List (IdempotencyKey R)
      → IdempotencyResult R × List (IdempotencyKey R)
  unfolding claim
  check_idempotency now none agent_id endpoint rows = (go_on none, rows)
  check_idempotency now (some []) agent_id endpoint rows = (go_on none, rows)
  check_idempotency now (some (c ∷ key)) agent_id endpoint rows =
      if ltb max_key_length (length (c ∷ key))
      then (key_too_long, rows)
      else claim now (c ∷ key) agent_id endpoint rows (find_key (c ∷ key) agent_id endpoint rows)

  -- The upsert that writes over the row of the key.
  unfoldable pub store_idempotency_response :
      ℕ → Option Text → String → Text → ℕ → R → List (IdempotencyKey R) → List (IdempotencyKey R)
  store_idempotency_response now none agent_id endpoint status response rows = rows
  store_idempotency_response now (some key) agent_id endpoint status response rows =
      key_row now key agent_id endpoint status (some response)
      ∷ delete_key key agent_id endpoint rows
