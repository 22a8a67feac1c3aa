-- ===== src/Messages/Retries.antt =====
-- What a second request with the same idempotency key gets: src/lib/idempotency.ts around the send
-- route.
use a2a_comms.Common.{
  same_text_self, ℕ, ◌≤◌, String, ◌≡◌, refl, ap, ◌∙◌, inl, inr, Bool, true, false, Option, none,
  some, List, [], ◌∷◌, arith, ltb, eqb, Bool-cases, eq_self, length, Text,
}
use a2a_comms.Contract.{ErrorCode, conflict}
use a2a_comms.Contract.Store.{Store, Caller, Reply, refuse, reply}
use a2a_comms.Idempotency.{
  max_key_length, find_key, delete_key, key_row, claim, check_idempotency,
  store_idempotency_response, IdempotencyKey, in_progress, replay,
}
use a2a_comms.Messages.Request.{MessageBody, Platform}
use a2a_comms.Messages.Send.{post_message, MessageResponse}
use a2a_comms.Messages.Serve.{
  endpoint_of, conclude, limited, check_message_limit, run_limited, continued, send, Server,
  Response, failed, created, replayed,
}

find_stored :
    {R : Type 0} (now : ℕ) (key : Text) (agent_id : String) (endpoint : Text) (status : ℕ)
    (body : Option R) (rows : List (IdempotencyKey R))
    → find_key key agent_id endpoint (key_row now key agent_id endpoint status body ∷ rows)
      ≡ some (key_row now key agent_id endpoint status body)
find_stored now key agent_id endpoint status body rows =
    ground (arith, same_text_self key, eq_self agent_id, same_text_self endpoint)

module _ (auth : Caller) (id : String) (key : Text) where
  abbrev pub find_row :
      List (IdempotencyKey MessageResponse) → Option (IdempotencyKey MessageResponse)
  find_row rows = find_key key auth.id (endpoint_of id) rows

  abbrev pub stored_row : ℕ → MessageResponse → IdempotencyKey MessageResponse
  stored_row now r = key_row now key auth.id (endpoint_of id) 201 (some r)

  conclude-created :
      (now : ℕ) (w : Server) (x : Reply MessageResponse × Store) (r : MessageResponse)
      (a : Option ℕ) (b : Bool)
      → (conclude now auth id (some key) w x).0 ≡ created r a b
      → find_row (conclude now auth id (some key) w x).1.keys ≡ some (stored_row now r)
  unfolding store_idempotency_response
  conclude-created now w (refuse st c, s) r a b h = cc
  conclude-created now w (reply q, s) r a b h = ground (
    arith,
    h,
    find_stored now key auth.id (endpoint_of id) 201 (some r)
        (delete_key key auth.id (endpoint_of id) w.keys),
  )

  conclude-failed :
      (now : ℕ) (w : Server) (x : Reply MessageResponse × Store) (st : ℕ) (c : ErrorCode)
      → (conclude now auth id (some key) w x).0 ≡ failed st c
      → (conclude now auth id (some key) w x).1.keys ≡ w.keys
  conclude-failed now w (refuse st' c', s) st c h = refl
  conclude-failed now w (reply q, s) st c h = cc

  limited-created :
      (now : ℕ) (w : Server) (b : Bool) (x : Reply MessageResponse × Store) (r : MessageResponse)
      (a : Option ℕ) (e : Bool)
      → (limited now auth id (some key) w b x).0 ≡ created r a e
      → find_row (limited now auth id (some key) w b x).1.keys ≡ some (stored_row now r)
  limited-created now w true x r a e h = conclude-created now w x r a e h
  limited-created now w false x r a e h = cc

  limited-failed :
      (now : ℕ) (w : Server) (b : Bool) (x : Reply MessageResponse × Store) (st : ℕ) (c : ErrorCode)
      → (limited now auth id (some key) w b x).0 ≡ failed st c
      → (limited now auth id (some key) w b x).1.keys ≡ w.keys
  limited-failed now w true x st c h = conclude-failed now w x st c h
  limited-failed now w false x st c h = refl

-- A key of the header: neither empty nor too long.
abbrev pub IsKey : Text → Type 0
IsKey key = (eqb (length key) 0 ≡ false) × (ltb max_key_length (length key) ≡ false)

check_key :
    (now : ℕ) (key : Text) (agent_id : String) (endpoint : Text)
    (rows : List (IdempotencyKey MessageResponse))
    → IsKey key
    → check_idempotency now (some key) agent_id endpoint rows
      ≡ claim now key agent_id endpoint rows (find_key key agent_id endpoint rows)
unfolding check_idempotency
check_key now [] agent_id endpoint rows h = ground (arith, h)
check_key now (c ∷ key) agent_id endpoint rows (some', short) = rw short refl

module _ (now : ℕ) (key : Text) (agent_id : String) (endpoint : Text)
    (rows : List (IdempotencyKey MessageResponse)) (r : IdempotencyKey MessageResponse) where
  replay_found :
      eqb r.status_code 0 ≡ false
      → now ≤ r.expires_at
      → claim now key agent_id endpoint rows (some r) ≡ (replay r.status_code r.response, rows)
  unfolding claim
  replay_found done fresh = ground arith

  open_found :
      r.status_code ≡ 0 → claim now key agent_id endpoint rows (some r) ≡ (in_progress, rows)
  unfolding claim
  open_found open_still = rw open_still refl

module _ (m : Platform) (others : Store → Store) (answers : Bool) (now : ℕ) (auth : Caller)
    (id : String) (key : Text) (body : MessageBody) where
  send-claim :
      (w : Server)
      → IsKey key
      → send m others answers now auth id (some key) body w
        ≡ continued m others answers now auth id body w
            (claim now key auth.id (endpoint_of id) w.keys (find_row auth id key w.keys))
  unfolding send
  send-claim w h =
      ap (continued m others answers now auth id body w)
        (check_key now key auth.id (endpoint_of id) w.keys h)

  -- A row with a response that has not expired is answered from.
  pub replays :
      (w : Server) (r : IdempotencyKey MessageResponse)
      → IsKey key
      → find_row auth id key w.keys ≡ some r
      → eqb r.status_code 0 ≡ false
      → now ≤ r.expires_at
      → send m others answers now auth id (some key) body w ≡ (replayed r.status_code r.response, w)
  unfolding claim
  replays w r h found done fresh =
      send-claim w h
      ∙ ap (λ x. continued m others answers now auth id body w x)
          (ap (λ o. claim now key auth.id (endpoint_of id) w.keys o) found
            ∙ replay_found now key auth.id (endpoint_of id) w.keys r done fresh)

  -- A row without a response stands for a request under way, however old it is.
  pub blocks :
      (w : Server) (r : IdempotencyKey MessageResponse)
      → IsKey key
      → find_row auth id key w.keys ≡ some r
      → r.status_code ≡ 0
      → send m others answers now auth id (some key) body w ≡ (failed 409 conflict, w)
  unfolding claim
  blocks w r h found open_still =
      send-claim w h
      ∙ ap (λ x. continued m others answers now auth id body w x)
          (ap (λ o. claim now key auth.id (endpoint_of id) w.keys o) found
            ∙ open_found now key auth.id (endpoint_of id) w.keys r open_still)

  ran-created :
      (w : Server) (r : MessageResponse) (a : Option ℕ) (b : Bool)
      → (run_limited m others answers now auth id body (some key) w).0 ≡ created r a b
      → find_row auth id key (run_limited m others answers now auth id body (some key) w).1.keys
        ≡ some (stored_row auth id key now r)
  unfolding run_limited
  ran-created w r a b h =
      limited-created auth id key now
        (record w { limits = (check_message_limit answers now auth w.limits).1 })
        (check_message_limit answers now auth w.limits).0.allowed
        (post_message m others now auth id body w.store) r a b h

  ran-failed :
      (w : Server) (st : ℕ) (c : ErrorCode)
      → (run_limited m others answers now auth id body (some key) w).0 ≡ failed st c
      → (run_limited m others answers now auth id body (some key) w).1.keys ≡ w.keys
  unfolding run_limited
  ran-failed w st c h =
      limited-failed auth id key now
        (record w { limits = (check_message_limit answers now auth w.limits).1 })
        (check_message_limit answers now auth w.limits).0.allowed
        (post_message m others now auth id body w.store) st c h

  abbrev claimed : Server → Option (IdempotencyKey MessageResponse) → Response × Server
  claimed w o =
      continued m others answers now auth id body w
        (claim now key auth.id (endpoint_of id) w.keys o)

  claimed-created :
      (w : Server) (o : Option (IdempotencyKey MessageResponse)) (r : MessageResponse)
      (a : Option ℕ) (b : Bool)
      → (claimed w o).0 ≡ created r a b
      → find_row auth id key (claimed w o).1.keys ≡ some (stored_row auth id key now r)
  unfolding claim
  claimed-created w none r a b = λ h. ran-created _ r a b h
  claimed-created w (some x) r a b = elim (Bool-cases (eqb x.status_code 0)) [
    | inl going ↦ rw going (λ h. ground (arith, h))
    | inr done ↦ elim (Bool-cases (ltb x.expires_at now)) [
      | inl over ↦ rw (done, over) (λ h. ran-created _ r a b h)
      | inr fresh ↦ rw (done, fresh) (λ h. ground (arith, h))
    ]
  ]

  -- A response that was computed and sent is the one that the key keeps.
  pub created-kept :
      (w : Server) (r : MessageResponse) (a : Option ℕ) (b : Bool)
      → IsKey key
      → (send m others answers now auth id (some key) body w).0 ≡ created r a b
      → find_row auth id key (send m others answers now auth id (some key) body w).1.keys
        ≡ some (stored_row auth id key now r)
  created-kept w r a b h = rw (send-claim w h) (claimed-created w _ r a b)

  -- A first request that fails leaves its claim behind.
  pub failed-kept :
      (w : Server) (st : ℕ) (c : ErrorCode)
      → IsKey key
      → find_row auth id key w.keys ≡ none
      → (send m others answers now auth id (some key) body w).0 ≡ failed st c
      → find_row auth id key (send m others answers now auth id (some key) body w).1.keys
        ≡ some (key_row now key auth.id (endpoint_of id) 0 none)
  unfolding claim
  failed-kept w st c h new =
      rw (send-claim w h, new)
        (λ sent.
          rw (ran-failed _ st c sent) (find_stored now key auth.id (endpoint_of id) 0 none w.keys))
