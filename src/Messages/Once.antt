-- ===== src/Messages/Once.antt =====
-- A message that carries an idempotency key is sent once: the send route under
-- src/lib/idempotency.ts.
use a2a_comms.Common.{ℕ, ◌+◌, ◌≤◌, String, ◌≡◌, refl, ◌∙◌, Bool, Option, some, Text}
use a2a_comms.Contract.Store.{Store, Caller}
use a2a_comms.Idempotency.{lifetime}
use a2a_comms.Messages.Request.{MessageBody, Platform}
use a2a_comms.Messages.Send.{MessageResponse}
use a2a_comms.Messages.Serve.{send, Server, created, replayed}
use a2a_comms.Messages.Retries.{find_row, stored_row, IsKey, replays, created-kept}

-- A second request, whatever it says and whenever it comes within the lifetime of the key.
module _ (m n : Platform) (others others' : Store → Store) (answers answers' : Bool) (now later : ℕ)
    (auth : Caller) (id : String) (key : Text) (body body' : MessageBody) (w v : Server) where
  -- A message was sent under a key that the header allows, and its response computed. As long as the
  -- row of that key is as it was left, whatever else was done to the server, each request of the same
  -- agent to the same contract under that key within 24 hours is answered by that response, and
  -- changes nothing: no second message, no second turn, no webhook and no count against the limit.
  pub retry_replayed :
      (r : MessageResponse) (warning : Option ℕ) (exhausted : Bool)
      → IsKey key
      → (send m others answers now auth id (some key) body w).0 ≡ created r warning exhausted
      → find_row auth id key v.keys
        ≡ find_row auth id key (send m others answers now auth id (some key) body w).1.keys
      → later ≤ now + lifetime
      → send n others' answers' later auth id (some key) body' v ≡ (replayed 201 (some r), v)
  retry_replayed r warning exhausted h sent same soon =
      replays n others' answers' later auth id key body' v (stored_row auth id key now r) h
        (same ∙ created-kept m others answers now auth id key body w r warning exhausted h sent)
        refl soon
