-- ===== src/Execution/Serve.antt =====
-- The two `POST` handlers as a whole: the idempotency key, the handler, and the response that is
-- stored under the key.
use a2a_comms.Common.{ℕ, String, Option, List, ◌++◌, Text, codes}
use a2a_comms.Common.Actions.{Action, Reply, refuse, reply}
use a2a_comms.Idempotency.{
  check_idempotency, store_idempotency_response, IdempotencyKey, IdempotencyResult, go_on,
  key_too_long, in_progress, replay,
}
use a2a_comms.Execution.{Run, Checkpoint, Tables, RunError, conflict, validation_error}
use a2a_comms.Execution.Runs.{Others}
use a2a_comms.Execution.Routes.{
  Agent, CreateTaskExecutionRunRequest, CreateTaskExecutionCheckpointRequest, post_run,
  post_checkpoint,
}

pub data Created : Type 0 where
  run : Run → Created
  checkpoint : Checkpoint → Created

pub record Server : Type 0 where
  pub tables : Tables
  pub keys : List (IdempotencyKey Created)

pub data Response : Type 0 where
  failed : ℕ → RunError → Response
  created : Created → Response
  replayed : ℕ → Option Created → Response

-- A refusal stores no response.
abbrev conclude :
    {A : Type 0}
    → (A → Created)
    → ℕ
    → Agent
    → (endpoint : Text) → Option Text
    → List (IdempotencyKey Created)
    → Reply RunError A × Tables
    → Response × Server
conclude wrap now auth endpoint key keys (refuse st c, s) =
    (failed st c, record { tables = s; keys = keys })
conclude wrap now auth endpoint key keys (reply a, s) = (
  created (wrap a),
  record {
    tables = s;
    keys = store_idempotency_response now key auth.id endpoint 201 (wrap a) keys;
  },
)

-- What the check of the key comes to, and the handler behind it.
abbrev continued :
    {A : Type 0}
    → (A → Created)
    → ℕ
    → Agent
    → (endpoint : Text) → Action Tables RunError A
    → Tables
    → IdempotencyResult Created × List (IdempotencyKey Created)
    → Response × Server
continued wrap now auth endpoint handler s (go_on key, keys) =
    conclude wrap now auth endpoint key keys (handler s)
continued wrap now auth endpoint handler s (key_too_long, keys) =
    (failed 400 validation_error, record { tables = s; keys = keys })
continued wrap now auth endpoint handler s (in_progress, keys) =
    (failed 409 conflict, record { tables = s; keys = keys })
continued wrap now auth endpoint handler s (replay st a, keys) =
    (replayed st a, record { tables = s; keys = keys })

abbrev runs_endpoint : (project_id task_id : String) → Text
runs_endpoint p k =
    codes "POST /v1/projects/" ++ (codes p ++ (codes "/tasks/" ++ (codes k ++ codes "/runs")))

unfoldable pub serve_run :
    Others
    → ℕ
    → (run_id : String) → Agent
    → (project_id task_id : String) → Option Text
    → Option CreateTaskExecutionRunRequest
    → Server
    → Response × Server
unfolding post_run check_idempotency store_idempotency_response
serve_run others now id auth p k key body w =
    continued run now auth (runs_endpoint p k) (post_run others now id auth p k body) w.tables
      (check_idempotency now key auth.id (runs_endpoint p k) w.keys)

abbrev checkpoints_endpoint : (project_id task_id run_id : String) → Text
checkpoints_endpoint p k r = runs_endpoint p k ++ (codes "/" ++ (codes r ++ codes "/checkpoints"))

unfoldable pub serve_checkpoint :
    Others
    → ℕ
    → (checkpoint_id : String) → Agent
    → (project_id task_id run_id : String) → Option Text
    → Option CreateTaskExecutionCheckpointRequest
    → Server
    → Response × Server
unfolding post_checkpoint check_idempotency store_idempotency_response
serve_checkpoint others now id auth p k r key body w =
    continued checkpoint now auth (checkpoints_endpoint p k r)
      (post_checkpoint others now id auth p k r body) w.tables
      (check_idempotency now key auth.id (checkpoints_endpoint p k r) w.keys)
