-- ===== src/Execution/Runs.antt =====
-- What src/lib/task-execution.ts does to runs, checkpoints and tasks, with the SQL function behind
-- it (migrations/20260917200000_atomic_checkpoint_append.sql). A function that issues several
-- statements runs `others n`, what other requests do meanwhile, before the statement after the n-th.
-- Ids and times are the database's or the caller's clock, and are arguments; foreign keys hold.
use a2a_comms.Common.{
  ℕ, ◌+◌, String, Bool, not, ◌&&◌, ◌||◌, Option, none, some, List, [], ◌∷◌, ◌==◌, ltb, eqb,
  if◌then◌else◌, get_or, is_some, filter, find?, any, update_where, Text, same_text,
}
use a2a_comms.Common.Actions.{
  Action, gets, modify, guard, require, give, ◌>>=◌, ◌>>◌, refuse, reply,
}
use a2a_comms.Common.Json.{Fields}
use a2a_comms.Execution.{
  is_finished, is_queued, is_alive, derive_task_execution_snapshot, TaskExecutionRunStatus, written,
  Run, Checkpoint, TaskExecutionSnapshot, Tables, RunError, validation_error, duplicate, db_error,
}

abbrev pub Others : Type 0
Others = ℕ → Tables → Tables

abbrev pub run_by_id : String → List Run → Option Run
run_by_id id rs = find? (λ r. r.id == id) rs

abbrev pub write_run : String → (Run → Run) → Tables → Tables
write_run id f s = record s { runs = update_where (λ r. r.id == id) f s.runs }

-- `syncTaskExecutionSnapshot`
unfoldable pub sync_task_execution_snapshot : String → TaskExecutionSnapshot → Tables → Tables
sync_task_execution_snapshot task_id x s = record s {
  tasks = update_where (λ t. t.id == task_id) (λ t. record t { execution = x }) s.tasks;
}

pub record NewRun : Type 0 where
  pub task_id : String
  pub project_id : String
  pub agent_id : String
  pub status : TaskExecutionRunStatus
  pub attempt : ℕ
  pub summary : Option Text
  pub metadata : Fields

abbrev pub run_row : ℕ → String → NewRun → Run
run_row now id n = record {
  id = id;
  task_id = n.task_id;
  project_id = n.project_id;
  agent_id = n.agent_id;
  status = n.status;
  attempt = n.attempt;
  started_at = if is_queued n.status then none else some now;
  heartbeat_at = if is_alive n.status then some now else none;
  completed_at = if is_finished n.status then some now else none;
  checkpoint_count = 0;
  summary = n.summary;
  error_message = none;
  metadata = n.metadata;
  created_at = now;
  updated_at = now;
}

abbrev pub insert_run : Run → Tables → Tables
insert_run r s = record s { runs = r ∷ s.runs }

-- The id is a primary key.
unfoldable pub create_task_execution_run : Others → ℕ → String → NewRun → Action Tables RunError Run
unfolding derive_task_execution_snapshot sync_task_execution_snapshot ◌>>=◌
create_task_execution_run others now id n = do
  taken ← gets (λ s. is_some (run_by_id id s.runs))
  guard (not taken) 409 duplicate
  modify (insert_run (run_row now id n))
  modify (others 0)
  modify (
      sync_task_execution_snapshot n.task_id
        (derive_task_execution_snapshot (some id) (run_row now id n) none))
  give (reply (run_row now id n))

-- A field that is not given is `none`; `some none` clears a text.
pub record RunUpdate : Type 0 where
  pub status : Option TaskExecutionRunStatus
  pub summary : Option (Option Text)
  pub error_message : Option (Option Text)
  pub metadata : Option Fields
  pub heartbeat : Bool

-- A new status writes the times that belong to it. `started` is what was read before.
abbrev pub with_status : ℕ → (started : Bool) → Option TaskExecutionRunStatus → Run → Run
with_status now started none r = r
with_status now started (some st) r = record r {
  status = st;
  started_at = if not started && not (is_queued st) then some now else r.started_at;
  heartbeat_at = if is_alive st then some now else r.heartbeat_at;
  completed_at = if is_finished st then some now else none;
}

-- The trigger `task_execution_runs_updated_at` of migrations/20260405121000_task_execution_runs.sql sets
-- `updated_at`.
unfoldable pub apply_update : ℕ → (started : Bool) → RunUpdate → Run → Run
apply_update now started u r =
    let r' = with_status now started u.status r in
    record r' {
      summary = get_or u.summary r'.summary;
      error_message = get_or u.error_message r'.error_message;
      metadata = get_or u.metadata r'.metadata;
      heartbeat_at = if u.heartbeat then some now else r'.heartbeat_at;
      updated_at = now;
    }

-- The checkpoint with the greatest sequence.
abbrev later_checkpoint : Checkpoint → Option Checkpoint → Option Checkpoint
later_checkpoint c none = some c
later_checkpoint c (some d) = if ltb d.sequence c.sequence then some c else some d

abbrev latest_checkpoint : List Checkpoint → Option Checkpoint
latest_checkpoint [] = none
latest_checkpoint (c ∷ cs) = later_checkpoint c (latest_checkpoint cs)

unfoldable pub get_latest_task_checkpoint : String → String → Tables → Option Checkpoint
get_latest_task_checkpoint task_id run_id s =
    latest_checkpoint (filter (λ c. c.task_id == task_id && c.run_id == run_id) s.checkpoints)

-- A finished run is nobody's active run.
abbrev pub active_id : Run → Option String
active_id r = if is_finished r.status then none else some r.id

-- What follows the write: the row that it left, and the task's snapshot of it.
unfoldable pub update_tail : Others → (run_id task_id : String) → Action Tables RunError Run
unfolding get_latest_task_checkpoint derive_task_execution_snapshot sync_task_execution_snapshot
    ◌>>=◌
update_tail others run_id task_id = do
  after ← gets (λ s. run_by_id run_id s.runs)
  r ← require after 500 db_error
  modify (others 1)
  c ← gets (get_latest_task_checkpoint task_id run_id)
  modify (others 2)
  modify (sync_task_execution_snapshot task_id (derive_task_execution_snapshot (active_id r) r c))
  give (reply r)

unfoldable pub update_task_execution_run :
    Others → ℕ → (run_id task_id : String) → RunUpdate → Action Tables RunError Run
unfolding apply_update update_tail ◌>>=◌
update_task_execution_run others now run_id task_id u = do
  found ← gets (λ s. run_by_id run_id s.runs)
  existing ← require found 500 db_error
  modify (others 0)
  modify (write_run run_id (apply_update now (is_some existing.started_at) u))
  update_tail others run_id task_id

pub record NewCheckpoint : Type 0 where
  pub run_id : String
  pub task_id : String
  pub project_id : String
  pub agent_id : String
  pub checkpoint_key : Text
  pub summary : Option (Option Text)
  pub payload : Fields
  pub attachment_ids : List String

abbrev pub join {ℓ} : {A : Type ℓ} → Option (Option A) → Option A
join none = none
join (some x) = x

abbrev pub checkpoint_row : ℕ → String → ℕ → NewCheckpoint → Checkpoint
checkpoint_row now id sequence n = record {
  id = id;
  run_id = n.run_id;
  task_id = n.task_id;
  project_id = n.project_id;
  agent_id = n.agent_id;
  sequence = sequence;
  checkpoint_key = n.checkpoint_key;
  status = written;
  summary = join n.summary;
  payload = n.payload;
  attachment_ids = n.attachment_ids;
  created_at = now;
}

abbrev pub key_taken : String → Text → List Checkpoint → Bool
key_taken run_id key cs = any (λ c. c.run_id == run_id && same_text c.checkpoint_key key) cs

abbrev pub sequence_taken : String → ℕ → List Checkpoint → Bool
sequence_taken run_id n cs = any (λ c. c.run_id == run_id && eqb c.sequence n) cs

-- The two unique constraints on checkpoints.
abbrev insert_checkpoint : Checkpoint → Action Tables RunError (Unit {0})
insert_checkpoint c s =
    if key_taken c.run_id c.checkpoint_key s.checkpoints
      || sequence_taken c.run_id c.sequence s.checkpoints
    then (refuse 409 duplicate, s)
    else (reply tt, record s { checkpoints = c ∷ s.checkpoints })

abbrev pub count_checkpoint : Checkpoint → Option (Option Text) → ℕ → Run → Run
count_checkpoint c summary now r = record r {
  checkpoint_count = c.sequence;
  heartbeat_at = some c.created_at;
  summary = get_or summary r.summary;
  updated_at = now;
}

-- One statement, under a lock of the run. Its rejections are answered by the status and the code
-- that `appendTaskCheckpoint` makes of them.
unfoldable pub append_task_checkpoint_atomic :
    ℕ → String → NewCheckpoint → Action Tables RunError Checkpoint
unfolding ◌>>=◌
append_task_checkpoint_atomic now id n = do
  found ← gets (λ s. run_by_id n.run_id s.runs)
  r ← require found 400 validation_error
  guard (not (is_finished r.status)) 400 validation_error
  insert_checkpoint (checkpoint_row now id (r.checkpoint_count + 1) n)
  modify (
      write_run n.run_id
        (count_checkpoint (checkpoint_row now id (r.checkpoint_count + 1) n) n.summary now))
  give (reply (checkpoint_row now id (r.checkpoint_count + 1) n))

-- The snapshot of the run that was read after the append, if it is still there.
abbrev pub sync_after_append : String → Checkpoint → Option Run → Tables → Tables
sync_after_append task_id c none s = s
sync_after_append task_id c (some r) s =
    sync_task_execution_snapshot task_id (derive_task_execution_snapshot (some r.id) r (some c)) s

unfoldable pub append_task_checkpoint :
    Others → ℕ → String → NewCheckpoint → Action Tables RunError Checkpoint
unfolding append_task_checkpoint_atomic derive_task_execution_snapshot sync_task_execution_snapshot
    ◌>>=◌
append_task_checkpoint others now id n = do
  c ← append_task_checkpoint_atomic now id n
  modify (others 0)
  r ← gets (λ s. run_by_id n.run_id s.runs)
  modify (others 1)
  modify (sync_after_append n.task_id c r)
  give (reply c)
