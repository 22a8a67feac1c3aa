-- ===== src/Execution/Routes.antt =====
-- The handlers that write to the execution of a task, under
-- src/app/api/v1/projects/[id]/tasks/[tid]/runs: POST of a run, PATCH of a run, POST of a checkpoint.
-- A body is what the request type says, or cannot be parsed (`none`). `others n` is what other
-- requests do meanwhile: before the handler's own statements for n from 10 on, and inside the
-- functions of Execution.Runs below that.
use a2a_comms.Common.{
  ℕ, ◌+◌, String, Bool, false, not, ◌&&◌, ◌||◌, Option, none, some, List, [], ◌∷◌, ◌==◌, ltb, eqb,
  if◌then◌else◌, get_or, is_some, length, find?, Text, trim,
}
use a2a_comms.Common.Actions.{Action, gets, modify, guard, require, give, ◌>>=◌, ◌>>◌, reply}
use a2a_comms.Common.Json.{Fields, no_fields}
use a2a_comms.Execution.{
  get_project_access, is_membership, is_owner, is_finished, read_run_status, TaskExecutionRunStatus,
  starting, Run, Checkpoint, Task, EventType, run_created, run_updated, checkpoint_created, Event,
  Tables, RunError, forbidden, not_found, invalid_state, invalid_body, validation_error,
  ProjectAccess,
}
use a2a_comms.Execution.Runs.{
  Others, create_task_execution_run, update_task_execution_run, join, append_task_checkpoint,
}

pub record CreateTaskExecutionRunRequest : Type 0 where
  pub status : Option Text
  pub summary : Option Text
  pub metadata : Option Fields

pub record UpdateTaskExecutionRunRequest : Type 0 where
  pub status : Option Text
  pub summary : Option (Option Text)
  pub error_message : Option (Option Text)
  pub metadata : Option Fields
  pub heartbeat : Option Bool

pub record CreateTaskExecutionCheckpointRequest : Type 0 where
  pub checkpoint_key : Option Text
  pub summary : Option (Option Text)
  pub payload : Option Fields
  pub attachment_ids : Option (List String)

pub record Agent : Type 0 where
  pub id : String
  pub name : String

abbrev pub task_in : String → String → Tables → Option Task
task_in project_id task_id s = find? (λ t. t.id == task_id && t.project_id == project_id) s.tasks

abbrev pub run_in : String → String → String → Tables → Option Run
run_in project_id task_id run_id s =
    find? (λ r. r.id == run_id && r.task_id == task_id && r.project_id == project_id) s.runs

-- `appendTaskActivityEvent`, after the entry of the audit log.
abbrev pub log : Agent → String → EventType → Tables → Tables
log auth task_id e s =
    let entry : Event = record { actor = auth.name; task_id = task_id; event = e } in
    record s { audit_log = entry ∷ s.audit_log; activity = entry ∷ s.activity }

abbrev pub log_audit : Agent → String → EventType → Tables → Tables
log_audit auth task_id e s = record s {
  audit_log = record { actor = auth.name; task_id = task_id; event = e } ∷ s.audit_log;
}

-- A given status that is not empty names a status.
abbrev pub status_refused : Option Text → Bool
status_refused none = false
status_refused (some []) = false
status_refused (some (c ∷ s)) = not (is_some (read_run_status (c ∷ s)))

-- `parsed.status ?? 'starting'`; the empty text is no status, and fails the check of its column.
abbrev pub first_status : Option Text → Option TaskExecutionRunStatus
first_status none = some starting
first_status (some s) = read_run_status s

-- `if (parsed.status)`
abbrev pub next_status : Option Text → Option TaskExecutionRunStatus
next_status none = none
next_status (some []) = none
next_status (some (c ∷ s)) = read_run_status (c ∷ s)

-- The greatest attempt of the task's runs, 0 where there is none.
unfoldable pub last_attempt : String → List Run → ℕ
last_attempt task_id [] = 0
last_attempt task_id (r ∷ rs) =
    let rest = last_attempt task_id rs in
    if r.task_id == task_id && ltb rest r.attempt then r.attempt else rest

-- `POST` of a run.
unfoldable pub post_run :
    Others
    → ℕ
    → (run_id : String) → Agent
    → (project_id task_id : String) → Option CreateTaskExecutionRunRequest
    → Action Tables RunError Run
unfolding create_task_execution_run get_project_access is_membership last_attempt read_run_status
    ◌>>=◌
post_run others now run_id auth project_id task_id body = do
  access ← gets (get_project_access project_id auth.id)
  guard (is_membership access) 403 forbidden
  found ← gets (task_in project_id task_id)
  t ← require found 404 not_found
  guard (not (is_some t.execution.active_run_id)) 409 invalid_state
  parsed ← require body 400 invalid_body
  guard (not (status_refused parsed.status)) 400 validation_error
  modify (others 10)
  attempt ← gets (λ s. last_attempt task_id s.runs)
  modify (others 11)
  status ← require (first_status parsed.status) 400 validation_error
  r ← create_task_execution_run others now run_id (record {
    task_id = task_id;
    project_id = project_id;
    agent_id = auth.id;
    status = status;
    attempt = attempt + 1;
    summary = parsed.summary;
    metadata = get_or parsed.metadata no_fields;
  })
  modify (others 12)
  modify (log auth task_id (run_created run_id r.attempt r.status))
  give (reply r)

-- `run.agent_id !== auth.agent.id && member.role !== 'owner'`, negated
abbrev pub may_write : Agent → Run → Option ProjectAccess → Bool
may_write auth r access = r.agent_id == auth.id || is_owner access

abbrev pub says_nothing : UpdateTaskExecutionRunRequest → Bool
says_nothing b =
    not (is_some b.summary)
    && not (is_some b.error_message)
    && not (is_some b.metadata)
    && not (is_some (next_status b.status))

abbrev pub beats : UpdateTaskExecutionRunRequest → Bool
beats b = get_or b.heartbeat false

abbrev pub log_update : Agent → String → UpdateTaskExecutionRunRequest → EventType → Tables → Tables
log_update auth task_id b e s =
    if says_nothing b then log_audit auth task_id e s else log auth task_id e s

-- `PATCH` of a run. A heartbeat alone leaves no entry in the task's activity.
unfoldable pub patch_run :
    Others
    → ℕ
    → Agent
    → (project_id task_id run_id : String) → Option UpdateTaskExecutionRunRequest
    → Action Tables RunError Run
unfolding update_task_execution_run get_project_access is_membership read_run_status ◌>>=◌
patch_run others now auth project_id task_id run_id body = do
  access ← gets (get_project_access project_id auth.id)
  guard (is_membership access) 403 forbidden
  modify (others 10)
  task ← gets (task_in project_id task_id)
  guard (is_some task) 404 not_found
  found ← gets (run_in project_id task_id run_id)
  run ← require found 404 not_found
  guard (may_write auth run access) 403 forbidden
  parsed ← require body 400 invalid_body
  guard (not (status_refused parsed.status)) 400 validation_error
  guard (not (says_nothing parsed && not (beats parsed))) 400 validation_error
  guard (not (is_finished run.status && beats parsed)) 409 invalid_state
  modify (others 11)
  r ← update_task_execution_run others now run_id task_id (record {
    status = next_status parsed.status;
    summary = parsed.summary;
    error_message = parsed.error_message;
    metadata = parsed.metadata;
    heartbeat = beats parsed;
  })
  modify (others 12)
  modify (log_update auth task_id parsed (run_updated run_id run.status r.status))
  give (reply r)

abbrev pub read_key : Option Text → Option Text
read_key none = none
read_key (some s) = if eqb (length (trim s)) 0 then none else some (trim s)

-- `POST` of a checkpoint. A summary that is not given is handed on as null.
unfoldable pub post_checkpoint :
    Others
    → ℕ
    → (checkpoint_id : String) → Agent
    → (project_id task_id run_id : String) → Option CreateTaskExecutionCheckpointRequest
    → Action Tables RunError Checkpoint
unfolding append_task_checkpoint get_project_access is_membership trim ◌>>=◌
post_checkpoint others now id auth project_id task_id run_id body = do
  access ← gets (get_project_access project_id auth.id)
  guard (is_membership access) 403 forbidden
  modify (others 10)
  task ← gets (task_in project_id task_id)
  guard (is_some task) 404 not_found
  found ← gets (run_in project_id task_id run_id)
  run ← require found 404 not_found
  guard (may_write auth run access) 403 forbidden
  guard (not (is_finished run.status)) 409 invalid_state
  parsed ← require body 400 invalid_body
  key ← require (read_key parsed.checkpoint_key) 400 validation_error
  modify (others 11)
  c ← append_task_checkpoint others now id (record {
    run_id = run_id;
    task_id = task_id;
    project_id = project_id;
    agent_id = auth.id;
    checkpoint_key = key;
    summary = some (join parsed.summary);
    payload = get_or parsed.payload no_fields;
    attachment_ids = get_or parsed.attachment_ids [];
  })
  modify (others 12)
  modify (log auth task_id (checkpoint_created run_id id c.sequence))
  give (reply c)
