-- ===== src/Execution.antt =====
-- The execution of tasks: the rows of src/lib/task-execution.ts and of its tables
-- (migrations/20260405121000_task_execution_runs.sql), and the access to a project
-- (src/lib/project-access.ts).
pub mod Runs
pub mod Sweep
pub mod Routes
pub mod Sound
pub mod Steps
pub mod Served
pub mod History
pub mod Held
pub mod Freed
pub mod Erased
pub mod Serve
mod Examples
pub mod Appending
use a2a_comms.Common.{
  ℕ, zero, suc, ◌+◌, ◌-◌, ◌*◌, ◌/◌, ◌%◌, ◌≤◌, ◌<◌, String, ◌≡◌, refl, sym, ap, ◌∙◌, ◌≢◌, ◌↔◌, ◌⊎◌,
  inl, inr, Bool, true, false, not, ◌&&◌, ◌||◌, Option, none, some, List, [], ◌∷◌, ◌++◌, map, arith,
  ◌==◌, eq_iff, ltb, leb, eqb, if◌then◌else◌, get_or, is_some, truthy, is_text, Bool-cases,
  Option-cases, eq_self, leb→le, ltb→lt, length, filter, find?, every, any, All, update_where,
  includes, Text, is_space, trim_start, trim, codes, same_text, starts_with, contains, ends_with,
}
use a2a_comms.Common.Json.{Fields, no_fields}

pub data TaskExecutionRunStatus : Type 0 where
  queued starting running pending_approval waiting blocked paused handoff_needed :
      TaskExecutionRunStatus
  succeeded failed cancelled : TaskExecutionRunStatus

pub data TaskExecutionStatus : Type 0 where
  idle queued running pending_approval waiting blocked paused handoff_needed : TaskExecutionStatus
  succeeded failed cancelled : TaskExecutionStatus

pub data CheckpointStatus : Type 0 where
  written superseded : CheckpointStatus

pub record Run : Type 0 where
  pub id : String
  pub task_id : String
  pub project_id : String
  pub agent_id : String
  pub status : TaskExecutionRunStatus
  pub attempt : ℕ
  pub started_at : Option ℕ
  pub heartbeat_at : Option ℕ
  pub completed_at : Option ℕ
  pub checkpoint_count : ℕ
  pub summary : Option Text
  pub error_message : Option Text
  pub metadata : Fields
  pub created_at : ℕ
  pub updated_at : ℕ

pub record Checkpoint : Type 0 where
  pub id : String
  pub run_id : String
  pub task_id : String
  pub project_id : String
  pub agent_id : String
  pub sequence : ℕ
  pub checkpoint_key : Text
  pub status : CheckpointStatus
  pub summary : Option Text
  pub payload : Fields
  pub attachment_ids : List String
  pub created_at : ℕ

pub record TaskExecutionSnapshot : Type 0 where
  pub execution_status : TaskExecutionStatus
  pub active_run_id : Option String
  pub execution_started_at : Option ℕ
  pub execution_heartbeat_at : Option ℕ
  pub execution_completed_at : Option ℕ
  pub last_checkpoint_at : Option ℕ
  pub last_checkpoint_summary : Option Text
  pub last_checkpoint_payload : Fields

-- The columns of a task that execution reads and writes.
pub record Task : Type 0 where
  pub id : String
  pub project_id : String
  pub execution : TaskExecutionSnapshot

pub data ProjectRole : Type 0 where
  owner member : ProjectRole

pub record ProjectMember : Type 0 where
  pub project_id : String
  pub agent_id : String
  pub role : ProjectRole

pub record ProjectObserver : Type 0 where
  pub project_id : String
  pub agent_id : String

pub data EventType : Type 0 where
  run_created : (run_id : String) (attempt : ℕ) → TaskExecutionRunStatus → EventType
  run_updated : (run_id : String) (previous status : TaskExecutionRunStatus) → EventType
  checkpoint_created : (run_id checkpoint_id : String) (sequence : ℕ) → EventType

pub record Event : Type 0 where
  pub actor : String
  pub task_id : String
  pub event : EventType

pub record Tables : Type 0 where
  pub members : List ProjectMember
  pub observers : List ProjectObserver
  pub tasks : List Task
  pub runs : List Run
  pub checkpoints : List Checkpoint
  pub audit_log : List Event
  pub activity : List Event

pub data RunError : Type 0 where
  forbidden not_found invalid_state invalid_body validation_error duplicate db_error : RunError
  conflict : RunError

-- `getProjectAccess`: a member by its role, or an observer.
pub data ProjectAccess : Type 0 where
  membership : ProjectRole → ProjectAccess
  observer : ProjectAccess

abbrev pub of_project : String → String → ProjectMember → Bool
of_project project_id agent_id m = m.project_id == project_id && m.agent_id == agent_id

observes : String → String → ProjectObserver → Bool
observes project_id agent_id o = o.project_id == project_id && o.agent_id == agent_id

access_of : Option ProjectMember → Bool → Option ProjectAccess
access_of (some m) watching = some (membership m.role)
access_of none true = some observer
access_of none false = none

unfoldable pub get_project_access : String → String → Tables → Option ProjectAccess
unfolding access_of observes
get_project_access project_id agent_id s =
    access_of (find? (of_project project_id agent_id) s.members)
      (any (observes project_id agent_id) s.observers)

unfoldable pub is_membership : Option ProjectAccess → Bool
is_membership (some (membership r)) = true
is_membership _ = false

abbrev pub is_owner : Option ProjectAccess → Bool
is_owner (some (membership owner)) = true
is_owner _ = false

-- `['succeeded', 'failed', 'cancelled'].includes(status)`
abbrev pub is_finished : TaskExecutionRunStatus → Bool
is_finished succeeded = true
is_finished failed = true
is_finished cancelled = true
is_finished _ = false

abbrev pub is_queued : TaskExecutionRunStatus → Bool
is_queued queued = true
is_queued _ = false

-- The statuses that write a heartbeat.
abbrev pub is_alive : TaskExecutionRunStatus → Bool
is_alive status = not (is_finished status) && not (is_queued status)

-- `TASK_EXECUTION_RUN_STATUSES`
abbrev task_execution_run_statuses : List (Text × TaskExecutionRunStatus)
task_execution_run_statuses =
    (codes "queued", queued)
    ∷ (codes "starting", starting)
    ∷ (codes "running", running)
    ∷ (codes "pending-approval", pending_approval)
    ∷ (codes "waiting", waiting)
    ∷ (codes "blocked", blocked)
    ∷ (codes "paused", paused)
    ∷ (codes "handoff-needed", handoff_needed)
    ∷ (codes "succeeded", succeeded)
    ∷ (codes "failed", failed)
    ∷ (codes "cancelled", cancelled)
    ∷ []

abbrev status_named : Text → List (Text × TaskExecutionRunStatus) → Option TaskExecutionRunStatus
status_named s [] = none
status_named s ((name, status) ∷ rest) =
    if same_text s name then some status else status_named s rest

-- `isTaskExecutionRunStatus`, with the status that the text names.
unfoldable pub read_run_status : Text → Option TaskExecutionRunStatus
read_run_status s = status_named s task_execution_run_statuses

unfoldable pub map_run_status_to_task_status : TaskExecutionRunStatus → TaskExecutionStatus
map_run_status_to_task_status queued = TaskExecutionStatus.queued
map_run_status_to_task_status starting = TaskExecutionStatus.running
map_run_status_to_task_status running = TaskExecutionStatus.running
map_run_status_to_task_status pending_approval = TaskExecutionStatus.pending_approval
map_run_status_to_task_status waiting = TaskExecutionStatus.waiting
map_run_status_to_task_status blocked = TaskExecutionStatus.blocked
map_run_status_to_task_status paused = TaskExecutionStatus.paused
map_run_status_to_task_status handoff_needed = TaskExecutionStatus.handoff_needed
map_run_status_to_task_status succeeded = TaskExecutionStatus.succeeded
map_run_status_to_task_status failed = TaskExecutionStatus.failed
map_run_status_to_task_status cancelled = TaskExecutionStatus.cancelled

abbrev checkpoint_summary : Option Checkpoint → Option Text
checkpoint_summary none = none
checkpoint_summary (some c) = c.summary

abbrev checkpoint_time : Option Checkpoint → Option ℕ
checkpoint_time none = none
checkpoint_time (some c) = some c.created_at

abbrev checkpoint_payload : Option Checkpoint → Fields
checkpoint_payload none = no_fields
checkpoint_payload (some c) = c.payload

-- `deriveTaskExecutionSnapshot`, of a run and a checkpoint; every caller gives a status.
unfoldable pub derive_task_execution_snapshot :
    (active_run_id : Option String) → Run → Option Checkpoint → TaskExecutionSnapshot
unfolding map_run_status_to_task_status
derive_task_execution_snapshot active r c = record {
  execution_status = map_run_status_to_task_status r.status;
  active_run_id = active;
  execution_started_at = r.started_at;
  execution_heartbeat_at = r.heartbeat_at;
  execution_completed_at = r.completed_at;
  last_checkpoint_at = checkpoint_time c;
  last_checkpoint_summary = checkpoint_summary c;
  last_checkpoint_payload = checkpoint_payload c;
}
