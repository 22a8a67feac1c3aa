-- ===== src/Execution/Examples.antt =====
-- The theorems on execution at concrete tables, and runs of the handlers.
use a2a_comms.Common.{ℕ, ◌+◌, ◌≡◌, refl, false, Option, none, some, [], ◌∷◌, Text, codes}
use a2a_comms.Common.Actions.{refuse, reply}
use a2a_comms.Common.Json.{no_fields}
use a2a_comms.Execution.{succeeded, starting}
use a2a_comms.Execution.{
  get_project_access, is_membership, read_run_status, starting, idle, Run, TaskExecutionSnapshot,
  Task, owner, member, Tables, forbidden, invalid_state,
}
use a2a_comms.Execution.Runs.{
  run_by_id, checkpoint_row, append_task_checkpoint_atomic, NewCheckpoint,
}
use a2a_comms.Execution.Sweep.{release, reap_stale_execution_runs}
use a2a_comms.Execution.Routes.{
  UpdateTaskExecutionRunRequest, patch_run, CreateTaskExecutionCheckpointRequest, task_in,
  last_attempt, post_run, CreateTaskExecutionRunRequest, Agent,
}
use a2a_comms.Execution.Sound.{IsSound, Kept}
use a2a_comms.Execution.Appending.{appended}
use a2a_comms.Execution.History.{
  serves-Continues, Serves-IsSound, checkpoint_never_blocked, Serves, rests, starts, sweeps,
}
use a2a_comms.Execution.Held.{alone, started_run, finished_run_blocks}
use a2a_comms.Execution.Freed.{late_edit_frees_task}

abbrev untouched : TaskExecutionSnapshot
untouched = record {
  execution_status = idle;
  active_run_id = none;
  execution_started_at = none;
  execution_heartbeat_at = none;
  execution_completed_at = none;
  last_checkpoint_at = none;
  last_checkpoint_summary = none;
  last_checkpoint_payload = no_fields;
}

abbrev task_one : Task
task_one = record { id = "t1"; project_id = "p1"; execution = untouched }

abbrev at_first : Tables
at_first = record {
  members =
      record { project_id = "p1"; agent_id = "a1"; role = owner }
      ∷ record { project_id = "p1"; agent_id = "a2"; role = member }
      ∷ [];
  observers = record { project_id = "p1"; agent_id = "a3" } ∷ [];
  tasks = task_one ∷ [];
  runs = [];
  checkpoints = [];
  audit_log = [];
  activity = [];
}

abbrev ann : Agent
ann = record { id = "a1"; name = "ann" }

abbrev bob : Agent
bob = record { id = "a2"; name = "bob" }

abbrev asks_for : Option Text → CreateTaskExecutionRunRequest
asks_for st = record { status = st; summary = some (codes "work"); metadata = none }

abbrev first_request : Option CreateTaskExecutionRunRequest
first_request = some (asks_for none)

abbrev alone_serves : (n : ℕ) (t : Tables) → Serves t (alone n t)
alone_serves n t = rests

abbrev in_progress : Tables
in_progress = (post_run alone 100 "r1" ann "p1" "t1" first_request at_first).1

abbrev first_row : Run
first_row = started_run 100 "r1" ann "p1" "t1" (asks_for none) starting at_first

at_first-IsSound : IsSound at_first
at_first-IsSound = record { at = λ id. refl }

first_served : Serves at_first in_progress
first_served = starts alone 100 "r1" ann "p1" "t1" first_request at_first alone_serves

first_found : run_by_id "r1" in_progress.runs ≡ some first_row
unfolding post_run last_attempt
first_found = refl

in_progress-IsSound : IsSound in_progress
in_progress-IsSound = (serves-Continues at_first in_progress first_served).sound at_first-IsSound

-- The observer may not start a run.
observer_refused :
    (post_run alone 100 "r1" (record { id = "a3"; name = "cy" }) "p1" "t1" first_request at_first).0
    ≡ refuse 403 forbidden
unfolding post_run
observer_refused = refl

abbrev a_checkpoint : NewCheckpoint
a_checkpoint = record {
  run_id = "r1";
  task_id = "t1";
  project_id = "p1";
  agent_id = "a1";
  checkpoint_key = codes "step";
  summary = none;
  payload = no_fields;
  attachment_ids = [];
}

checkpoint_never_blocked_example :
    append_task_checkpoint_atomic 200 "c1" a_checkpoint in_progress ≡ (
      reply (checkpoint_row 200 "c1" (first_row.checkpoint_count + 1) a_checkpoint),
      appended 200 "c1" a_checkpoint first_row.checkpoint_count in_progress,
    )
unfolding post_run last_attempt
checkpoint_never_blocked_example =
    checkpoint_never_blocked at_first in_progress 200 "c1" a_checkpoint first_row first_served
      at_first-IsSound first_found refl refl

abbrev swept : Tables
swept = reap_stale_execution_runs 2000000 900000 200 (λ r. false) (λ r. codes "silent") in_progress

Serves-IsSound_example :
    IsSound swept × ((r' : Run) × (run_by_id "r1" swept.runs ≡ some r') × Kept first_row r')
Serves-IsSound_example =
    Serves-IsSound in_progress swept "r1" first_row
      (sweeps 2000000 900000 200 (λ r. false) (λ r. codes "silent") in_progress) in_progress-IsSound
      first_found

-- The sweep cancels the silent run, and lets go of its task.
sweep_releases :
    (task_in "p1" "t1" swept)
    ≡ some (
        release 2000000 (record task_one {
          execution = record untouched {
            execution_started_at = some 100;
            execution_heartbeat_at = some 100;
          };
        }))
unfolding reap_stale_execution_runs post_run last_attempt
sweep_releases = refl

abbrev done_already : CreateTaskExecutionRunRequest
done_already = asks_for (some (codes "succeeded"))

finished_run_blocks_example :
    ((post_run alone 100 "r1" ann "p1" "t1" (some done_already) at_first).0
      ≡ reply (started_run 100 "r1" ann "p1" "t1" done_already succeeded at_first))
    × ((post_run alone 2000000 "r2" bob "p1" "t1" first_request (
          reap_stale_execution_runs 2000000 900000 200
            (λ r. false)
            (λ r. codes "silent")
            (post_run alone 100 "r1" ann "p1" "t1" (some done_already) at_first).1)).0
        ≡ refuse 409 invalid_state)
unfolding get_project_access is_membership read_run_status
finished_run_blocks_example =
    finished_run_blocks 100 2000000 "r1" "r2" ann bob "p1" "t1" done_already first_request at_first
      task_one succeeded 900000 200 (λ r. false) (λ r. codes "silent") refl refl refl refl refl refl
      refl

abbrev old_row : Run
old_row = record first_row { id = "r0"; status = succeeded; completed_at = some 90 }

abbrev held_task : Task
held_task = record task_one { execution = record untouched { active_run_id = some "r1" } }

-- A run that has finished, and the one that holds the task.
abbrev two_runs : Tables
two_runs = record at_first { tasks = held_task ∷ []; runs = first_row ∷ old_row ∷ [] }

abbrev a_summary : UpdateTaskExecutionRunRequest
a_summary = record {
  status = none;
  summary = some (some (codes "late note"));
  error_message = none;
  metadata = none;
  heartbeat = none;
}

abbrev edited : Tables
edited = (patch_run alone 300 ann "p1" "t1" "r0" (some a_summary) two_runs).1

late_edit_frees_task_example :
    ((post_run alone 400 "r2" bob "p1" "t1" (some (asks_for none)) edited).0
      ≡ reply (started_run 400 "r2" bob "p1" "t1" (asks_for none) starting edited))
    × (run_by_id "r1" (post_run alone 400 "r2" bob "p1" "t1" (some (asks_for none)) edited).1.runs
        ≡ some first_row)
unfolding get_project_access is_membership last_attempt
late_edit_frees_task_example =
    late_edit_frees_task 300 400 ann bob "p1" "t1" "r0" "r2" a_summary (asks_for none) two_runs
      held_task first_row old_row starting refl refl refl refl refl refl refl refl refl refl refl
      refl refl refl refl

abbrev a_step : CreateTaskExecutionCheckpointRequest
a_step = record {
  checkpoint_key = some (codes " step ");
  summary = none;
  payload = none;
  attachment_ids = none;
}
