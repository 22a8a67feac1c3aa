-- ===== src/Execution/History.antt =====
-- Requests on the runs of a project, one inside another, with the sweeps of stale runs.
use a2a_comms.Common.{ℕ, ◌+◌, String, ◌≡◌, Bool, false, Option, some, Text}
use a2a_comms.Common.Actions.{reply}
use a2a_comms.Execution.{is_finished, Run, Tables}
use a2a_comms.Execution.Runs.{
  Others, run_by_id, checkpoint_row, key_taken, append_task_checkpoint_atomic, NewCheckpoint,
}
use a2a_comms.Execution.Sweep.{reap_stale_execution_runs}
use a2a_comms.Execution.Sound.{Continues-refl, Continues-trans, IsSound, Kept, Continues}
use a2a_comms.Execution.Steps.{sweep-Continues}
use a2a_comms.Execution.Appending.{append_lands, next_is_free, appended}
use a2a_comms.Execution.Routes.{
  post_run, patch_run, post_checkpoint, CreateTaskExecutionRunRequest,
  UpdateTaskExecutionRunRequest, CreateTaskExecutionCheckpointRequest, Agent,
}
use a2a_comms.Execution.Served.{post_run-Keeps, patch_run-Keeps, post_checkpoint-Keeps}

-- A run of requests takes the tables to others. What happens between two statements of a request is
-- a run too.
pub data Serves : Tables → Tables → Type 0 where
  rests : {s : Tables} → Serves s s
  before : {r s t : Tables} → Serves r s → Serves s t → Serves r t
  starts :
      (others : Others) (now : ℕ) (run_id : String) (auth : Agent) (project_id task_id : String)
      (body : Option CreateTaskExecutionRunRequest) (s : Tables)
      → ((n : ℕ) (t : Tables) → Serves t (others n t))
      → Serves s (post_run others now run_id auth project_id task_id body s).1
  changes :
      (others : Others) (now : ℕ) (auth : Agent) (project_id task_id run_id : String)
      (body : Option UpdateTaskExecutionRunRequest) (s : Tables)
      → ((n : ℕ) (t : Tables) → Serves t (others n t))
      → Serves s (patch_run others now auth project_id task_id run_id body s).1
  checkpoints :
      (others : Others) (now : ℕ) (id : String) (auth : Agent) (project_id task_id run_id : String)
      (body : Option CreateTaskExecutionCheckpointRequest) (s : Tables)
      → ((n : ℕ) (t : Tables) → Serves t (others n t))
      → Serves s (post_checkpoint others now id auth project_id task_id run_id body s).1
  sweeps :
      (now stale_after limit : ℕ) (locked : Run → Bool) (note : Run → Text) (s : Tables)
      → Serves s (reap_stale_execution_runs now stale_after limit locked note s)

pub serves-Continues : (s t : Tables) → Serves s t → Continues s t
serves-Continues s t rests = Continues-refl s
serves-Continues s t (before {s = m} first later) =
    Continues-trans (serves-Continues s m first) (serves-Continues m t later)
serves-Continues s t (starts others now run_id auth p k body r polite) =
    (post_run-Keeps others (λ n u. serves-Continues u (others n u) (polite n u)) now run_id auth p k
        body).at
      s
serves-Continues s t (changes others now auth p k run_id body r polite) =
    (patch_run-Keeps others (λ n u. serves-Continues u (others n u) (polite n u)) now auth p k
        run_id body).at
      s
serves-Continues s t (checkpoints others now id auth p k run_id body r polite) =
    (post_checkpoint-Keeps others (λ n u. serves-Continues u (others n u) (polite n u)) now id auth
        p k run_id body).at
      s
serves-Continues s t (sweeps now stale_after limit locked note r) =
    sweep-Continues now stale_after limit locked note s

-- However requests to start, change and checkpoint runs and sweeps of stale runs interleave, on
-- sound tables: the tables stay sound, that is, each run is completed exactly if it has finished,
-- was started unless it is queued or was cancelled, has a heartbeat if it is at work, and its
-- checkpoints, the newest first, are numbered from its count down to 1 without a gap. And a run that
-- was there is there, for the same task, agent and attempt, with no fewer checkpoints, and started
-- if it was.
pub Serves-IsSound :
    (s t : Tables) (id : String) (r : Run)
    → Serves s t
    → IsSound s
    → run_by_id id s.runs ≡ some r
    → IsSound t × ((r' : Run) × (run_by_id id t.runs ≡ some r') × Kept r r')
Serves-IsSound s t id r served sound found =
    let c = serves-Continues s t served in (c.sound sound, c.row id r found)

-- After any such interleaving on sound tables, a run that has not finished can be checkpointed: an
-- append under a key that the run does not have yet is accepted, and numbered one past the run's
-- count, so that no conflict of sequences ever blocks a run.
pub checkpoint_never_blocked :
    (s t : Tables) (now : ℕ) (id : String) (n : NewCheckpoint) (r : Run)
    → Serves s t
    → IsSound s
    → run_by_id n.run_id t.runs ≡ some r
    → is_finished r.status ≡ false
    → key_taken n.run_id n.checkpoint_key t.checkpoints ≡ false
    → append_task_checkpoint_atomic now id n t ≡ (
      reply (checkpoint_row now id (r.checkpoint_count + 1) n),
      appended now id n r.checkpoint_count t,
    )
checkpoint_never_blocked s t now id n r served sound found unfinished fresh =
    let free = next_is_free t n.run_id r ((serves-Continues s t served).sound sound) found in
    append_lands now id n t r found unfinished fresh free
