-- ===== src/Execution/Served.antt =====
-- The functions and handlers on runs, in whatever interleaving of their statements with those of other requests.
use a2a_comms.Common.{
  ℕ, String, ◌≡◌, refl, sym, inl, inr, true, Option, none, some, arith, is_some, Option-cases,
}
use a2a_comms.Common.Actions.{modify, ◌>>=◌}
use a2a_comms.Common.Keeps.{statements, modify-Keeps, Preorder, Keeps, statements}
use a2a_comms.Execution.{Run, Checkpoint, TaskExecutionSnapshot, EventType, Tables, RunError}
use a2a_comms.Execution.Runs.{
  Others, run_by_id, sync_task_execution_snapshot, create_task_execution_run, update_tail,
  update_task_execution_run, append_task_checkpoint_atomic, sync_after_append,
  append_task_checkpoint, NewRun, RunUpdate, NewCheckpoint,
}
use a2a_comms.Execution.Sound.{Continues-refl, Continues-trans, Continues-same, Continues}
use a2a_comms.Execution.Steps.{update-Continues, insert-Continues}
use a2a_comms.Execution.Appending.{append_atomic-Continues}
use a2a_comms.Execution.Routes.{
  log, post_run, log_update, patch_run, post_checkpoint, CreateTaskExecutionRunRequest,
  UpdateTaskExecutionRunRequest, CreateTaskExecutionCheckpointRequest, Agent,
}

instance goes_on : Preorder Continues
goes_on = record { same = Continues-refl; next = λ r s t. Continues-trans }

sync-Continues :
    (task_id : String) (x : TaskExecutionSnapshot) (s : Tables)
    → Continues s (sync_task_execution_snapshot task_id x s)
unfolding sync_task_execution_snapshot
sync-Continues task_id x s = Continues-same s _ refl refl

log-Continues :
    (auth : Agent) (task_id : String) (e : EventType) (s : Tables)
    → Continues s (log auth task_id e s)
log-Continues auth task_id e s = Continues-same s _ refl refl

module _ (others : Others) (polite : (n : ℕ) (s : Tables) → Continues s (others n s)) where
  others-Keeps : (n : ℕ) → Keeps Continues (modify {S = Tables} {E = RunError} (others n))
  others-Keeps n = modify-Keeps (others n) (polite n)

  sync-Keeps :
      (task_id : String) (x : TaskExecutionSnapshot)
      → Keeps Continues
          (modify {S = Tables} {E = RunError} (sync_task_execution_snapshot task_id x))
  sync-Keeps task_id x = modify-Keeps _ (sync-Continues task_id x)

  atomic-Keeps :
      (now : ℕ) (id : String) (n : NewCheckpoint)
      → Keeps Continues (append_task_checkpoint_atomic now id n)
  atomic-Keeps now id n = record { at = append_atomic-Continues now id n }

  sync_append-Keeps :
      (task_id : String) (c : Checkpoint) (o : Option Run)
      → Keeps Continues (modify {S = Tables} {E = RunError} (sync_after_append task_id c o))
  sync_append-Keeps task_id c none = modify-Keeps _ Continues-refl
  sync_append-Keeps task_id c (some r) = sync-Keeps task_id _

  append-Keeps :
      (now : ℕ) (id : String) (n : NewCheckpoint)
      → Keeps Continues (append_task_checkpoint others now id n)
  unfolding append_task_checkpoint
  append-Keeps now id n =
      search (statements, atomic-Keeps, others-Keeps, sync_append-Keeps) depth 20

  create-Keeps :
      (now : ℕ) (id : String) (n : NewRun)
      → Keeps Continues (create_task_execution_run others now id n)
  unfolding create_task_execution_run ◌>>=◌
  create-Keeps now id n = record {
    at = λ s. elim (Option-cases (run_by_id id s.runs)) [
      | inl new ↦ rw new (
          Continues-trans (insert-Continues now id n s new)
            (Continues-trans (polite 0 _) (sync-Continues n.task_id _ _)))
      | inr (r, taken) ↦ rw taken (Continues-refl s)
    ];
  }

  update_tail-Keeps :
      (run_id task_id : String) → Keeps Continues (update_tail others run_id task_id)
  unfolding update_tail
  update_tail-Keeps run_id task_id = search (statements, others-Keeps, sync-Keeps) depth 20

  -- What was seen as started is started when it is written.
  still_started :
      (id : String) (r : Run) (s : Tables)
      → run_by_id id s.runs ≡ some r
      → is_some r.started_at ≡ true
      → (q : Run) → run_by_id id (others 0 s).runs ≡ some q
      → is_some q.started_at ≡ true
  still_started id r s found e q at_q =
      let (q', at_q', kept) = (polite 0 s).row id r found in
      let same : q' ≡ q = cc in rw (sym same) (kept.still_started e)

  update-Keeps :
      (now : ℕ) (run_id task_id : String) (u : RunUpdate)
      → Keeps Continues (update_task_execution_run others now run_id task_id u)
  unfolding update_task_execution_run ◌>>=◌
  update-Keeps now run_id task_id u = record {
    at = λ s. elim (Option-cases (run_by_id run_id s.runs)) [
      | inl gone ↦ rw gone (Continues-refl s)
      | inr (r, found) ↦ rw found (
          Continues-trans (polite 0 s) (
            Continues-trans
              (update-Continues now run_id (is_some r.started_at) u (others 0 s)
                (still_started run_id r s found))
              ((update_tail-Keeps run_id task_id).at _)))
    ];
  }

  log-Keeps :
      (auth : Agent) (task_id : String) (e : EventType)
      → Keeps Continues (modify {S = Tables} {E = RunError} (log auth task_id e))
  log-Keeps auth task_id e = modify-Keeps _ (log-Continues auth task_id e)

  log_update-Keeps :
      (auth : Agent) (task_id : String) (b : UpdateTaskExecutionRunRequest) (e : EventType)
      → Keeps Continues (modify {S = Tables} {E = RunError} (log_update auth task_id b e))
  log_update-Keeps auth task_id b e =
      modify-Keeps _ (λ s. Continues-same s _ (ground arith) (ground arith))

  pub post_run-Keeps :
      (now : ℕ) (run_id : String) (auth : Agent) (project_id task_id : String)
      (body : Option CreateTaskExecutionRunRequest)
      → Keeps Continues (post_run others now run_id auth project_id task_id body)
  unfolding post_run
  post_run-Keeps now run_id auth project_id task_id body =
      search (statements, others-Keeps, create-Keeps, log-Keeps) depth 40

  pub patch_run-Keeps :
      (now : ℕ) (auth : Agent) (project_id task_id run_id : String)
      (body : Option UpdateTaskExecutionRunRequest)
      → Keeps Continues (patch_run others now auth project_id task_id run_id body)
  unfolding patch_run
  patch_run-Keeps now auth project_id task_id run_id body =
      search (statements, others-Keeps, update-Keeps, log_update-Keeps) depth 40

  pub post_checkpoint-Keeps :
      (now : ℕ) (id : String) (auth : Agent) (project_id task_id run_id : String)
      (body : Option CreateTaskExecutionCheckpointRequest)
      → Keeps Continues (post_checkpoint others now id auth project_id task_id run_id body)
  unfolding post_checkpoint
  post_checkpoint-Keeps now id auth project_id task_id run_id body =
      search (statements, others-Keeps, append-Keeps, log-Keeps) depth 40
