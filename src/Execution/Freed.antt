-- ===== src/Execution/Freed.antt =====
-- An edit of a run that has finished lets go of a task that another run holds.
use a2a_comms.Common.{
  ℕ, String, ◌≡◌, refl, sym, ap, inl, inr, true, false, Option, none, some, List, arith, ◌==◌,
  eq_iff, is_some, Bool-cases, eq_self, update_where,
}
use a2a_comms.Common.Actions.{◌>>=◌, reply}
use a2a_comms.Execution.{
  get_project_access, is_membership, is_finished, derive_task_execution_snapshot,
  TaskExecutionRunStatus, Run, Task, run_updated, Tables,
}
use a2a_comms.Execution.Runs.{
  run_by_id, write_run, sync_task_execution_snapshot, apply_update, get_latest_task_checkpoint,
  active_id, update_tail, update_task_execution_run, RunUpdate,
}
use a2a_comms.Execution.Routes.{
  task_in, run_in, log, first_status, next_status, post_run, may_write, says_nothing, beats,
  patch_run, CreateTaskExecutionRunRequest, UpdateTaskExecutionRunRequest, Agent,
}
use a2a_comms.Execution.Sound.{find-write}
use a2a_comms.Execution.Steps.{apply_update_id}
use a2a_comms.Execution.Held.{alone, find_synced, started_run, post_run_lem}

abbrev pub update_of : UpdateTaskExecutionRunRequest → RunUpdate
update_of b = record {
  status = next_status b.status;
  summary = b.summary;
  error_message = b.error_message;
  metadata = b.metadata;
  heartbeat = beats b;
}

-- The tables after the write of a change to this run, and after the whole request.
abbrev written_tables : ℕ → String → UpdateTaskExecutionRunRequest → Run → Tables → Tables
written_tables now run_id b r s =
    write_run run_id (apply_update now (is_some r.started_at) (update_of b)) s

abbrev synced_tables :
    ℕ → (k run_id : String) → UpdateTaskExecutionRunRequest → Run → Tables → Tables
synced_tables now k run_id b r s =
    let r' = apply_update now (is_some r.started_at) (update_of b) r in
    let w = written_tables now run_id b r s in
    sync_task_execution_snapshot k
      (derive_task_execution_snapshot (active_id r') r' (get_latest_task_checkpoint k run_id w)) w

tail_lem :
    (k run_id : String) (w : Tables) (r : Run)
    → run_by_id run_id w.runs ≡ some r
    → update_tail alone run_id k w ≡ (
      reply r,
      sync_task_execution_snapshot k
          (derive_task_execution_snapshot (active_id r) r (get_latest_task_checkpoint k run_id w))
          w,
    )
unfolding update_tail ◌>>=◌
tail_lem k run_id w r hit = ground (arith, hit)

updated :
    (now : ℕ) (k run_id : String) (b : UpdateTaskExecutionRunRequest) (r : Run) (s : Tables)
    → run_by_id run_id s.runs ≡ some r
    → update_task_execution_run alone now run_id k (update_of b) s ≡ (
      reply (apply_update now (is_some r.started_at) (update_of b) r),
      synced_tables now k run_id b r s,
    )
unfolding update_task_execution_run ◌>>=◌
updated now k run_id b r s row =
    let f = apply_update now (is_some r.started_at) (update_of b) in
    let same = λ (q : Run). apply_update_id now (is_some r.started_at) (update_of b) q in
    let hit : run_by_id run_id (update_where (λ q. q.id == run_id) f s.runs) ≡ some (f r) =
      rw (find-write (λ x. x == run_id) run_id f s.runs same, eq_self run_id, row) refl in
    rw row (tail_lem k run_id (written_tables now run_id b r s) (f r) hit)

patched :
    (now : ℕ) (auth : Agent) (p k run_id : String) (b : UpdateTaskExecutionRunRequest) (s : Tables)
    (t : Task) (r : Run)
    → is_membership (get_project_access p auth.id s) ≡ true
    → may_write auth r (get_project_access p auth.id s) ≡ true
    → task_in p k s ≡ some t
    → run_in p k run_id s ≡ some r
    → run_by_id run_id s.runs ≡ some r
    → says_nothing b ≡ false
    → b.status ≡ none
    → beats b ≡ false
    → patch_run alone now auth p k run_id (some b) s ≡ (
      reply (apply_update now (is_some r.started_at) (update_of b) r),
      log auth k
          (run_updated run_id r.status
            (apply_update now (is_some r.started_at) (update_of b) r).status)
          (synced_tables now k run_id b r s),
    )
unfolding patch_run ◌>>=◌
patched now auth p k run_id b s t r access writer found seen row words no_status silent =
    ground
      (arith, access, writer, found, seen, words, no_status, silent, updated now k run_id b r s row)

still_over :
    (now : ℕ) (b : UpdateTaskExecutionRunRequest) (r : Run)
    → b.status ≡ none
    → is_finished r.status ≡ true
    → active_id (apply_update now (is_some r.started_at) (update_of b) r) ≡ none
unfolding apply_update
still_over now b r e over = rw e (rw over refl)

other_run :
    (id : String) (q r : Run) (rs : List Run)
    → run_by_id q.id rs ≡ some q
    → run_by_id id rs ≡ some r
    → is_finished q.status ≡ false
    → is_finished r.status ≡ true
    → (q.id == id) ≡ false
other_run id q r rs at_q at_r open_still over = elim (Bool-cases (q.id == id)) [
  | inl same ↦
      let at_id : run_by_id id rs ≡ some q = rw (sym ((eq_iff q.id id).0 same)) at_q in
      let one : q ≡ r = cc in let clash : is_finished q.status ≡ true = rw one over in cc
  | inr other ↦ other
]

find_elsewhere :
    (j run_id : String) (f : Run → Run) (rs : List Run) (o : Option Run)
    → ((r : Run) → (f r).id ≡ r.id)
    → run_by_id j rs ≡ o
    → (j == run_id) ≡ false
    → run_by_id j (update_where (λ r. r.id == run_id) f rs) ≡ o
find_elsewhere j run_id f rs o keep h other =
    rw (find-write (λ x. x == run_id) j f rs keep, other) h

fresh_elsewhere :
    (j run_id : String) (f : Run → Run) (rs : List Run)
    → ((r : Run) → (f r).id ≡ r.id)
    → run_by_id j rs ≡ none
    → run_by_id j (update_where (λ r. r.id == run_id) f rs) ≡ none
fresh_elsewhere j run_id f rs keep h =
    rw (find-write (λ x. x == run_id) j f rs keep, h) (ground arith)

fresh_other :
    (a b : String) (rs : List Run) (q : Run)
    → run_by_id a rs ≡ none
    → run_by_id b rs ≡ some q
    → (a == b) ≡ false
fresh_other a b rs q h k = elim (Bool-cases (a == b)) [
  | inl same ↦ ground (arith, (eq_iff a b).0 same, h, k)
  | inr other ↦ other
]

-- Nobody else at work: a run has finished, another run that has not holds its task, and the owner of
-- the first, or of the project, edits the first: its summary, its error or its metadata, with no new
-- status. Then the task is held by no run any more: a member that asks for a run, with a valid status
-- or none, gets one, and the run that held the task is still there, as it was.
pub late_edit_frees_task :
    (now later : ℕ) (auth next : Agent) (p k run_id new_id : String)
    (b : UpdateTaskExecutionRunRequest) (c : CreateTaskExecutionRunRequest) (s : Tables) (t : Task)
    (q r : Run) (st : TaskExecutionRunStatus)
    → is_membership (get_project_access p auth.id s) ≡ true
    → may_write auth r (get_project_access p auth.id s) ≡ true
    → is_membership (get_project_access p next.id s) ≡ true
    → task_in p k s ≡ some t
    → run_in p k run_id s ≡ some r
    → run_by_id run_id s.runs ≡ some r
    → is_finished r.status ≡ true
    → t.execution.active_run_id ≡ some q.id
    → run_by_id q.id s.runs ≡ some q
    → is_finished q.status ≡ false
    → says_nothing b ≡ false
    → b.status ≡ none
    → beats b ≡ false
    → first_status c.status ≡ some st
    → run_by_id new_id s.runs ≡ none
    → ((post_run alone later new_id next p k
          (some c)
          (patch_run alone now auth p k run_id (some b) s).1).0
        ≡ reply (
            started_run later new_id next p k c st
              (patch_run alone now auth p k run_id (some b) s).1))
      × (run_by_id q.id
            (post_run alone later new_id next p k
              (some c)
              (patch_run alone now auth p k run_id (some b) s).1).1.runs
          ≡ some q)
unfolding sync_task_execution_snapshot derive_task_execution_snapshot get_project_access
late_edit_frees_task now later auth next p k run_id new_id b c s t q r st access writer access'
      found seen row over held at_q open_still words no_status silent named new =
    let edit =
      patched now auth p k run_id b s t r access writer found seen row words no_status silent in
    let f = apply_update now (is_some r.started_at) (update_of b) in
    let same = λ (x : Run). apply_update_id now (is_some r.started_at) (update_of b) x in
    let e = (patch_run alone now auth p k run_id (some b) s).1 in
    let x =
      derive_task_execution_snapshot (active_id (f r)) (f r)
        (get_latest_task_checkpoint k run_id (written_tables now run_id b r s)) in
    let found' : task_in p k e ≡ some (record t { execution = x }) =
      rw edit (find_synced p k x s.tasks t found) in
    let at_q' : run_by_id q.id e.runs ≡ some q = rw edit (
      find_elsewhere q.id run_id f s.runs (some q) same at_q
        (other_run run_id q r s.runs at_q row open_still over)) in
    let new' : run_by_id new_id e.runs ≡ none =
      rw edit (fresh_elsewhere new_id run_id f s.runs same new) in
    let access'' : is_membership (get_project_access p next.id e) ≡ true = rw edit access' in
    let run =
      post_run_lem later new_id next p k c e (record t { execution = x }) st access'' found'
        (still_over now b r no_status over) named new' in
    (ap (λ y. y.0) run, rw run rw (fresh_other new_id q.id e.runs q new' at_q') at_q')
