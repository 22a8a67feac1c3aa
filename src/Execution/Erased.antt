-- ===== src/Execution/Erased.antt =====
-- A checkpoint that gives no summary: what becomes of the run's.
use a2a_comms.Common.{
  ℕ, ◌+◌, String, ◌≡◌, refl, true, false, none, some, [], arith, ◌==◌, get_or, eq_self, Text,
}
use a2a_comms.Common.Actions.{◌>>=◌, reply}
use a2a_comms.Common.Json.{no_fields}
use a2a_comms.Execution.{
  get_project_access, is_membership, is_finished, derive_task_execution_snapshot, Run,
  TaskExecutionSnapshot, Task, Tables,
}
use a2a_comms.Execution.Runs.{
  run_by_id, sync_task_execution_snapshot, join, checkpoint_row, key_taken, sequence_taken,
  count_checkpoint, append_task_checkpoint, NewCheckpoint,
}
use a2a_comms.Execution.Routes.{
  task_in, run_in, may_write, read_key, post_checkpoint, CreateTaskExecutionCheckpointRequest,
  Agent,
}
use a2a_comms.Execution.Sound.{find-write}
use a2a_comms.Execution.Appending.{append_lands, appended}
use a2a_comms.Execution.Held.{alone}

-- What the handler hands on to the library.
abbrev pub checkpoint_of :
    Agent → (p k run_id : String) → Text → CreateTaskExecutionCheckpointRequest → NewCheckpoint
checkpoint_of auth p k run_id key b = record {
  run_id = run_id;
  task_id = k;
  project_id = p;
  agent_id = auth.id;
  checkpoint_key = key;
  summary = some (join b.summary);
  payload = get_or b.payload no_fields;
  attachment_ids = get_or b.attachment_ids [];
}

run_appended :
    (now : ℕ) (id : String) (n : NewCheckpoint) (s : Tables) (r : Run)
    → run_by_id n.run_id s.runs ≡ some r
    → run_by_id n.run_id (appended now id n r.checkpoint_count s).runs
      ≡ some (count_checkpoint (checkpoint_row now id (r.checkpoint_count + 1) n) n.summary now r)
run_appended now id n s r row =
    rw
      (
        find-write (λ x. x == n.run_id) n.run_id
            (count_checkpoint (checkpoint_row now id (r.checkpoint_count + 1) n) n.summary now)
            s.runs (λ x. refl),
        eq_self n.run_id,
        row,
      )
      refl

library_appends :
    (now : ℕ) (id : String) (n : NewCheckpoint) (s : Tables) (r : Run)
    → run_by_id n.run_id s.runs ≡ some r
    → is_finished r.status ≡ false
    → key_taken n.run_id n.checkpoint_key s.checkpoints ≡ false
    → sequence_taken n.run_id (r.checkpoint_count + 1) s.checkpoints ≡ false
    → (x : TaskExecutionSnapshot) × (append_task_checkpoint alone now id n s ≡ (
      reply (checkpoint_row now id (r.checkpoint_count + 1) n),
      sync_task_execution_snapshot n.task_id x (appended now id n r.checkpoint_count s),
    ))
unfolding append_task_checkpoint ◌>>=◌
library_appends now id n s r row unfinished fresh free =
    let c = checkpoint_row now id (r.checkpoint_count + 1) n in
    let r' = count_checkpoint c n.summary now r in
    (
      derive_task_execution_snapshot (some r'.id) r' (some c),
      ground (
        arith,
        append_lands now id n s r row unfinished fresh free,
        run_appended now id n s r row,
      ),
    )

-- Nobody else at work: a checkpoint that is appended to a run with no summary of its own, neither a
-- text nor null, is accepted, and leaves the run without a summary, whatever the run's was.
pub checkpoint_erases_summary :
    (now : ℕ) (id : String) (auth : Agent) (p k run_id : String)
    (b : CreateTaskExecutionCheckpointRequest) (s : Tables) (t : Task) (r : Run) (key : Text)
    → is_membership (get_project_access p auth.id s) ≡ true
    → may_write auth r (get_project_access p auth.id s) ≡ true
    → task_in p k s ≡ some t
    → run_in p k run_id s ≡ some r
    → run_by_id run_id s.runs ≡ some r
    → is_finished r.status ≡ false
    → read_key b.checkpoint_key ≡ some key
    → key_taken run_id key s.checkpoints ≡ false
    → sequence_taken run_id (r.checkpoint_count + 1) s.checkpoints ≡ false
    → b.summary ≡ none
    → ((post_checkpoint alone now id auth p k run_id (some b) s).0
        ≡ reply
            (checkpoint_row now id (r.checkpoint_count + 1) (checkpoint_of auth p k run_id key b)))
      × ((r' : Run) × (run_by_id run_id
              (post_checkpoint alone now id auth p k run_id (some b) s).1.runs
            ≡ some r')
          × (r'.summary ≡ none))
unfolding post_checkpoint ◌>>=◌ sync_task_execution_snapshot
checkpoint_erases_summary now id auth p k run_id b s t r key access writer found seen row unfinished
      named fresh free wordless =
    let n = checkpoint_of auth p k run_id key b in
    let (x, done) = library_appends now id n s r row unfinished fresh free in
    let landed = run_appended now id n s r row in
    (
      ground (arith, access, writer, found, seen, unfinished, named, done),
      (
        count_checkpoint (checkpoint_row now id (r.checkpoint_count + 1) n) n.summary now r,
        ground (arith, access, writer, found, seen, unfinished, named, done, landed),
        rw wordless refl,
      ),
    )
