-- ===== src/Execution/Sweep.antt =====
-- The sweep that cancels runs which went silent, and lets go of their tasks: the SQL function of
-- migrations/20260917210000_reap_stale_execution_runs.sql, without its dry run.
use a2a_comms.Common.{
  ℕ, zero, suc, ◌+◌, String, Bool, not, ◌&&◌, none, some, List, [], ◌∷◌, ◌==◌, ltb, leb,
  if◌then◌else◌, get_or, is_text, filter, any, update_where, Text,
}
use a2a_comms.Execution.{cancelled}
use a2a_comms.Execution.{is_finished, idle, Run, Task, Tables}

-- `COALESCE(heartbeat_at, started_at, created_at)`
abbrev last_seen : Run → ℕ
last_seen r = get_or r.heartbeat_at (get_or r.started_at r.created_at)

abbrev pub is_stale : (now stale_after : ℕ) → Run → Bool
is_stale now stale_after r = not (is_finished r.status) && ltb (last_seen r + stale_after) now

unfoldable pub insert_by_age : Run → List Run → List Run
insert_by_age r [] = r ∷ []
insert_by_age r (x ∷ xs) =
    if leb (last_seen r) (last_seen x) then r ∷ x ∷ xs else x ∷ insert_by_age r xs

unfoldable pub oldest_first : List Run → List Run
unfolding insert_by_age
oldest_first [] = []
oldest_first (r ∷ rs) = insert_by_age r (oldest_first rs)

abbrev pub take {ℓ} : {A : Type ℓ} → ℕ → List A → List A
take zero xs = []
take (suc n) [] = []
take (suc n) (x ∷ xs) = x ∷ take n xs

abbrev pub among : List Run → String → Bool
among rs id = any (λ r. r.id == id) rs

-- The runs that a sweep takes; it skips those that another transaction has locked.
unfoldable pub stale_runs : (now stale_after limit : ℕ) (locked : Run → Bool) → List Run → List Run
unfolding oldest_first
stale_runs now stale_after limit locked rs =
    take limit (oldest_first (filter (λ r. is_stale now stale_after r && not (locked r)) rs))

abbrev pub cancel_stale : ℕ → (note : Run → Text) → Run → Run
cancel_stale now note r = record r {
  status = cancelled;
  completed_at = some now;
  error_message = some (get_or r.error_message (note r));
  updated_at = now;
}

-- A task is held by one of these runs of it.
abbrev pub held_by : List Run → Task → Bool
held_by rs t = any (λ r. r.task_id == t.id && is_text t.execution.active_run_id r.id) rs

abbrev pub release : ℕ → Task → Task
release now t = record t {
  execution = record t.execution {
    active_run_id = none;
    execution_status = idle;
    execution_completed_at = some now;
  };
}

-- `note` is the sentence that says how long the run was silent.
unfoldable pub reap_stale_execution_runs :
    (now stale_after limit : ℕ) (locked : Run → Bool) (note : Run → Text) → Tables → Tables
unfolding stale_runs
reap_stale_execution_runs now stale_after limit locked note s =
    let picked = stale_runs now stale_after limit locked s.runs in
    record s {
      runs = update_where (λ r. among picked r.id) (cancel_stale now note) s.runs;
      tasks = update_where (held_by picked) (release now) s.tasks;
    }
