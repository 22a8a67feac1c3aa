-- ===== src/Execution/Steps.antt =====
-- Each statement on runs and checkpoints keeps them sound.
use a2a_comms.Common.{
  ℕ, String, ◌≡◌, refl, sym, inl, inr, Bool, true, Option, none, some, List, [], arith, ◌==◌,
  eq_iff, is_some, Bool-cases, Text,
}
use a2a_comms.Execution.{TaskExecutionRunStatus, Run, Tables}
use a2a_comms.Execution.{TaskExecutionRunStatus, Run, Tables}
use a2a_comms.Execution.Runs.{
  run_by_id, write_run, run_row, insert_run, with_status, apply_update, NewRun, RunUpdate,
}
use a2a_comms.Execution.Sweep.{among, stale_runs, cancel_stale, reap_stale_execution_runs}
use a2a_comms.Execution.Sound.{
  sequences, RowSound, Kept-refl, write-Continues, IsConsistent, Kept, Continues,
}

run_row-IsConsistent : (now : ℕ) (id : String) (n : NewRun) → IsConsistent (run_row now id n)
run_row-IsConsistent now id n = record {
  completed = ground arith;
  started = ground arith;
  beating = ground arith;
}

-- A new status, with the times that belong to it; `started` was read before, and holds still.
with_status-IsConsistent :
    (now : ℕ) (started : Bool) (st : Option TaskExecutionRunStatus) (r : Run)
    → (started ≡ true → is_some r.started_at ≡ true)
    → IsConsistent r
    → IsConsistent (with_status now started st r)
with_status-IsConsistent now started none r was h = h
with_status-IsConsistent now started (some st) r was h = record {
  completed = ground arith;
  started = ground (arith, was);
  beating = ground arith;
}

apply_update-IsConsistent :
    (now : ℕ) (started : Bool) (u : RunUpdate) (r : Run)
    → (started ≡ true → is_some r.started_at ≡ true)
    → IsConsistent r
    → IsConsistent (apply_update now started u r)
unfolding apply_update
apply_update-IsConsistent now started u r was h =
    let k = with_status-IsConsistent now started u.status r was h in
    record { completed = k.completed; started = k.started; beating = ground (arith, k.beating) }

with_status-Kept :
    (now : ℕ) (started : Bool) (st : Option TaskExecutionRunStatus) (r : Run)
    → Kept r (with_status now started st r)
with_status-Kept now started none r = Kept-refl r
with_status-Kept now started (some st) r = record {
  same_task = refl;
  same_agent = refl;
  same_attempt = refl;
  counted = omega arith;
  still_started = λ h. ground arith;
}

apply_update-Kept :
    (now : ℕ) (started : Bool) (u : RunUpdate) (r : Run) → Kept r (apply_update now started u r)
unfolding apply_update
apply_update-Kept now started u r =
    let k = with_status-Kept now started u.status r in
    record {
      same_task = k.same_task;
      same_agent = k.same_agent;
      same_attempt = k.same_attempt;
      counted = k.counted;
      still_started = k.still_started;
    }

with_status_same :
    (now : ℕ) (started : Bool) (st : Option TaskExecutionRunStatus) (r : Run)
    → ((with_status now started st r).id ≡ r.id)
      × ((with_status now started st r).checkpoint_count ≡ r.checkpoint_count)
with_status_same now started none r = (refl, refl)
with_status_same now started (some st) r = (refl, refl)

pub apply_update_id :
    (now : ℕ) (started : Bool) (u : RunUpdate) (r : Run) → (apply_update now started u r).id ≡ r.id
unfolding apply_update
apply_update_id now started u r = (with_status_same now started u.status r).0

pub update-Continues :
    (now : ℕ) (run_id : String) (started : Bool) (u : RunUpdate) (s : Tables)
    → (started ≡ true → (r : Run) → run_by_id run_id s.runs ≡ some r → is_some r.started_at ≡ true)
    → Continues s (write_run run_id (apply_update now started u) s)
unfolding apply_update
update-Continues now run_id started u s was =
    write-Continues (λ x. x == run_id) (apply_update now started u) s _ refl refl
      (λ r. (with_status_same now started u.status r).0)
      (λ r. (with_status_same now started u.status r).1)
      (λ j r here found. apply_update-Kept now started u r)
      (λ j r here found h.
        apply_update-IsConsistent now started u r
          (λ e. was e r (rw (sym ((eq_iff j run_id).0 here)) found)) h)

no_numbers : (o : Option Run) (numbers : List ℕ) → RowSound o numbers → o ≡ none → numbers ≡ []
no_numbers none numbers h e = h
no_numbers (some r) numbers h e = cc

pub insert-Continues :
    (now : ℕ) (id : String) (n : NewRun) (s : Tables)
    → run_by_id id s.runs ≡ none
    → Continues s (insert_run (run_row now id n) s)
insert-Continues now id n s new = record {
  row = λ j r found. elim (Bool-cases (id == j)) [
    | inl same ↦ ground (arith, (eq_iff id j).0 same, new, found)
    | inr other ↦ (r, rw other found, Kept-refl r)
  ];
  sound = λ h. record {
    at = λ j. elim (Bool-cases (id == j)) [
      | inl same ↦ rw same (
        run_row-IsConsistent now id n,
        no_numbers (run_by_id j s.runs) (sequences j s.checkpoints) (h.at j)
            (rw (sym ((eq_iff id j).0 same)) new),
      )
      | inr other ↦ rw other (h.at j)
    ];
  };
}

cancel_stale-IsConsistent :
    (now : ℕ) (note : Run → Text) (r : Run) → IsConsistent (cancel_stale now note r)
cancel_stale-IsConsistent now note r = record {
  completed = refl;
  started = ground arith;
  beating = ground arith;
}

pub sweep-Continues :
    (now stale_after limit : ℕ) (locked : Run → Bool) (note : Run → Text) (s : Tables)
    → Continues s (reap_stale_execution_runs now stale_after limit locked note s)
unfolding reap_stale_execution_runs
sweep-Continues now stale_after limit locked note s =
    write-Continues (among (stale_runs now stale_after limit locked s.runs)) (cancel_stale now note)
      s _ refl refl (λ r. refl) (λ r. refl)
      (λ j r here found. record {
        same_task = refl;
        same_agent = refl;
        same_attempt = refl;
        counted = omega arith;
        still_started = λ h. h;
      })
      (λ j r here found h. cancel_stale-IsConsistent now note r)
