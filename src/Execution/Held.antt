-- ===== src/Execution/Held.antt =====
-- A run that is started as finished holds its task, whatever sweeps come.
use a2a_comms.Common.{
  ℕ, zero, suc, ◌+◌, String, ◌≡◌, refl, ap, ◌∙◌, Bool, true, false, not, ◌&&◌, Option, none, some,
  List, [], ◌∷◌, arith, ◌==◌, eq_iff, get_or, filter, find?, update_where, Text,
}
use a2a_comms.Common.Actions.{◌>>=◌, refuse, reply}
use a2a_comms.Common.Json.{no_fields}
use a2a_comms.Execution.{
  get_project_access, is_membership, is_finished, read_run_status, derive_task_execution_snapshot,
  TaskExecutionRunStatus, Run, TaskExecutionSnapshot, Task, run_created, Tables, invalid_state,
}
use a2a_comms.Execution.Runs.{
  Others, run_by_id, sync_task_execution_snapshot, run_row, insert_run, create_task_execution_run,
}
use a2a_comms.Execution.Sweep.{
  is_stale, insert_by_age, oldest_first, take, among, stale_runs, held_by, release,
  reap_stale_execution_runs,
}
use a2a_comms.Execution.Routes.{
  task_in, log, status_refused, first_status, last_attempt, post_run, CreateTaskExecutionRunRequest,
  Agent,
}

abbrev pub alone : Others
alone n s = s

pub find_synced :
    (p k : String) (x : TaskExecutionSnapshot) (ts : List Task) (t : Task)
    → find? (λ u. u.id == k && u.project_id == p) ts ≡ some t
    → find?
        (λ u. u.id == k && u.project_id == p)
        (update_where (λ u. u.id == k) (λ u. record u { execution = x }) ts)
      ≡ some (record t { execution = x })
find_synced p k x [] t h = cc
find_synced p k x (u ∷ ts) t h = ground (arith, find_synced p k x ts t)

first_named :
    (o : Option Text) (st : TaskExecutionRunStatus)
    → first_status o ≡ some st
    → status_refused o ≡ false
unfolding read_run_status
first_named none st h = refl
first_named (some []) st h = refl
first_named (some (c ∷ s)) st h = ground (arith, h)

-- The row of a run that a member starts with this status.
abbrev pub started_run :
    ℕ
    → String
    → Agent
    → (p k : String) → CreateTaskExecutionRunRequest
    → TaskExecutionRunStatus
    → Tables
    → Run
started_run now run_id auth p k b st s = run_row now run_id (record {
  task_id = k;
  project_id = p;
  agent_id = auth.id;
  status = st;
  attempt = last_attempt k s.runs + 1;
  summary = b.summary;
  metadata = get_or b.metadata no_fields;
})

module _ (now : ℕ) (run_id : String) (auth : Agent) (p k : String)
    (b : CreateTaskExecutionRunRequest) (s : Tables) (t : Task) (st : TaskExecutionRunStatus)
    (access : is_membership (get_project_access p auth.id s) ≡ true)
    (found : task_in p k s ≡ some t) (unheld : t.execution.active_run_id ≡ none)
    (named : first_status b.status ≡ some st) (new : run_by_id run_id s.runs ≡ none) where
  pub post_run_lem : post_run alone now run_id auth p k (some b) s ≡ (
    reply (started_run now run_id auth p k b st s),
    log auth k (run_created run_id (last_attempt k s.runs + 1) st) (
        sync_task_execution_snapshot k
          (derive_task_execution_snapshot
            (some run_id)
            (started_run now run_id auth p k b st s)
            none)
          (insert_run (started_run now run_id auth p k b st s) s)),
  )
  unfolding post_run create_task_execution_run ◌>>=◌
  post_run_lem = ground (arith, access, found, unheld, first_named b.status st named, named, new)

-- Whatever the request, a task that a run holds is refused another.
held_refused :
    (now : ℕ) (run_id : String) (auth : Agent) (p k : String)
    (b : Option CreateTaskExecutionRunRequest) (s : Tables) (t : Task) (holder : String)
    → is_membership (get_project_access p auth.id s) ≡ true
    → task_in p k s ≡ some t
    → t.execution.active_run_id ≡ some holder
    → (post_run alone now run_id auth p k b s).0 ≡ refuse 409 invalid_state
unfolding post_run ◌>>=◌
held_refused now run_id auth p k b s t holder access found held =
    ground (arith, access, found, held)

take-among :
    (n : ℕ) (xs : List Run) (id : String) → among xs id ≡ false → among (take n xs) id ≡ false
take-among zero xs id h = refl
take-among (suc n) [] id h = refl
take-among (suc n) (x ∷ xs) id h = ground (arith, take-among n xs id)

insert-among :
    (r : Run) (xs : List Run) (id : String) → among (insert_by_age r xs) id ≡ among (r ∷ xs) id
unfolding insert_by_age
insert-among r [] id = refl
insert-among r (x ∷ xs) id = ground (arith, insert-among r xs id)

oldest_first-among : (xs : List Run) (id : String) → among (oldest_first xs) id ≡ among xs id
unfolding oldest_first
oldest_first-among [] id = refl
oldest_first-among (x ∷ xs) id =
    ground (arith, insert-among x (oldest_first xs) id, oldest_first-among xs id)

filter-among :
    (p : Run → Bool) (rs : List Run) (id : String)
    → run_by_id id rs ≡ none
    → among (filter p rs) id ≡ false
filter-among p [] id h = refl
filter-among p (r ∷ rs) id h = ground (arith, filter-among p rs id)

-- A finished run is in no sweep.
unswept :
    (now stale_after limit : ℕ) (locked : Run → Bool) (r : Run) (rs : List Run)
    → is_finished r.status ≡ true
    → run_by_id r.id rs ≡ none
    → among (stale_runs now stale_after limit locked (r ∷ rs)) r.id ≡ false
unfolding stale_runs
unswept now stale_after limit locked r rs over new =
    let p = λ (q : Run). is_stale now stale_after q && not (locked q) in
    take-among limit (oldest_first (filter p (r ∷ rs))) r.id
      (oldest_first-among (filter p (r ∷ rs)) r.id ∙ rw over (filter-among p rs r.id new))

not_held :
    (rs : List Run) (t : Task) (id : String)
    → among rs id ≡ false
    → t.execution.active_run_id ≡ some id
    → held_by rs t ≡ false
not_held [] t id h e = refl
not_held (r ∷ rs) t id h e = ground (arith, e, h, eq_iff id r.id, eq_iff r.id id, not_held rs t id)

find_unreleased :
    (now : ℕ) (p k : String) (rs : List Run) (ts : List Task) (t : Task)
    → find? (λ u. u.id == k && u.project_id == p) ts ≡ some t
    → held_by rs t ≡ false
    → find? (λ u. u.id == k && u.project_id == p) (update_where (held_by rs) (release now) ts)
      ≡ some t
find_unreleased now p k rs [] t h e = cc
find_unreleased now p k rs (u ∷ ts) t h e = ground (arith, find_unreleased now p k rs ts t)

-- Nobody else at work, and a sweep before the last request: a member starts a run with a status that
-- is finished already, on a task that no run holds. It is accepted, and from then on the task is
-- held by that run: a sweep does not let go of it, and whoever of the members asks for a run next is
-- refused for the state of the task, whatever the request.
pub finished_run_blocks :
    (now later : ℕ) (run_id another : String) (auth next : Agent) (p k : String)
    (b : CreateTaskExecutionRunRequest) (c : Option CreateTaskExecutionRunRequest) (s : Tables)
    (t : Task) (st : TaskExecutionRunStatus) (stale_after limit : ℕ) (locked : Run → Bool)
    (note : Run → Text)
    → is_membership (get_project_access p auth.id s) ≡ true
    → is_membership (get_project_access p next.id s) ≡ true
    → task_in p k s ≡ some t
    → t.execution.active_run_id ≡ none
    → first_status b.status ≡ some st
    → is_finished st ≡ true
    → run_by_id run_id s.runs ≡ none
    → ((post_run alone now run_id auth p k (some b) s).0
        ≡ reply (started_run now run_id auth p k b st s))
      × ((post_run alone later another next p k c (
            reap_stale_execution_runs later stale_after limit locked note
              (post_run alone now run_id auth p k (some b) s).1)).0
          ≡ refuse 409 invalid_state)
unfolding reap_stale_execution_runs sync_task_execution_snapshot derive_task_execution_snapshot
    get_project_access
finished_run_blocks now later run_id another auth next p k b c s t st stale_after limit locked note
      access access' found unheld named over new =
    let run = post_run_lem now run_id auth p k b s t st access found unheld named new in
    let r = started_run now run_id auth p k b st s in
    let x = derive_task_execution_snapshot (some run_id) r none in
    let picked = stale_runs later stale_after limit locked (r ∷ s.runs) in
    let synced = find_synced p k x s.tasks t found in
    let free =
      not_held picked (record t { execution = x }) run_id
        (unswept later stale_after limit locked r s.runs over new) refl in
    (
      ap (λ y. y.0) run,
      rw run (
          held_refused later another next p k c _ (record t { execution = x }) run_id access'
            (find_unreleased later p k picked _ (record t { execution = x }) synced free) refl),
    )
