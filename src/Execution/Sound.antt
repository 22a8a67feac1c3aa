-- ===== src/Execution/Sound.antt =====
-- What holds of the runs and checkpoints of a project at any time, and what a write does to it.
use a2a_comms.Common.{
  ℕ, zero, suc, ◌≤◌, String, ◌≡◌, refl, sym, ap, ◌∙◌, inl, inr, Bool, true, false, not, ◌||◌,
  Option, none, some, List, [], ◌∷◌, map, arith, ◌==◌, eq_iff, if◌then◌else◌, is_some, Bool-cases,
  filter, update_where,
}
use a2a_comms.Execution.{
  cancelled, is_finished, is_queued, is_alive, TaskExecutionRunStatus, Run, Checkpoint, Tables,
}
use a2a_comms.Execution.Runs.{run_by_id}

abbrev pub is_cancelled : TaskExecutionRunStatus → Bool
is_cancelled cancelled = true
is_cancelled _ = false

-- The times of a run fit its status: it is completed exactly if it has finished, it was started
-- unless it is queued or was cancelled, and it has a heartbeat if it is at work.
pub record IsConsistent (r : Run) : Type 0 where
  pub completed : is_some r.completed_at ≡ is_finished r.status
  pub started : (is_some r.started_at || (is_queued r.status || is_cancelled r.status)) ≡ true
  pub beating : (not (is_alive r.status) || is_some r.heartbeat_at) ≡ true

-- n, n - 1, …, 1
abbrev pub countdown : ℕ → List ℕ
countdown zero = []
countdown (suc n) = suc n ∷ countdown n

-- The sequences of a run's checkpoints, the newest first.
abbrev pub sequences : String → List Checkpoint → List ℕ
sequences id cs = map (λ c. c.sequence) (filter (λ c. c.run_id == id) cs)

-- A run is consistent, and its checkpoints are numbered from 1 to its count without a gap.
abbrev pub RowSound : Option Run → List ℕ → Type 0
RowSound none numbers = numbers ≡ []
RowSound (some r) numbers = IsConsistent r × (numbers ≡ countdown r.checkpoint_count)

pub record IsSound (s : Tables) : Type 0 where
  pub at : (id : String) → RowSound (run_by_id id s.runs) (sequences id s.checkpoints)

-- What a run keeps.
pub record Kept (r r' : Run) : Type 0 where
  pub same_task : r'.task_id ≡ r.task_id
  pub same_agent : r'.agent_id ≡ r.agent_id
  pub same_attempt : r'.attempt ≡ r.attempt
  pub counted : r.checkpoint_count ≤ r'.checkpoint_count
  pub still_started : is_some r.started_at ≡ true → is_some r'.started_at ≡ true

pub record Continues (s t : Tables) : Type 0 where
  pub row :
      (id : String) (r : Run)
      → run_by_id id s.runs ≡ some r
      → (r' : Run) × (run_by_id id t.runs ≡ some r') × Kept r r'
  pub sound : IsSound s → IsSound t

pub Kept-refl : (r : Run) → Kept r r
Kept-refl r = record {
  same_task = refl;
  same_agent = refl;
  same_attempt = refl;
  counted = omega arith;
  still_started = λ h. h;
}

pub Kept-trans : {p q r : Run} → Kept p q → Kept q r → Kept p r
Kept-trans h k = record {
  same_task = k.same_task ∙ h.same_task;
  same_agent = k.same_agent ∙ h.same_agent;
  same_attempt = k.same_attempt ∙ h.same_attempt;
  counted = omega (arith, h.counted, k.counted);
  still_started = λ p. k.still_started (h.still_started p);
}

pub Continues-refl : (s : Tables) → Continues s s
Continues-refl s = record { row = λ id r h. (r, h, Kept-refl r); sound = λ h. h }

pub Continues-trans : {r s t : Tables} → Continues r s → Continues s t → Continues r t
Continues-trans h k = record {
  row = λ id r found.
      let (r', found', a) = h.row id r found in
      let (r'', found'', b) = k.row id r' found' in (r'', found'', Kept-trans a b);
  sound = λ p. k.sound (h.sound p);
}

-- A write elsewhere.
pub Continues-same :
    (s t : Tables) → t.runs ≡ s.runs → t.checkpoints ≡ s.checkpoints → Continues s t
Continues-same s t e c = record {
  row = λ id r h. (r, rw e h, Kept-refl r);
  sound = λ h. record { at = λ id. rw (e, c) (h.at id) };
}

abbrev pub after {ℓ} : {A : Type ℓ} → (A → A) → Option A → Option A
after f none = none
after f (some a) = some (f a)

-- A write to the runs that a test of the id selects.
pub find-write :
    (p : String → Bool) (j : String) (f : Run → Run) (rs : List Run)
    → ((r : Run) → (f r).id ≡ r.id)
    → run_by_id j (update_where (λ r. p r.id) f rs)
      ≡ (if p j then after f (run_by_id j rs) else run_by_id j rs)
find-write p j f [] keep = ground arith
find-write p j f (r ∷ rs) keep = elim (Bool-cases (r.id == j)) [
  | inl same ↦ ground (arith, keep r, (eq_iff r.id j).0 same)
  | inr other ↦ ground (arith, keep r, other, find-write p j f rs keep)
]

RowSound-after :
    (here : Bool) (f : Run → Run) (o : Option Run) (numbers : List ℕ)
    → ((r : Run) → (f r).checkpoint_count ≡ r.checkpoint_count)
    → ((r : Run) → here ≡ true → o ≡ some r → IsConsistent r → IsConsistent (f r))
    → RowSound o numbers
    → RowSound (if here then after f o else o) numbers
RowSound-after false f o numbers count consistent h = h
RowSound-after true f none numbers count consistent h = h
RowSound-after true f (some r) numbers count consistent h =
    (consistent r refl refl h.0, h.1 ∙ sym (ap countdown (count r)))

-- A write to the runs that a test of the id selects keeps all runs sound, if it keeps one so.
pub write-Continues :
    (p : String → Bool) (f : Run → Run) (s t : Tables)
    → t.runs ≡ update_where (λ r. p r.id) f s.runs
    → t.checkpoints ≡ s.checkpoints
    → ((r : Run) → (f r).id ≡ r.id)
    → ((r : Run) → (f r).checkpoint_count ≡ r.checkpoint_count)
    → ((j : String) (r : Run) → p j ≡ true → run_by_id j s.runs ≡ some r → Kept r (f r))
    → ((j : String) (r : Run)
        → p j ≡ true
        → run_by_id j s.runs ≡ some r
        → IsConsistent r
        → IsConsistent (f r))
    → Continues s t
write-Continues p f s t e c keep count kept consistent = record {
  row = λ j r found. elim (Bool-cases (p j)) [
    | inl here ↦ (f r, rw (e, find-write p j f s.runs keep, here, found) refl, kept j r here found)
    | inr there ↦ (r, rw (e, find-write p j f s.runs keep, there) found, Kept-refl r)
  ];
  sound = λ h. record {
    at = λ j.
        rw (e, c, find-write p j f s.runs keep)
          (RowSound-after (p j) f (run_by_id j s.runs) (sequences j s.checkpoints) count
            (consistent j) (h.at j));
  };
}
