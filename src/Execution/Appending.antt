-- ===== src/Execution/Appending.antt =====
-- The append of a checkpoint: it numbers on, and is never in its own way.
use a2a_comms.Common.{
  ℕ, zero, suc, ◌+◌, ◌<◌, String, ◌≡◌, refl, sym, ap, ◌∙◌, ◌⊎◌, inl, inr, false, ◌||◌, Option, none,
  some, List, [], ◌∷◌, arith, ◌==◌, eq_iff, eqb, if◌then◌else◌, Bool-cases, Option-cases, any,
  update_where, Text,
}
use a2a_comms.Common.Actions.{◌>>=◌, reply}
use a2a_comms.Execution.{is_finished, Run, Checkpoint, Tables}
use a2a_comms.Execution.Runs.{
  run_by_id, checkpoint_row, key_taken, sequence_taken, count_checkpoint,
  append_task_checkpoint_atomic, NewCheckpoint,
}
use a2a_comms.Execution.Sound.{
  countdown, sequences, RowSound, Kept-refl, Continues-refl, after, find-write, IsConsistent,
  IsSound, Kept, Continues,
}

-- The sequence after the last is free.
countdown_bound : (n k : ℕ) → n < k → any (λ m. eqb m k) (countdown n) ≡ false
countdown_bound zero k h = refl
countdown_bound (suc n) k h = ground (arith, countdown_bound n k)

any-sequences :
    (id : String) (k : ℕ) (cs : List Checkpoint)
    → sequence_taken id k cs ≡ any (λ m. eqb m k) (sequences id cs)
any-sequences id k [] = refl
any-sequences id k (c ∷ cs) = ground (arith, any-sequences id k cs)

sound_row :
    (r : Run) (o : Option Run) (numbers : List ℕ)
    → RowSound o numbers
    → o ≡ some r
    → IsConsistent r × (numbers ≡ countdown r.checkpoint_count)
sound_row r none numbers h e = cc
sound_row r (some q) numbers h e = let same : q ≡ r = cc in rw (sym same) h

pub next_is_free :
    (s : Tables) (id : String) (r : Run)
    → IsSound s
    → run_by_id id s.runs ≡ some r
    → sequence_taken id (r.checkpoint_count + 1) s.checkpoints ≡ false
next_is_free s id r h found =
    let numbers = (sound_row r _ (sequences id s.checkpoints) (h.at id) found).1 in
    any-sequences id (r.checkpoint_count + 1) s.checkpoints
    ∙ (ap (any (λ m. eqb m (r.checkpoint_count + 1))) numbers
        ∙ countdown_bound r.checkpoint_count (r.checkpoint_count + 1) (omega arith))

-- A checkpoint that was inserted, and counted on its run.
abbrev pub appended : ℕ → String → NewCheckpoint → ℕ → Tables → Tables
appended now id n count s =
    let c = checkpoint_row now id (count + 1) n in
    record s {
      checkpoints = c ∷ s.checkpoints;
      runs = update_where (λ r. r.id == n.run_id) (count_checkpoint c n.summary now) s.runs;
    }

count_checkpoint-IsConsistent :
    (c : Checkpoint) (summary : Option (Option Text)) (now : ℕ) (r : Run)
    → IsConsistent r
    → IsConsistent (count_checkpoint c summary now r)
count_checkpoint-IsConsistent c summary now r h = record {
  completed = h.completed;
  started = h.started;
  beating = ground arith;
}

count_checkpoint-Kept :
    (now : ℕ) (id : String) (n : NewCheckpoint) (r : Run)
    → Kept r (count_checkpoint (checkpoint_row now id (r.checkpoint_count + 1) n) n.summary now r)
count_checkpoint-Kept now id n r = record {
  same_task = refl;
  same_agent = refl;
  same_attempt = refl;
  counted = omega arith;
  still_started = λ h. h;
}

countdown_next : (n : ℕ) → countdown (n + 1) ≡ (n + 1) ∷ countdown n
countdown_next n = let e : n + 1 ≡ suc n = omega arith in rw e refl

module _ (now : ℕ) (id : String) (n : NewCheckpoint) (r : Run) (s : Tables)
    (found : run_by_id n.run_id s.runs ≡ some r) where
  abbrev counted_run : Run → Run
  counted_run = count_checkpoint (checkpoint_row now id (r.checkpoint_count + 1) n) n.summary now

  find-appended :
      (j : String)
      → run_by_id j (appended now id n r.checkpoint_count s).runs
        ≡ (if j == n.run_id then after counted_run (run_by_id j s.runs) else run_by_id j s.runs)
  find-appended j = find-write (λ x. x == n.run_id) j counted_run s.runs (λ x. refl)

  row_after :
      (j : String) (q : Run)
      → run_by_id j s.runs ≡ some q
      → (q' : Run) × (run_by_id j (appended now id n r.checkpoint_count s).runs ≡ some q')
        × Kept q q'
  row_after j q at_j = elim (Bool-cases (j == n.run_id)) [
    | inl here ↦
        let at_r : run_by_id j s.runs ≡ some r = rw ((eq_iff j n.run_id).0 here) found in
        let same : q ≡ r = cc in
        (
          counted_run r,
          rw (find-appended j, here, at_r) refl,
          rw same (count_checkpoint-Kept now id n r),
        )
    | inr there ↦ (q, rw (find-appended j, there) at_j, Kept-refl q)
  ]

  sound_after :
      (j : String)
      → RowSound (run_by_id j s.runs) (sequences j s.checkpoints)
      → RowSound
          (run_by_id j (appended now id n r.checkpoint_count s).runs)
          (sequences j (appended now id n r.checkpoint_count s).checkpoints)
  sound_after j h = elim (Bool-cases (j == n.run_id)) [
    | inl here ↦
        let at_r : run_by_id j s.runs ≡ some r = rw ((eq_iff j n.run_id).0 here) found in
        let back = (eq_iff n.run_id j).1 (sym ((eq_iff j n.run_id).0 here)) in
        let (c, numbers) = sound_row r _ (sequences j s.checkpoints) h at_r in
        rw (find-appended j, here, at_r, back)
          (
            count_checkpoint-IsConsistent (checkpoint_row now id (r.checkpoint_count + 1) n)
                n.summary now r c,
            ap (λ l. (r.checkpoint_count + 1) ∷ l) numbers
                ∙ sym (countdown_next r.checkpoint_count),
          )
    | inr there ↦
        let back : (n.run_id == j) ≡ false =
          ground (arith, eq_iff n.run_id j, eq_iff j n.run_id, there) in
        rw (find-appended j, there, back) h
  ]

  pub append-Continues : Continues s (appended now id n r.checkpoint_count s)
  append-Continues = record {
    row = row_after;
    sound = λ h. record { at = λ j. sound_after j (h.at j) };
  }

append_splits :
    (now : ℕ) (id : String) (n : NewCheckpoint) (s : Tables)
    → ((append_task_checkpoint_atomic now id n s).1 ≡ s)
      ⊎ ((r : Run) × (run_by_id n.run_id s.runs ≡ some r)
          × ((append_task_checkpoint_atomic now id n s).1 ≡ appended now id n r.checkpoint_count s))
unfolding append_task_checkpoint_atomic ◌>>=◌
append_splits now id n s = elim (Option-cases (run_by_id n.run_id s.runs)) [
  | inl gone ↦ inl (rw gone refl)
  | inr (r, found) ↦ elim (Bool-cases (is_finished r.status)) [
    | inl over ↦ inl (rw (found, over) refl)
    | inr open_still ↦
        elim (Bool-cases (
          key_taken n.run_id n.checkpoint_key s.checkpoints
          || sequence_taken n.run_id (r.checkpoint_count + 1) s.checkpoints)) [
            | inl taken ↦ inl (ground (arith, found, open_still, taken))
            | inr free ↦ inr (r, found, ground (arith, found, open_still, free))
          ]
  ]
]

pub append_atomic-Continues :
    (now : ℕ) (id : String) (n : NewCheckpoint) (s : Tables)
    → Continues s (append_task_checkpoint_atomic now id n s).1
append_atomic-Continues now id n s = elim (append_splits now id n s) [
  | inl same ↦ rw same (Continues-refl s)
  | inr (r, found, e) ↦ rw e (append-Continues now id n r s found)
]

-- An append that no rule stands against.
pub append_lands :
    (now : ℕ) (id : String) (n : NewCheckpoint) (s : Tables) (r : Run)
    → run_by_id n.run_id s.runs ≡ some r
    → is_finished r.status ≡ false
    → key_taken n.run_id n.checkpoint_key s.checkpoints ≡ false
    → sequence_taken n.run_id (r.checkpoint_count + 1) s.checkpoints ≡ false
    → append_task_checkpoint_atomic now id n s ≡ (
      reply (checkpoint_row now id (r.checkpoint_count + 1) n),
      appended now id n r.checkpoint_count s,
    )
unfolding append_task_checkpoint_atomic ◌>>=◌
append_lands now id n s r row unfinished fresh free = ground (arith, row, unfinished, fresh, free)
