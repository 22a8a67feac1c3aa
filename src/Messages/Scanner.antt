-- ===== src/Messages/Scanner.antt =====
-- The scanner for escaped line breaks ends: src/lib/contract-description.ts.
use a2a_comms.Common.{
  ℕ, zero, suc, ◌≤◌, ◌<◌, ◌≡◌, refl, sym, ◌∙◌, ◌⊎◌, inl, inr, Bool, true, not, ◌||◌, Option, none,
  some, [], ◌∷◌, arith, eqb, Bool-cases, length, every, Text, codes, contains,
}
use a2a_comms.Messages.Structure.{
  backtick, escaped_break, ticks, drop, after_delimiter, closing, scan, loop,
  has_escaped_break_outside_code, Scan, ends, goes_on,
}

ticks_shorter : (s : Text) → length (ticks s).1 ≤ length s
ticks_shorter [] = ground arith
ticks_shorter (c ∷ s) = ground (arith, ticks_shorter s)

drop_shorter : (n : ℕ) (s : Text) → length (drop n s) ≤ length s
drop_shorter zero s = ground arith
drop_shorter (suc n) [] = ground arith
drop_shorter (suc n) (c ∷ s) = ground (arith, drop_shorter n s)

after_shorter : (n : ℕ) (s t : Text) → after_delimiter n s ≡ some t → length t ≤ length s
after_shorter n [] t h = cc
after_shorter n (c ∷ s) t h = ground (arith, h, after_shorter n s t, drop_shorter n (c ∷ s))

-- A code span that is closed ends after it began.
closing_later :
    (o : Option Text) (bound : ℕ) (u : Text)
    → ((v : Text) → o ≡ some v → length v ≤ bound)
    → closing o ≡ goes_on u
    → length u ≤ bound
closing_later none bound u h e = cc
closing_later (some v) bound u h e = ground (arith, h v refl, e)

scan_tick :
    (c : ℕ) (s : Text)
    → eqb c backtick ≡ true
    → scan (c ∷ s) ≡ closing (after_delimiter (suc (ticks s).0) (ticks s).1)
unfolding scan
scan_tick c s tick = ground (arith, tick)

-- A turn of the loop that goes on, goes on from a later place.
goes_on_later : (s t : Text) → scan s ≡ goes_on t → suc (length t) ≤ length s
unfolding scan
goes_on_later [] t h = cc
goes_on_later (c ∷ s) t h = elim (Bool-cases (eqb c backtick)) [
  | inl tick ↦
      let n = suc (ticks s).0 in
      let near =
        closing_later (after_delimiter n (ticks s).1) (length (ticks s).1) t
          (after_shorter n (ticks s).1) (sym (scan_tick c s tick) ∙ h) in
      ground (arith, near, ticks_shorter s)
  | inr plain ↦ elim (Bool-cases (escaped_break (c ∷ s))) [
    | inl literal ↦ ground (arith, plain, literal)
    | inr ordinary ↦ ground (arith, plain, ordinary)
  ]
]

pub Scan-cases : (x : Scan) → ((b : Bool) × (x ≡ ends b)) ⊎ ((t : Text) × (x ≡ goes_on t))
Scan-cases (ends b) = inl (b, refl)
Scan-cases (goes_on t) = inr (t, refl)

loop-ends : (s : Text) (b : Bool) (k : ℕ) → scan s ≡ ends b → length s < k → loop k s ≡ some b
unfolding loop
loop-ends s b zero e h = ground arith
loop-ends s b (suc k) e h = rw (e, loop) refl

loop-goes_on :
    (s t : Text) (b : Bool) (k : ℕ)
    → scan s ≡ goes_on t
    → length s < k
    → ((j : ℕ) → length t < j → loop j t ≡ some b)
    → loop k s ≡ some b
unfolding loop
loop-goes_on s t b zero e h rest = ground arith
loop-goes_on s t b (suc k) e h rest =
    let later = goes_on_later s t e in rw (e, loop) (rest k (omega arith))

scan_ends :
    (bound : ℕ) (s : Text)
    → length s < bound
    → (b : Bool) × ((k : ℕ) → length s < k → loop k s ≡ some b)
scan_ends zero s h = ground arith
scan_ends (suc bound) s h = elim (Scan-cases (scan s)) [
  | inl (b, e) ↦ (b, λ k. loop-ends s b k e)
  | inr (t, e) ↦
      let later = goes_on_later s t e in
      let (b, rest) = scan_ends bound t (omega arith) in
      (b, λ k more. loop-goes_on s t b k e more rest)
]

-- The loop ends on any text: allowed a turn for each place of the text and one more, or any number
-- of turns beyond that, it has an answer, and it is the one that the check gives.
pub loop_answers :
    (s : Text) (k : ℕ) → length s < k → loop k s ≡ some (has_escaped_break_outside_code s)
unfolding has_escaped_break_outside_code
loop_answers s k enough =
    let (b, answer) = scan_ends (suc (length s)) s (omega arith) in
    rw (answer k enough, answer (suc (length s)) (omega arith)) refl

abbrev pub no_ticks : Text → Bool
no_ticks s = every (λ c. not (eqb c backtick)) s

-- Outside code there is nothing to skip.
plain_loop :
    (s : Text) (fuel : ℕ)
    → no_ticks s ≡ true
    → length s < fuel
    → loop fuel s ≡ some (contains (codes "\\n") s || contains (codes "\\r") s)
unfolding loop scan escaped_break
plain_loop s zero p h = ground arith
plain_loop [] (suc fuel) p h = refl
plain_loop (c ∷ s) (suc fuel) p h = ground (arith, plain_loop s fuel)

-- In a text without a backtick the check finds exactly what a search for a literal `\n` or `\r`
-- finds.
pub plain_text_searched :
    (s : Text)
    → no_ticks s ≡ true
    → has_escaped_break_outside_code s ≡ (contains (codes "\\n") s || contains (codes "\\r") s)
unfolding has_escaped_break_outside_code
plain_text_searched s p = rw (plain_loop s (suc (length s)) p (omega arith)) refl
