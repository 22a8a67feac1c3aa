-- ===== src/Common/Keeps.antt =====
-- What an action does to the tables, whatever it answers: it relates the tables before to those
-- after by a preorder `R`. One rule for each statement of a `do` block.
use Prim.Native.Nat.{ℕ}
use mathlib.Core.Bool.{Bool, true, false}
use mathlib.Core.Option.{Option, none, some}
use a2a_comms.Common.Actions.{
  Reply, refuse, reply, Action, gets, modify, guard, require, give, ◌>>=◌,
}

pub record Preorder {S : Type 0} (R : S → S → Type 0) : Type 0 where
  pub same : (s : S) → R s s
  pub next : (r s t : S) → R r s → R s t → R r t

pub record Keeps {S E : Type 0} (R : S → S → Type 0) {A : Type 0} (m : Action S E A) : Type 0 where
  pub at : (s : S) → R s (m s).1

module _ {S E : Type 0} {R : S → S → Type 0} ⦃p : Preorder R⦄ where
  pub gets-Keeps : {A : Type 0} (f : S → A) → Keeps R (gets {S = S} {E = E} f)
  unfolding gets
  gets-Keeps f = record { at = λ s. p.same s }

  pub give-Keeps : {A : Type 0} (r : Reply E A) → Keeps R (give {S = S} {E = E} r)
  unfolding give
  give-Keeps r = record { at = λ s. p.same s }

  pub guard-Keeps : (b : Bool) (st : ℕ) (c : E) → Keeps R (guard {S = S} {E = E} b st c)
  unfolding guard
  guard-Keeps true st c = record { at = λ s. p.same s }
  guard-Keeps false st c = record { at = λ s. p.same s }

  pub require-Keeps :
      {A : Type 0} (o : Option A) (st : ℕ) (c : E) → Keeps R (require {S = S} {E = E} o st c)
  unfolding require
  require-Keeps none st c = record { at = λ s. p.same s }
  require-Keeps (some a) st c = record { at = λ s. p.same s }

  pub modify-Keeps : (f : S → S) → ((s : S) → R s (f s)) → Keeps R (modify {S = S} {E = E} f)
  unfolding modify
  modify-Keeps f h = record { at = h }

  after_reply :
      {A B : Type 0} (f : A → Action S E B) (s t : S) (r : Reply E A)
      → R s t
      → ((a : A) → Keeps R (f a))
      → R s (elim r as (λ r. Reply E B × S) [ reply a ↦ f a t | refuse st c ↦ (refuse st c, t) ]).1
  after_reply f s t (refuse st c) h k = h
  after_reply f s t (reply a) h k = p.next s t _ h ((k a).at t)

  pub bind-Keeps :
      {A B : Type 0} (m : Action S E A) (f : A → Action S E B)
      → Keeps R m
      → ((a : A) → Keeps R (f a))
      → Keeps R (m >>= f)
  unfolding ◌>>=◌
  bind-Keeps m f h k = record { at = λ s. after_reply f s (m s).1 (m s).0 (h.at s) k }

pub ruleset statements = (bind-Keeps, gets-Keeps, give-Keeps, guard-Keeps, require-Keeps)
