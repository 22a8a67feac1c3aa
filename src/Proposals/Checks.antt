-- ===== src/Proposals/Checks.antt =====
-- The checks of a proposal only read.
use a2a_comms.Common.{ℕ, ◌≡◌, refl, sym, ◌∙◌, Bool, true, false, Option, none, some, List, arith}
use a2a_comms.Contract.{ErrorCode}
use a2a_comms.Contract.Store.{
  Action, pure, gets, guard, require, ◌>>=◌, Store, Reply, refuse, reply,
}
use a2a_comms.Proposals.{check_request, AgentRow, ProposeContractRequest, Clock}
use a2a_comms.Proposals.Create.{check_limits}

-- An action that changes nothing.
pub record IsReader {A : Type 0} (m : Action A) : Type 0 where
  pub at : (s : Store) → (m s).1 ≡ s

require-IsReader : {A : Type 0} (o : Option A) (st : ℕ) (c : ErrorCode) → IsReader (require o st c)
unfolding require
require-IsReader none st c = record { at = λ s. refl }
require-IsReader (some a) st c = record { at = λ s. refl }

guard-IsReader : (b : Bool) (st : ℕ) (c : ErrorCode) → IsReader (guard b st c)
unfolding guard
guard-IsReader true st c = record { at = λ s. refl }
guard-IsReader false st c = record { at = λ s. refl }

gets-IsReader : {A : Type 0} (f : Store → A) → IsReader (gets f)
unfolding gets
gets-IsReader f = record { at = λ s. refl }

pure-IsReader : {A : Type 0} (a : A) → IsReader (pure a)
unfolding pure
pure-IsReader a = record { at = λ s. refl }

read_on :
    {A B : Type 0} (f : A → Action B) (s t : Store) (r : Reply A)
    → t ≡ s
    → ((a : A) → IsReader (f a))
    → (elim r as (λ r. Reply B × Store) [ reply a ↦ f a t | refuse st c ↦ (refuse st c, t) ]).1 ≡ s
read_on f s t (refuse st c) h k = h
read_on f s t (reply a) h k = (k a).at t ∙ h

bind-IsReader :
    {A B : Type 0} (m : Action A) (f : A → Action B)
    → IsReader m
    → ((a : A) → IsReader (f a))
    → IsReader (m >>= f)
unfolding ◌>>=◌
bind-IsReader m f h k = record { at = λ s. read_on f s (m s).1 (m s).0 (h.at s) k }

ruleset readers = (require-IsReader, guard-IsReader, gets-IsReader, pure-IsReader, bind-IsReader)

pub check_request-IsReader :
    (k : Clock) (agents : List AgentRow) (actor : AgentRow) (q : ProposeContractRequest)
    → IsReader (check_request k agents actor q)
unfolding check_request
check_request-IsReader k agents actor q = search readers depth 40

pub check_limits-IsReader :
    (actor : AgentRow) (inv : List AgentRow) → IsReader (check_limits actor inv)
unfolding check_limits
check_limits-IsReader actor inv = search readers depth 20

reply_split :
    {A B : Type 0} (f : A → Action B) (b : B) (s t : Store) (r : Reply A)
    → t ≡ s
    → (elim r as (λ r. Reply B × Store) [ reply a ↦ f a t | refuse st c ↦ (refuse st c, t) ]).0
      ≡ reply b
    → (a : A) × (r ≡ reply a) × ((f a s).0 ≡ reply b)
reply_split f b s t (refuse st c) e h = cc
reply_split f b s t (reply a) e h = (a, refl, rw (sym e) h)

-- What went through was let through by every step.
pub went_through :
    {A B : Type 0} (m : Action A) (f : A → Action B) (b : B) (s : Store)
    → IsReader m
    → ((m >>= f) s).0 ≡ reply b
    → (a : A) × ((m s) ≡ (reply a, s)) × ((f a s).0 ≡ reply b)
unfolding ◌>>=◌
went_through m f b s reads h =
    let (a, replied, rest) = reply_split f b s (m s).1 (m s).0 (reads.at s) h in
    (a, ground (arith, replied, reads.at s), rest)
