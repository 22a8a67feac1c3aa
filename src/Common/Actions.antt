-- ===== src/Common/Actions.antt =====
-- The monad of a handler: an action on tables that keeps what was written before a refusal. A
-- refusal carries its HTTP status and a code.
use Prim.Native.Nat.{ℕ}
use mathlib.Core.Bool.{Bool, true, false}
use mathlib.Core.Option.{Option, none, some}

pub data Reply {ℓ κ} (E : Type ℓ) (A : Type κ) : Type (ℓ ⊔ κ) where
  refuse : ℕ → E → Reply E A
  reply : A → Reply E A

abbrev pub Action : Type 0 → Type 0 → Type 0 → Type 0
Action S E A = S → Reply E A × S

module _ {S E : Type 0} where
  unfoldable pub gets : {A : Type 0} → (S → A) → Action S E A
  gets f s = (reply (f s), s)

  unfoldable pub modify : (S → S) → Action S E (Unit {0})
  modify f s = (reply tt, f s)

  unfoldable pub guard : Bool → ℕ → E → Action S E (Unit {0})
  guard true st c s = (reply tt, s)
  guard false st c s = (refuse st c, s)

  unfoldable pub require : {A : Type 0} → Option A → ℕ → E → Action S E A
  require none st c s = (refuse st c, s)
  require (some a) st c s = (reply a, s)

  -- A result that is computed already.
  unfoldable pub give : {A : Type 0} → Reply E A → Action S E A
  give r s = (r, s)

  infixl 5 ◌>>=◌ ◌>>◌
  -- Opening this opens the simple actions too.
  unfoldable pub ◌>>=◌ : {A B : Type 0} → Action S E A → (A → Action S E B) → Action S E B
  unfolding gets modify guard require give
  ◌>>=◌ m f s = let (r, s') = m s in elim r [ reply a ↦ f a s' | refuse st c ↦ (refuse st c, s') ]

  abbrev pub ◌>>◌ : {B : Type 0} → Action S E (Unit {0}) → Action S E B → Action S E B
  m >> k = m >>= λ _. k
