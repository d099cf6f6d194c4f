-- ===== src/Prelude/Result.antt =====
-- Python's exceptions as values: a call returns or raises one of the classes the handlers name.
use mathlib.Core.Bool.{Bool, true, false}
use mathlib.Core.Option.{Option}
use mathlib.Core.Path.{◌≡◌, refl}
use Prim.Native.Nat.{ℕ}

pub data Error : Type 0 where
  permission_error value_error type_error lookup_error os_error runtime_error fabric_error : Error
  -- PlanVersionConflict(expected, actual)
  version_conflict : ℕ → Option ℕ → Error

-- The value of a call that returns, or the exception of one that raises.
pub data Result {ℓ} (A : Type ℓ) : Type ℓ where
  err : Error → Result A
  ok : A → Result A

-- A statement that raises ends the block.
infixl 10 ◌>>=◌ ◌>>◌
abbrev pub ◌>>=◌ {ℓ κ} : {A : Type ℓ} {B : Type κ} → Result A → (A → Result B) → Result B
◌>>=◌ (err raised) next = err raised
◌>>=◌ (ok value) next = next value

abbrev pub ◌>>◌ {ℓ} : {B : Type ℓ} → Result (Unit {0}) → Result B → Result B
check >> next = check >>= (λ _. next)

-- `if not test: raise e`
abbrev pub require : Bool → Error → Result (Unit {0})
require test e = elim test [ false ↦ err e | true ↦ ok tt ]

-- A block that returns: its first statement did, and so did the rest.
pub bind_ok {ℓ κ} :
    {A : Type ℓ} {B : Type κ} (x : Result A) (next : A → Result B) {b : B}
    → (x >>= next) ≡ ok b
    → (a : A) × (x ≡ ok a) × (next a ≡ ok b)
bind_ok (ok a) next h = (a, refl, h)
bind_ok (err e) next h = absurd cc
