-- ===== src/Claims/Spec.antt =====
-- The contract of WriteClaims: a lock per conflict domain, with the number of its last tenure.
use hermes_gpt.Prelude.{
  ℕ, ◌+◌, String, Bool, true, false, Option, none, some, ◌==◌, ◌&&◌, eqb, if◌then◌else◌,
}
use hermes_gpt.Prelude.Result.{Result, ok, err, fabric_error}

-- The last tenure of a domain: who took it, its number, and whether it still holds.
pub record Tenure : Type 0 where
  pub holder : String
  pub number : ℕ
  pub state : String

abbrev pub Locks : Type 0
Locks = String → Option Tenure

abbrev pub set : Locks → String → Tenure → Locks
set locks d t d' = if d == d' then some t else locks d'

abbrev pub take_at : Locks → String → String → Option Tenure → Result ℕ × Locks
take_at locks d a none = (ok 1, set locks d (record { holder = a; number = 1; state = "ACTIVE" }))
take_at locks d a (some t) =
    if t.state == "ACTIVE"
    then (if t.holder == a then (ok t.number, locks) else (err fabric_error, locks))
    else (
      ok (t.number + 1),
      set locks d (record { holder = a; number = t.number + 1; state = "ACTIVE" }),
    )

-- A free lock goes to who asks, with the next number; a taken one only to its holder.
abbrev pub take : Locks → String → String → Result ℕ × Locks
take locks d a = take_at locks d a (locks d)

abbrev pub mine : String → ℕ → Tenure → Bool
mine a n t = t.holder == a && (eqb t.number n && t.state == "ACTIVE")

abbrev pub free_at : Locks → String → String → ℕ → Option Tenure → Bool × Locks
free_at locks d a n none = (false, locks)
free_at locks d a n (some t) =
    if mine a n t then (true, set locks d (record t { state = "RELEASED" })) else (false, locks)

-- The tenure of this number is given back by its holder, once.
abbrev pub free : Locks → String → String → ℕ → Bool × Locks
free locks d a n = free_at locks d a n (locks d)
