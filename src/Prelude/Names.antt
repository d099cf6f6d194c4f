-- ===== src/Prelude/Names.antt =====
-- Lists of names as multisets: how often a name occurs.
use Prim.Native.Nat.{ℕ, ◌+◌, ◌≤◌, ◌<◌}
use Prim.Native.String.{String}
use mathlib.Core.Path.{◌≡◌, refl}
use mathlib.Core.Bool.{Bool, true, false, not, ◌&&◌}
use mathlib.Core.List.{List, [], ◌∷◌, ◌++◌}
use native.Mathlib.Omega.{arith}
use text.Mathlib.Text.{◌==◌}
use text.Mathlib.TextEquality.{eq_iff}
use hermes_gpt.Prelude.Tests.{if◌then◌else◌, leb}
use hermes_gpt.Prelude.Lists.{length}

abbrev pub one_if : Bool → ℕ
one_if true = 1
one_if false = 0

abbrev pub count : String → List String → ℕ
count x [] = 0
count x (y ∷ ys) = one_if (y == x) + count x ys

-- `x in names`
abbrev pub contains : List String → String → Bool
contains names x = leb 1 (count x names)

-- No name occurs twice.
abbrev pub Distinct : List String → Type 0
Distinct names = (x : String) → count x names ≤ 1

pub count-append : (x : String) (xs ys : List String) → count x (xs ++ ys) ≡ count x xs + count x ys
count-append x [] ys = omega arith
count-append x (y ∷ xs) ys = omega (arith, count-append x xs ys)

abbrev pub filter : (String → Bool) → List String → List String
filter p [] = []
filter p (x ∷ xs) = if p x then x ∷ filter p xs else filter p xs

pub count-filter :
    (x : String) (p : String → Bool) (xs : List String)
    → count x (filter p xs) ≡ (if p x then count x xs else 0)
count-filter x p [] = ground arith
count-filter x p (y ∷ xs) = ground (arith, eq_iff y x, count-filter x p xs)

erase : String → List String → List String
erase x [] = []
erase x (y ∷ ys) = if y == x then ys else y ∷ erase x ys

count-erase :
    (x y : String) (ys : List String)
    → 0 < count x ys
    → count y (erase x ys) + one_if (x == y) ≡ count y ys
unfolding erase
count-erase x y [] h = omega arith
count-erase x y (z ∷ ys) h = ground (arith, eq_iff z x, eq_iff z y, eq_iff x y, count-erase x y ys)

length-erase :
    (x : String) (ys : List String) → 0 < count x ys → length (erase x ys) + 1 ≡ length ys
unfolding erase
length-erase x [] h = omega arith
length-erase x (z ∷ ys) h = ground (arith, eq_iff z x, length-erase x ys)

-- A list that holds no name more often than another is no longer, and where it is as long it holds
-- every name as often.
abbrev pub Fits : List String → List String → Type 0
Fits xs ys = (x : String) → count x xs ≤ count x ys

Fits-tail : (x : String) (xs ys : List String) → Fits (x ∷ xs) ys → Fits xs (erase x ys)
Fits-tail x xs ys fits y =
    ground (arith, fits x, fits y, count-erase x y ys, eq_iff x x, eq_iff x y)

pub length-le_of_Fits : (xs ys : List String) → Fits xs ys → length xs ≤ length ys
length-le_of_Fits [] ys fits = omega arith
length-le_of_Fits (x ∷ xs) ys fits = ground (
  arith,
  fits x,
  eq_iff x x,
  length-erase x ys,
  length-le_of_Fits xs (erase x ys) (Fits-tail x xs ys fits),
)

pub count-eq_of_Fits :
    (xs ys : List String) (x : String)
    → Fits xs ys
    → length ys ≤ length xs
    → count x xs ≡ count x ys
count-eq_of_Fits [] [] x fits long = refl
count-eq_of_Fits [] (y ∷ ys) x fits long = absurd (omega arith)
count-eq_of_Fits (z ∷ xs) ys x fits long = ground (
  arith,
  fits z,
  eq_iff z z,
  eq_iff z x,
  length-erase z ys,
  count-erase z x ys,
  count-eq_of_Fits xs (erase z ys) x (Fits-tail z xs ys fits),
)

-- The test for duplicates, as `len(set(names)) == len(names)` decides it.
abbrev pub distinct : List String → Bool
distinct [] = true
distinct (x ∷ xs) = not (contains xs x) && distinct xs

pub distinct-Distinct : (xs : List String) → distinct xs ≡ true → Distinct xs
distinct-Distinct [] h x = omega arith
distinct-Distinct (y ∷ xs) h x = ground (arith, eq_iff y x, distinct-Distinct xs (ground arith) x)
