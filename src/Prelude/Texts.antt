-- ===== src/Prelude/Texts.antt =====
-- The order of Python's texts, by code points.
use Prim.Native.Nat.{ℕ, compare, Ordering}
use Prim.Native.String.{String}
use Prim.Native.Char.{code}
use mathlib.Core.Path.{◌≡◌, refl}
use mathlib.Core.Bool.{Bool, true, false}
use native.Mathlib.Omega.{arith}
use text.Mathlib.TextEquality.{codes_equal}
use hermes_gpt.Prelude.Tests.{if◌then◌else◌, ltb}

-- `s <= t`, where `rest` compares what follows the first characters
abbrev code_first : ℕ → ℕ → Bool → Bool
code_first c d rest = if ltb c d then true else if ltb d c then false else rest

unfoldable pub text_le : String → String → Bool
text_le String.[] t = true
text_le (String.◌∷◌ c s) String.[] = false
text_le (String.◌∷◌ c s) (String.◌∷◌ d t) = code_first (code c) (code d) (text_le s t)

pub text_le_total : (s t : String) → text_le s t ≡ false → text_le t s ≡ true
unfolding text_le
text_le_total String.[] t h = absurd cc
text_le_total (String.◌∷◌ c s) String.[] h = refl
text_le_total (String.◌∷◌ c s) (String.◌∷◌ d t) h = ground (arith, text_le_total s t)

pub text_le_trans : (r s t : String) → text_le r s ≡ true → text_le s t ≡ true → text_le r t ≡ true
unfolding text_le
text_le_trans String.[] s t h k = refl
text_le_trans (String.◌∷◌ b r) String.[] t h k = absurd cc
text_le_trans (String.◌∷◌ b r) (String.◌∷◌ c s) String.[] h k = absurd cc
text_le_trans (String.◌∷◌ b r) (String.◌∷◌ c s) (String.◌∷◌ d t) h k =
    ground (arith, text_le_trans r s t)

same_code :
    (c d : ℕ) (p q : Bool)
    → code_first c d p ≡ true
    → code_first d c q ≡ true
    → compare c d ≡ Ordering.eq
same_code c d p q h k = ground arith

same_rest :
    (c d : ℕ) (p q : Bool)
    → code_first c d p ≡ true
    → code_first d c q ≡ true
    → (p ≡ true) × (q ≡ true)
same_rest c d p q h k = (ground arith, ground arith)

pub text_le_antisym : (s t : String) → text_le s t ≡ true → text_le t s ≡ true → s ≡ t
unfolding text_le
text_le_antisym String.[] String.[] h k = refl
text_le_antisym String.[] (String.◌∷◌ d t) h k = absurd cc
text_le_antisym (String.◌∷◌ c s) String.[] h k = absurd cc
text_le_antisym (String.◌∷◌ c s) (String.◌∷◌ d t) h k =
    let same = codes_equal c d (same_code (code c) (code d) (text_le s t) (text_le t s) h k) in
    let rests = same_rest (code c) (code d) (text_le s t) (text_le t s) h k in
    cc (same, text_le_antisym s t rests.0 rests.1)
