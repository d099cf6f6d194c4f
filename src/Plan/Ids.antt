-- ===== src/Plan/Ids.antt =====
-- operator_mission_plan.py: NODE_ID_RE, and MISSION_ID_RE of operator_mission_runtime.py.
use Prim.Native.Char.{code}
use hermes_gpt.Prelude.{ℕ, String, Bool, false, ◌&&◌, ◌||◌, List, [], ◌∷◌, leb, eqb, all, length}

-- The code points of a text.
abbrev pub characters : String → List ℕ
characters String.[] = []
characters (String.◌∷◌ first others) = code first ∷ characters others

abbrev pub within : ℕ → ℕ → ℕ → Bool
within lo hi c = leb lo c && leb c hi

abbrev pub lower : ℕ → Bool
lower = within b'a' b'z'

abbrev pub digit : ℕ → Bool
digit = within b'0' b'9'

abbrev pub alphanumeric : ℕ → Bool
alphanumeric c = lower c || (within b'A' b'Z' c || digit c)

abbrev pub dash : ℕ → Bool
dash c = eqb c b'_' || eqb c b'-'

-- `^[a-z][a-z0-9_-]{0,63}$` against the whole text
node_id_codes : List ℕ → Bool
node_id_codes [] = false
node_id_codes (c ∷ cs) =
    lower c && (leb (length cs) 63 && all (λ d. lower d || (digit d || dash d)) cs)

unfoldable pub is_node_id : String → Bool
unfolding node_id_codes
is_node_id s = node_id_codes (characters s)

-- what follows "msn-" in `^msn-[A-Za-z0-9][A-Za-z0-9_-]{0,63}$`
mission_id_tail : List ℕ → Bool
mission_id_tail [] = false
mission_id_tail (c ∷ cs) =
    alphanumeric c && (leb (length cs) 63 && all (λ d. alphanumeric d || dash d) cs)

mission_id_codes : List ℕ → Bool
mission_id_codes (a ∷ b ∷ c ∷ d ∷ cs) =
    eqb a b'm' && (eqb b b's' && (eqb c b'n' && (eqb d b'-' && mission_id_tail cs)))
mission_id_codes _ = false

unfoldable pub is_mission_id : String → Bool
unfolding mission_id_codes mission_id_tail
is_mission_id s = mission_id_codes (characters s)
