-- ===== src/Relay/Entries.antt =====
-- The entries of the state after one was written.
use hermes_gpt.Prelude.{
  String, true, false, [], ◌∷◌, ◌≡◌, refl, arith, ◌==◌, eq_iff, eq_refl, Bool-cases, inl, inr,
  if◌then◌else◌,
}
use hermes_gpt.Relay.{Entry, State, set_entry, target_entry}
use hermes_gpt.Prelude.Rows.{select}

key_trans : (a b c : String) → (a == b) ≡ true → (b == c) ≡ true → (a == c) ≡ true
key_trans a b c h h' = ground (arith, eq_iff a b, eq_iff b c, eq_iff a c)

key_apart : (a b c : String) → (a == b) ≡ true → (b == c) ≡ false → (a == c) ≡ false
key_apart a b c h h' = ground (arith, eq_iff a b, eq_iff b c, eq_iff a c)

key_other : (a b c : String) → (a == b) ≡ false → (a == c) ≡ true → (b == c) ≡ false
key_other a b c h h' = ground (arith, eq_iff a b, eq_iff b c, eq_iff a c)

-- The state after an entry was written.
pub target_entry-set_entry :
    (state : State) (key : String) (e : Entry) (other : String)
    → target_entry (set_entry state key e) other
      ≡ (if key == other then e else target_entry state other)
unfolding target_entry set_entry select
target_entry-set_entry [] key e other = elim (Bool-cases (key == other)) [
  | inl h ↦ rw (h) refl
  | inr h ↦ rw (h) refl
]
target_entry-set_entry (k ∷ ks) key e other = elim (Bool-cases (k.key == key)) [
  | inl same ↦ elim (Bool-cases (key == other)) [
    | inl h ↦ rw (same, h, key_trans k.key key other same h) refl
    | inr h ↦ rw (same, h, key_apart k.key key other same h) refl
  ]
  | inr diff ↦ elim (Bool-cases (k.key == other)) [
    | inl h ↦ rw (diff, h, key_other k.key key other diff h) refl
    | inr h ↦ rw (diff, h) (target_entry-set_entry ks key e other)
  ]
]

pub set_entry_here :
    (state : State) (key : String) (e : Entry) → target_entry (set_entry state key e) key ≡ e
set_entry_here state key e = rw (target_entry-set_entry state key e key, eq_refl key) refl

pub set_entry_elsewhere :
    (state : State) (key : String) (e : Entry) (other : String)
    → (key == other) ≡ false
    → target_entry (set_entry state key e) other ≡ target_entry state other
set_entry_elsewhere state key e other h = rw (target_entry-set_entry state key e other, h) refl
