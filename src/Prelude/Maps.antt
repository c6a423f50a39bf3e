-- ===== src/Prelude/Maps.antt =====
-- Go's maps with texts as keys, as lists of their entries.
use mathlib.Core.Path.{◌≡◌, refl, ap, ◌∙◌}
use mathlib.Core.Logic.{inl, inr}
use mathlib.Core.Bool.{false}
use mathlib.Core.Option.{Option, none, some}
use mathlib.Core.List.{List, [], ◌∷◌}
use Prim.Native.String.{String}
use text.Mathlib.Text.{◌==◌}
use text.Mathlib.TextEquality.{eq_iff}
use text.Mathlib.TextPositions.{eq_refl}
use otc_rds_operator.Prelude.Tests.{if◌then◌else◌, Bool-cases}

module _ {ℓ} {A : Type ℓ} where
  -- `a, ok := m[key]`
  abbrev pub find_key : String → List (String × A) → Option A
  find_key key [] = none
  find_key key ((k, a) ∷ m) = if k == key then some a else find_key key m

  -- `m[key] = a`
  abbrev pub set_key : String → A → List (String × A) → List (String × A)
  set_key key a [] = (key, a) ∷ []
  set_key key a ((k, b) ∷ m) =
      let rest = set_key key a m in if k == key then (key, a) ∷ m else (k, b) ∷ rest

  pub find_key-set_key :
      (key : String) (a : A) (m : List (String × A)) → find_key key (set_key key a m) ≡ some a
  find_key-set_key key a [] = rw (eq_refl key) refl
  find_key-set_key key a ((k, b) ∷ m) = elim (Bool-cases (k == key)) [
    | inl same ↦ rw same (rw (eq_refl key) refl)
    | inr other ↦ rw other (rw other (find_key-set_key key a m))
  ]

  pub find_key-set_other :
      (key k : String) (a : A) (m : List (String × A))
      → (k == key) ≡ false
      → find_key key (set_key k a m) ≡ find_key key m
  find_key-set_other key k a [] ne = rw ne refl
  find_key-set_other key k a ((j, b) ∷ m) ne = elim (Bool-cases (j == k)) [
    | inl same ↦ rw same (rw ne (rw (ap (λ z. z == key) ((eq_iff j k).0 same) ∙ ne) refl))
    | inr other ↦
        rw other (ap (λ r. if j == key then some b else r) (find_key-set_other key k a m ne))
  ]
