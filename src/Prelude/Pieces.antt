-- ===== src/Prelude/Pieces.antt =====
-- How `strings.Split` takes a text apart that has been put together with a separator.
use Prim.Native.Char.{Char, code}
use Prim.Native.Nat.{ℕ}
use Prim.Native.String.{String, ◌++◌ as ◌<>◌}
use mathlib.Core.Path.{◌≡◌, refl, ap, ◌∙◌}
use mathlib.Core.Bool.{Bool, true, false, not, ◌&&◌}
use mathlib.Core.List.{List, [], ◌∷◌}
use native.Mathlib.Omega.{arith}
use text.Mathlib.TextLemmas.{cons-append, nil-append}
use otc_rds_operator.Prelude.Tests.{nat_eq}
use otc_rds_operator.Prelude.Text.{split, matches_all}

-- The text has no such character.
abbrev pub is_free : ℕ → String → Bool
is_free sep = matches_all (λ c. not (nat_eq c sep))

nat_eq_refl : (n : ℕ) → nat_eq n n ≡ true
nat_eq_refl n = ground arith

first_free : (a b : Bool) → (not a && b) ≡ true → (a ≡ false) × (b ≡ true)
first_free a b h = ground arith

module _ (d : Char) where
  -- A character that is no separator goes to the first piece.
  split-cons :
      (c : Char) (a x : String) (xs : List String)
      → nat_eq (code c) (code d) ≡ false
      → split (code d) a ≡ x ∷ xs
      → split (code d) (String.◌∷◌ c a) ≡ (String.◌∷◌ c x) ∷ xs
  unfolding split
  split-cons c a x xs other pieces = rw (other, pieces) refl

  split-here : (b : String) → split (code d) (String.◌∷◌ d b) ≡ "" ∷ split (code d) b
  unfolding split
  split-here b = rw (nat_eq_refl (code d)) refl

  pub split-free : (a : String) → is_free (code d) a ≡ true → split (code d) a ≡ a ∷ []
  unfolding split matches_all
  split-free String.[] h = refl
  split-free (String.◌∷◌ c a) h =
      let (other, rest) = first_free (nat_eq (code c) (code d)) (is_free (code d) a) h in
      split-cons c a a [] other (split-free a rest)

  -- The first separator ends the first piece.
  split-append :
      (a b : String)
      → is_free (code d) a ≡ true
      → split (code d) (a <> String.◌∷◌ d b) ≡ a ∷ split (code d) b
  unfolding matches_all
  split-append String.[] b h = ap (split (code d)) (nil-append (String.◌∷◌ d b)) ∙ split-here b
  split-append (String.◌∷◌ c a) b h =
      let (other, rest) = first_free (nat_eq (code c) (code d)) (is_free (code d) a) h in
      ap (split (code d)) (cons-append c a (String.◌∷◌ d b))
      ∙ split-cons c (a <> String.◌∷◌ d b) a (split (code d) b) other (split-append a b rest)

-- A text with one separator in front of another text.
pub split_at :
    (d : Char) (a b sep : String)
    → sep ≡ String.◌∷◌ d ""
    → is_free (code d) a ≡ true
    → split (code d) (a <> (sep <> b)) ≡ a ∷ split (code d) b
split_at d a b sep e h =
    ap (λ x. split (code d) (a <> (x <> b))) e
    ∙ (ap (λ x. split (code d) (a <> x)) (cons-append d "" b ∙ ap (String.◌∷◌ d) (nil-append b))
        ∙ split-append d a b h)
