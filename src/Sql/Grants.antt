-- ===== src/Sql/Grants.antt =====
-- pkg/controller/sql.go: which privileges have the form of a grant.
use Prim.Native.Char.{Char, code}
use text.Mathlib.TextLemmas.{cons-append, nil-append}
use otc_rds_operator.Prelude.{
  ℕ, String, ◌<>◌, ◌≡◌, refl, Bool, false, ◌&&◌, matches_all, arith, ap, ◌∙◌, List, ◌∷◌,
}
use otc_rds_operator.Cloud.{Env}
use otc_rds_operator.Sql.{in_grant, valid_grant, grant_all}

and_head : (a b : Bool) → a ≡ false → (a && b) ≡ false
and_head a b h = ground arith

and_false : (a b : Bool) → b ≡ false → (a && b) ≡ false
and_false a b h = ground arith

module _ (p : ℕ → Bool) (d : Char) (outside : p (code d) ≡ false) (b : String) where
  -- A text with a character outside the class does not match.
  matches_all-outside : (a : String) → matches_all p (a <> String.◌∷◌ d b) ≡ false
  unfolding matches_all
  matches_all-outside String.[] =
      ap (matches_all p) (nil-append (String.◌∷◌ d b))
      ∙ and_head (p (code d)) (matches_all p b) outside
  matches_all-outside (String.◌∷◌ c s) =
      ap (matches_all p) (cons-append c s (String.◌∷◌ d b))
      ∙ and_false (p (code c)) (matches_all p (s <> String.◌∷◌ d b)) (matches_all-outside s)

one_in_front : (b : String) → "@" <> b ≡ String.◌∷◌ "@" b
one_in_front b = cons-append "@" "" b ∙ ap (String.◌∷◌ "@") (nil-append b)

valid_grant-at : (a b : String) → valid_grant (a <> ("@" <> b)) ≡ false
unfolding valid_grant
valid_grant-at a b =
    ap (λ x. valid_grant (a <> x)) (one_in_front b) ∙ matches_all-outside in_grant "@" refl b a

skips :
    (E : Env) (pr : String) (privileges : List String)
    → valid_grant pr ≡ false
    → grant_all E (pr ∷ privileges) ≡ grant_all E privileges
unfolding grant_all
skips E pr privileges invalid = rw invalid refl

-- A privilege with an `@` in it, which the name of an account has in MySQL, does not have the form
-- of a grant: CreateSqlUser goes on with the other privileges of the user as if it were not listed.
pub grant_all-skips_at :
    (E : Env) (a b : String) (privileges : List String)
    → grant_all E ((a <> ("@" <> b)) ∷ privileges) ≡ grant_all E privileges
grant_all-skips_at E a b privileges = skips E (a <> ("@" <> b)) privileges (valid_grant-at a b)
