-- ===== src/Rds/Changed.antt =====
-- pkg/rds/v1alpha1/types.go: reflect.DeepEqual on specifications, as HasChanged uses it.
use otc_rds_operator.Prelude.{
  String, ◌≡◌, refl, true, Option, none, some, List, [], ◌∷◌, arith, eq_refl,
}
use otc_rds_operator.Prelude.Int.{ℤ, pos, negsuc}
use otc_rds_operator.Rds.{
  Slice, UsersRef, RdsSpec, int_eq, texts_eq, slice_eq, users_ref_eq, spec_eq,
}

int_eq_refl : (a : ℤ) → int_eq a a ≡ true
unfolding int_eq
int_eq_refl (pos a) = ground arith
int_eq_refl (negsuc a) = ground arith

texts_eq_refl : (xs : List String) → texts_eq xs xs ≡ true
unfolding texts_eq
texts_eq_refl [] = refl
texts_eq_refl (x ∷ xs) = ground (arith, eq_refl x, texts_eq_refl xs)

slice_eq_refl : (xs : Slice String) → slice_eq xs xs ≡ true
unfolding slice_eq
slice_eq_refl none = refl
slice_eq_refl (some xs) = texts_eq_refl xs

users_ref_eq_refl : (u : Option UsersRef) → users_ref_eq u u ≡ true
unfolding users_ref_eq
users_ref_eq_refl none = refl
users_ref_eq_refl (some u) = ground arith

pub spec_eq_refl : (s : RdsSpec) → spec_eq s s ≡ true
unfolding spec_eq
spec_eq_refl s = simp (eq_refl, int_eq_refl, slice_eq_refl, users_ref_eq_refl)
