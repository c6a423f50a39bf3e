-- ===== src/Flavor/Choice.antt =====
-- pkg/controller/resource.go: what the loops of RdsFlavorLookup collect.
use otc_rds_operator.Prelude.{
  String, ◌≡◌, refl, ◌⊎◌, inl, inr, Bool, true, false, not, ◌&&◌, ◌||◌, List, [], ◌∷◌, ◌==◌, any,
  All, All-append, All-append_left, All-append_right, All-if, All-if_append, has_suffix,
  if◌then◌else◌, arith,
}
use mathlib.Core.List.{Mem, mem-cons_self, mem-cons_of_mem}
use otc_rds_operator.Cloud.{Flavor}
use otc_rds_operator.Flavor.{Candidate, candidate, appended, over_second, over_first, candidates}

-- Single instances are replaced by single ones, clusters by clusters; read replicas are neither.
abbrev pub same_class : String → String → Bool
same_class flavorref code =
    if has_suffix flavorref ".ha"
    then has_suffix code ".ha"
    else not (has_suffix code ".rr") && not (has_suffix code ".ha")

abbrev pub is_normal : String → String × String → Bool
is_normal az z = z.0 == az && z.1 == "normal"

abbrev pub has_zone : String → List (String × String) → Bool
has_zone az = any (is_normal az)

-- An instance in one zone needs no second one.
abbrev pub is_second : String → String × String → Bool
is_second az z = az == "" || is_normal az z

abbrev pub has_second : String → List (String × String) → Bool
has_second az = any (is_second az)

-- The flavor is of the class of the current one, and available in the zones of the instance.
abbrev pub suits : String → String → String → Flavor → Bool
suits flavorref az1 az2 f =
    has_zone az1 f.az_status && has_second az2 f.az_status && same_class flavorref f.spec_code

pub or-cases : (a b : Bool) → (a || b) ≡ true → (a ≡ true) ⊎ (b ≡ true)
or-cases true b e = inl refl
or-cases false b e = inr e

and-intro : (a b c : Bool) → a ≡ true → b ≡ true → c ≡ true → (a && b && c) ≡ true
and-intro a b c x y z = ground arith

and-parts : (a b c : Bool) → (a && b && c) ≡ true → (a ≡ true) × (b ≡ true) × (c ≡ true)
and-parts a b c e = ground arith

module _ (P : Candidate → Type 0) (flavorref az1 az2 : String) where
  appended-All :
      (larger : Bool) (f : Flavor)
      → (same_class flavorref f.spec_code ≡ true → larger ≡ true → P (candidate f))
      → All P (appended flavorref larger f)
  unfolding appended
  appended-All larger f h = ground arith

  appended-All_inv :
      (larger : Bool) (f : Flavor)
      → All P (appended flavorref larger f)
      → same_class flavorref f.spec_code ≡ true
      → larger ≡ true
      → P (candidate f)
  unfolding appended
  appended-All_inv larger f h same more = ground arith

  over_second-All :
      (body : List Candidate) (zones : List (String × String))
      → (has_second az2 zones ≡ true → All P body)
      → All P (over_second az2 body zones)
  unfolding over_second
  over_second-All body [] h = tt
  over_second-All body ((l, az) ∷ zones) h =
      All-append P _ _ (All-if P _ body (λ e. h (ground arith)))
        (over_second-All body zones (λ e. h (ground arith)))

  over_first-All :
      (body : List Candidate) (all zones : List (String × String))
      → (has_zone az1 zones ≡ true → has_second az2 all ≡ true → All P body)
      → All P (over_first az1 az2 body all zones)
  unfolding over_first
  over_first-All body all [] h = tt
  over_first-All body all ((n, az) ∷ zones) h =
      All-append P _ _ (All-if P _ _ (λ e. over_second-All body all (h (ground arith))))
        (over_first-All body all zones (λ e. h (ground arith)))

  over_second-All_inv :
      (body : List Candidate) (zones : List (String × String))
      → All P (over_second az2 body zones)
      → has_second az2 zones ≡ true
      → All P body
  unfolding over_second
  over_second-All_inv body [] h e = ground arith
  over_second-All_inv body ((l, az) ∷ zones) h e =
      let (now, later) =
        All-if_append P (is_second az2 (l, az)) body (over_second az2 body zones) h in
      elim (or-cases (is_second az2 (l, az)) (has_second az2 zones) e) [
        | inl here ↦ now here
        | inr there ↦ over_second-All_inv body zones later there
      ]

  over_first-All_inv :
      (body : List Candidate) (all zones : List (String × String))
      → All P (over_first az1 az2 body all zones)
      → has_zone az1 zones ≡ true
      → has_second az2 all ≡ true
      → All P body
  unfolding over_first
  over_first-All_inv body all [] h e second = ground arith
  over_first-All_inv body all ((n, az) ∷ zones) h e second =
      let (now, later) =
        All-if_append P (is_normal az1 (n, az)) (over_second az2 body all)
          (over_first az1 az2 body all zones) h in
      elim (or-cases (is_normal az1 (n, az)) (has_zone az1 zones) e) [
        | inl here ↦ over_second-All_inv body all (now here) second
        | inr there ↦ over_first-All_inv body all zones later there second
      ]

  module _ (larger : Flavor → Bool) where
    -- Whatever holds of all suitable larger flavors holds of all that is collected.
    pub candidates-All :
        (flavors : List Flavor)
        → ((f : Flavor)
            → Mem f flavors
            → suits flavorref az1 az2 f ≡ true
            → larger f ≡ true
            → P (candidate f))
        → All P (candidates flavorref az1 az2 larger flavors)
    unfolding candidates
    candidates-All [] h = tt
    candidates-All (f ∷ flavors) h =
        All-append P _ _
          (over_first-All _ f.az_status f.az_status (λ first second.
            appended-All (larger f) f
              (λ same more. h f mem-cons_self (and-intro _ _ _ first second same) more)))
          (candidates-All flavors (λ g m. h g (mem-cons_of_mem f m)))

    abbrev collected : Flavor → List Candidate
    collected f = over_first az1 az2 (appended flavorref (larger f) f) f.az_status f.az_status

    -- The converse: each suitable larger flavor is collected.
    pub candidates-All_inv :
        (flavors : List Flavor)
        → All P (candidates flavorref az1 az2 larger flavors)
        → All (λ f. suits flavorref az1 az2 f ≡ true → larger f ≡ true → P (candidate f)) flavors
    unfolding candidates
    candidates-All_inv [] h = tt
    candidates-All_inv (f ∷ flavors) h = (
      λ suit more.
          let (first, second, same) = and-parts _ _ _ suit in
          appended-All_inv (larger f) f
            (over_first-All_inv (appended flavorref (larger f) f) f.az_status f.az_status
              (All-append_left P (collected f) (candidates flavorref az1 az2 larger flavors) h)
              first second)
            same more,
      candidates-All_inv flavors
          (All-append_right P (collected f) (candidates flavorref az1 az2 larger flavors) h),
    )
