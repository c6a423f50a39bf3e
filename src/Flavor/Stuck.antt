-- ===== src/Flavor/Stuck.antt =====
-- pkg/controller/resource.go: the comparison of the numbers of CPUs in RdsFlavorLookup.
use otc_rds_operator.Prelude.{
  String, ◌≡◌, refl, inl, inr, Bool, true, false, ◌==◌, Option, none, some, List, [], ◌∷◌, All, any,
  str_gt, arith, ap, sym, ◌∙◌, eq_iff,
}
use mathlib.Core.List.{Mem, not-mem-nil, eq-or-mem_of_mem-cons}
use mathlib.Core.Bool.{Bool-set, true≢false}
use mathlib.Core.Logic.Or
use otc_rds_operator.Prelude.Int.{pos}
use otc_rds_operator.Rds.{RdsSpec}
use otc_rds_operator.Cloud.{Flavor}
use otc_rds_operator.Flavor.{Uniq, current, choose, zone1, zone2}
use otc_rds_operator.Flavor.Choice.{or-cases}
use otc_rds_operator.Flavor.Next.{IsUniq, IsNext, choose-cpu_IsNext}

-- The numbers of CPUs that the cloud offers.
abbrev pub sizes : List String
sizes = "1" ∷ "2" ∷ "4" ∷ "8" ∷ "16" ∷ "32" ∷ "64" ∷ "128" ∷ []

abbrev pub has_known_size : Flavor → Bool
has_known_size f = any (λ s. f.vcpus == s) sizes

Mem-All :
    (p : Flavor → Bool) (f : Flavor) (flavors : List Flavor)
    → All (λ g. p g ≡ true) flavors
    → Mem f flavors
    → p f ≡ true
Mem-All p f [] h m = absurd (not-mem-nil m)
Mem-All p f (g ∷ flavors) (now, later) m =
    Or.elim (Bool-set (p f) true) (eq-or-mem_of_mem-cons m) (λ e. ap p e ∙ now)
      (λ rest. Mem-All p f flavors later rest)

-- None of the texts comes after "8".
below_8 :
    (x : String) (l : List String)
    → All (λ y. str_gt y "8" ≡ false) l
    → any (λ y. x == y) l ≡ true
    → str_gt x "8" ≡ false
below_8 x [] h e = ground arith
below_8 x (y ∷ l) (now, later) e = elim (or-cases (x == y) _ e) [
  | inl same ↦ ap (λ z. str_gt z "8") ((eq_iff x y).0 same) ∙ now
  | inr rest ↦ below_8 x l later rest
]

sizes-below_8 : All (λ y. str_gt y "8" ≡ false) sizes
sizes-below_8 = (refl, (refl, (refl, (refl, (refl, (refl, (refl, (refl, tt))))))))

module _ (uniq : Uniq) (U : IsUniq uniq) (spec : RdsSpec) (flavors : List Flavor) where
  -- With a uniq.Slice that behaves as documented, an instance with 8 CPUs gets no flavor with more
  -- of them, although the cloud may offer 16, 32, 64 and 128: if all flavors in the list have 1, 2,
  -- 4, 8, 16, 32, 64 or 128 CPUs and the current one has 8, the look-up for more CPUs finds no
  -- flavor.
  pub choose-cpu_stuck :
      (current spec.flavorref flavors ("0", pos 0)).0 ≡ "8"
      → All (λ f. has_known_size f ≡ true) flavors
      → choose uniq spec "cpu" flavors ≡ none
  choose-cpu_stuck eight known = go _ (choose-cpu_IsNext uniq U spec flavors)
    where
      go :
          (o : Option String)
          → IsNext spec.flavorref
              (zone1 spec.availabilityzone)
              (zone2 spec.availabilityzone)
              (λ f. str_gt f.vcpus (current spec.flavorref flavors ("0", pos 0)).0)
              (λ c. c.vcpus)
              flavors
              o
          → o ≡ none
      go none h = refl
      go (some x) (f, m, e, suit, more, least) =
          let small =
            below_8 f.vcpus sizes sizes-below_8 (Mem-All has_known_size f flavors known m) in
          absurd (true≢false (sym more ∙ (ap (str_gt f.vcpus) eight ∙ small)))
