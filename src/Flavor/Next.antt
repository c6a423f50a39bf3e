-- ===== src/Flavor/Next.antt =====
-- pkg/controller/resource.go: which of the collected flavors RdsFlavorLookup chooses.
use otc_rds_operator.Prelude.{
  String, ◌≡◌, refl, Bool, true, false, Option, none, some, List, [], ◌∷◌, All, str_gt, arith, ap,
  sym, subst, All-map,
}
use mathlib.Core.List.{Mem}
use otc_rds_operator.Prelude.Int.{ℤ, pos, ltb_ℤ, ◌≤ℤ◌}
use otc_rds_operator.Rds.{RdsSpec}
use otc_rds_operator.Cloud.{Flavor}
use otc_rds_operator.Flavor.{
  Candidate, Uniq, candidate, current, candidates, zone1, zone2, first_spec, choose,
}
use otc_rds_operator.Flavor.Choice.{suits, candidates-All, candidates-All_inv}

abbrev pub by_key : (Candidate → ℤ) → Candidate → Candidate → Bool
by_key key a b = ltb_ℤ (key a) (key b)

-- What the documentation of `uniq.Slice` says, for an order by a key: it adds nothing, it drops
-- only equals of what it keeps, and the first of what it keeps is the least.
pub record IsUniq (uniq : Uniq) : Type 1 where
  pub uniq-All :
      (P : Candidate → Type 0) (key : Candidate → ℤ) (l : List Candidate)
      → All P l
      → All P (uniq (by_key key) l)
  pub uniq-least :
      (key : Candidate → ℤ) (l : List Candidate) (c : Candidate) (cs : List Candidate)
      → uniq (by_key key) l ≡ c ∷ cs
      → All (λ d. ltb_ℤ (key d) (key c) ≡ false) l
  pub uniq-empty : (key : Candidate → ℤ) (l : List Candidate) → uniq (by_key key) l ≡ [] → l ≡ []

-- The least flavor, by `key`, of those that suit and are larger; `none` if there is none.
module _ (flavorref az1 az2 : String) (larger : Flavor → Bool) (key : Candidate → ℤ)
    (flavors : List Flavor) where
  abbrev pub IsNext : Option String → Type 0
  IsNext none = All (λ f. suits flavorref az1 az2 f ≡ true → larger f ≡ false) flavors
  IsNext (some x) =
      (f : Flavor) × Mem f flavors
      × (f.spec_code ≡ x)
      × (suits flavorref az1 az2 f ≡ true)
      × (larger f ≡ true)
      × All
          (λ g.
            suits flavorref az1 az2 g ≡ true
            → larger g ≡ true
            → key (candidate f) ≤ℤ key (candidate g))
          flavors

not_true : (b : Bool) → (b ≡ true → ⊥) → b ≡ false
not_true true h = absurd (h refl)
not_true false h = refl

at_most : (a b : ℤ) → ltb_ℤ b a ≡ false → a ≤ℤ b
at_most a b h = ground arith

module _ (flavorref az1 az2 : String) (larger : Flavor → Bool) (key : Candidate → ℤ)
    (flavors : List Flavor) (uniq : Uniq) (U : IsUniq uniq) where
  abbrev collected : List Candidate
  collected = candidates flavorref az1 az2 larger flavors

  IsSource : Candidate → Type 0
  IsSource c =
      (f : Flavor) × Mem f flavors
      × (candidate f ≡ c)
      × (suits flavorref az1 az2 f ≡ true)
      × (larger f ≡ true)

  collected-IsSource : All IsSource collected
  unfolding IsSource
  collected-IsSource =
      candidates-All IsSource flavorref az1 az2 larger flavors
        (λ f m suit more. (f, m, refl, suit, more))

  none-larger :
      (fs : List Flavor)
      → All (λ f. suits flavorref az1 az2 f ≡ true → larger f ≡ true → ⊥) fs
      → All (λ f. suits flavorref az1 az2 f ≡ true → larger f ≡ false) fs
  none-larger [] h = tt
  none-larger (f ∷ fs) (now, later) = (λ suit. not_true (larger f) (now suit), none-larger fs later)

  IsLeast : Candidate → Type 0
  IsLeast c =
      All (λ g. suits flavorref az1 az2 g ≡ true → larger g ≡ true → key c ≤ℤ key (candidate g))
        flavors

  head-IsLeast : (c : Candidate) → All (λ d. ltb_ℤ (key d) (key c) ≡ false) collected → IsLeast c
  unfolding IsLeast
  head-IsLeast c h =
      candidates-All_inv (λ d. key c ≤ℤ key d) flavorref az1 az2 larger flavors
        (All-map (λ d e. at_most (key c) (key d) e) collected h)

  chosen :
      (c : Candidate)
      → IsSource c
      → IsLeast c
      → IsNext flavorref az1 az2 larger key flavors (some c.spec)
  unfolding IsSource IsLeast
  chosen c (f, m, e, suit, more) least =
      (f, m, ap (λ x. x.spec) e, suit, more, subst IsLeast (sym e) least)

  -- What stands first after the sort.
  pub first-IsNext :
      (l : List Candidate)
      → uniq (by_key key) collected ≡ l
      → IsNext flavorref az1 az2 larger key flavors (first_spec l)
  first-IsNext [] e = none-larger flavors (
      candidates-All_inv (λ c. ⊥) flavorref az1 az2 larger flavors
        (subst (All (λ c. ⊥)) (sym (U.uniq-empty key collected e)) tt))
  first-IsNext (c ∷ cs) e =
      let source = subst (All IsSource) e (U.uniq-All IsSource key collected collected-IsSource) in
      chosen c source.0 (head-IsLeast c (U.uniq-least key collected c cs e))

module _ (uniq : Uniq) (U : IsUniq uniq) (spec : RdsSpec) (flavors : List Flavor) where
  -- With a uniq.Slice that behaves as documented, the flavor chosen for more memory is, of the
  -- flavors in the list that suit the instance and have more memory than its current one, one with
  -- the least memory; none is chosen only if there is no such flavor.
  pub choose-mem_IsNext :
      IsNext spec.flavorref
        (zone1 spec.availabilityzone)
        (zone2 spec.availabilityzone)
        (λ f. ltb_ℤ (current spec.flavorref flavors ("0", pos 0)).1 f.ram)
        (λ c. c.ram)
        flavors
        (choose uniq spec "mem" flavors)
  unfolding choose
  choose-mem_IsNext = first-IsNext _ _ _ _ (λ c. c.ram) flavors uniq U _ refl

  -- With a uniq.Slice that behaves as documented: for more CPUs the flavors are compared with the
  -- current one as texts, and among themselves as numbers. Of the flavors that suit and whose
  -- number of CPUs is after the current one's in lexicographic order, one with the least number is
  -- chosen; none only if there is no such flavor.
  pub choose-cpu_IsNext :
      IsNext spec.flavorref
        (zone1 spec.availabilityzone)
        (zone2 spec.availabilityzone)
        (λ f. str_gt f.vcpus (current spec.flavorref flavors ("0", pos 0)).0)
        (λ c. c.vcpus)
        flavors
        (choose uniq spec "cpu" flavors)
  unfolding choose
  choose-cpu_IsNext = first-IsNext _ _ _ _ (λ c. c.vcpus) flavors uniq U _ refl
