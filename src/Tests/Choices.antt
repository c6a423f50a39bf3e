-- ===== src/Tests/Choices.antt =====
-- The choice of flavors and the form of grants, at concrete inputs.
use otc_rds_operator.Prelude.{
  ℕ, String, ◌≡◌, refl, ◌<>◌, none, some, List, [], ◌∷◌, split, has_suffix, atoi_value, str_gt,
}
use otc_rds_operator.Prelude.Int.{pos, ltb_ℤ}
use otc_rds_operator.Rds.{RdsSpec}
use otc_rds_operator.Cloud.{Flavor}
use otc_rds_operator.Flavor.{current, choose, zone1, zone2}
use otc_rds_operator.Flavor.Next.{IsNext, choose-mem_IsNext, choose-cpu_IsNext}
use otc_rds_operator.Flavor.Stuck.{choose-cpu_stuck}
use otc_rds_operator.Sql.{grant_all}
use otc_rds_operator.Sql.Grants.{grant_all-skips_at}
use otc_rds_operator.Tests.World.{full_world, spec}
use otc_rds_operator.Tests.Uniq.{sort, sort-IsUniq}

abbrev flavor : String → ℕ → String → Flavor
flavor vcpus ram code = record {
  vcpus = vcpus;
  ram = pos ram;
  spec_code = code;
  az_status = ("eu-de-01", "normal") ∷ ("eu-de-02", "sellout") ∷ [];
}

abbrev offered : List Flavor
offered =
    flavor "1" 4 "rds.mysql.s1.medium"
    ∷ flavor "4" 16 "rds.mysql.s1.xlarge"
    ∷ flavor "2" 8 "rds.mysql.s1.large"
    ∷ flavor "2" 8 "rds.mysql.s1.large.ha"
    ∷ []

choose-mem_large : choose sort spec "mem" offered ≡ some "rds.mysql.s1.large"
unfolding choose sort split has_suffix
choose-mem_large = refl

choose-mem_IsNext_example :
    IsNext spec.flavorref
      (zone1 spec.availabilityzone)
      (zone2 spec.availabilityzone)
      (λ f. ltb_ℤ (current spec.flavorref offered ("0", pos 0)).1 f.ram)
      (λ c. c.ram)
      offered
      (choose sort spec "mem" offered)
choose-mem_IsNext_example = choose-mem_IsNext sort sort-IsUniq spec offered

choose-cpu_IsNext_example :
    IsNext spec.flavorref
      (zone1 spec.availabilityzone)
      (zone2 spec.availabilityzone)
      (λ f. str_gt f.vcpus (current spec.flavorref offered ("0", pos 0)).0)
      (λ c. c.vcpus)
      offered
      (choose sort spec "cpu" offered)
choose-cpu_IsNext_example = choose-cpu_IsNext sort sort-IsUniq spec offered

-- An instance with 8 CPUs, in a cloud that has flavors with 16 and 32.
abbrev large : List Flavor
large = flavor "8" 32 "c8" ∷ flavor "16" 64 "c16" ∷ flavor "32" 128 "c32" ∷ []

abbrev spec8 : RdsSpec
spec8 = record spec { flavorref = "c8" }

has_8 : (current spec8.flavorref large ("0", pos 0)).0 ≡ "8"
unfolding current
has_8 = refl

choose-cpu_stuck_example : choose sort spec8 "cpu" large ≡ none
choose-cpu_stuck_example =
    choose-cpu_stuck sort sort-IsUniq spec8 large has_8 (refl, (refl, (refl, tt)))

-- An instance with 16 CPUs gets one with 2 of them.
abbrev small : List Flavor
small = flavor "16" 64 "c16" ∷ flavor "32" 128 "c32" ∷ flavor "2" 8 "c2" ∷ []

choose-cpu_shrinks : choose sort (record spec { flavorref = "c16" }) "cpu" small ≡ some "c2"
unfolding choose sort split has_suffix atoi_value
choose-cpu_shrinks = refl

grant_all-skips_at_example :
    grant_all full_world (("GRANT ALL ON project1.* TO 'app1'" <> ("@" <> "'10.9.3.%'")) ∷ [])
    ≡ grant_all full_world []
grant_all-skips_at_example =
    grant_all-skips_at full_world "GRANT ALL ON project1.* TO 'app1'" "'10.9.3.%'" []
