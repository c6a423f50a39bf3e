-- ===== src/Flavor.antt =====
-- pkg/controller/resource.go: RdsFlavorLookup, the next larger flavor for an instance in autopilot.
pub mod Choice
pub mod Next
pub mod Stuck
use otc_rds_operator.Prelude.{
  ℕ, String, Bool, true, false, not, ◌&&◌, ◌||◌, Option, none, some, List, [], ◌∷◌, ◌++◌, ◌==◌,
  ◌<>◌, get_or, split, has_suffix, str_gt, atoi_value, if◌then◌else◌,
}
use otc_rds_operator.Prelude.Int.{ℤ, pos, ltb_ℤ}
use otc_rds_operator.Rds.{Rds, RdsSpec}
use otc_rds_operator.Cloud.{Env, Reply, Flavor, rds_v3, list_flavors, ok, failed}
use otc_rds_operator.Exec.{Exec, pure, raise, exit_with, gets, perform, ◌>>=◌, ◌>>◌}
use otc_rds_operator.Instance.Provider.{get_provider, open_client}

-- An element of a `posflavor`.
pub record Candidate : Type 0 where
  pub vcpus : ℤ
  pub ram : ℤ
  pub spec : String

-- `uniq.Slice`, of a library: it sorts the slice by the given order in place, moves one element of
-- each class of equals to the front, and returns their number; here it returns that part.
abbrev pub Uniq : Type 0
Uniq = (Candidate → Candidate → Bool) → List Candidate → List Candidate

abbrev pub candidate : Flavor → Candidate
candidate f = record { vcpus = atoi_value f.vcpus; ram = f.ram; spec = f.spec_code }

-- The number of CPUs, as text, and the memory of the current flavor: of the last in the list that
-- has its name.
unfoldable pub current : String → List Flavor → String × ℤ → String × ℤ
current flavorref [] found = found
current flavorref (f ∷ flavors) found =
    current flavorref flavors (if f.spec_code == flavorref then (f.vcpus, f.ram) else found)

-- The two tests in the innermost loop, where `larger` is what they have in common.
unfoldable pub appended : String → Bool → Flavor → List Candidate
appended flavorref larger f =
    (if has_suffix flavorref ".ha" && has_suffix f.spec_code ".ha" && larger
      then candidate f ∷ []
      else [])
    ++ (if not (has_suffix flavorref ".ha")
          && not (has_suffix f.spec_code ".rr")
          && not (has_suffix f.spec_code ".ha")
          && larger
        then candidate f ∷ []
        else [])

-- The loops over the availability zones of a flavor, the inner one first.
unfoldable pub over_second : String → List Candidate → List (String × String) → List Candidate
over_second az2 body [] = []
over_second az2 body ((l, az) ∷ zones) =
    (if az2 == "" || (l == az2 && az == "normal") then body else []) ++ over_second az2 body zones

unfoldable pub over_first :
    String
    → String
    → List Candidate
    → List (String × String)
    → List (String × String)
    → List Candidate
unfolding over_second
over_first az1 az2 body all [] = []
over_first az1 az2 body all ((n, az) ∷ zones) =
    (if n == az1 && az == "normal" then over_second az2 body all else [])
    ++ over_first az1 az2 body all zones

-- The loop over the flavors.
unfoldable pub candidates :
    String → String → String → (Flavor → Bool) → List Flavor → List Candidate
unfolding appended over_first
candidates flavorref az1 az2 larger [] = []
candidates flavorref az1 az2 larger (f ∷ flavors) =
    over_first az1 az2 (appended flavorref (larger f) f) f.az_status f.az_status
    ++ candidates flavorref az1 az2 larger flavors

abbrev pub zone1 : String → String
zone1 availabilityzone = get_or (split b',' availabilityzone) 0 ""

abbrev pub zone2 : String → String
zone2 availabilityzone = get_or (split b',' availabilityzone) 1 ""

abbrev first_spec : List Candidate → Option String
first_spec [] = none
first_spec (c ∷ cs) = some c.spec

-- What follows the request for the list of flavors.
unfoldable pub choose : Uniq → RdsSpec → String → List Flavor → Option String
unfolding current candidates
choose uniq spec raisetype flavors =
    let (cpu, mem) = current spec.flavorref flavors ("0", pos 0) in
    let az1 = zone1 spec.availabilityzone in
    let az2 = zone2 spec.availabilityzone in
    if raisetype == "cpu"
    then first_spec (
        uniq (λ a b. ltb_ℤ a.vcpus b.vcpus)
          (candidates spec.flavorref az1 az2 (λ f. str_gt f.vcpus cpu) flavors))
    else if raisetype == "mem"
    then first_spec (
        uniq (λ a b. ltb_ℤ a.ram b.ram)
          (candidates spec.flavorref az1 az2 (λ f. ltb_ℤ mem f.ram) flavors))
    else none

abbrev pub found : {E : Env} → Option String → Exec E String
found none = raise "no flavor found"
found (some x) = pure x

module _ (uniq : Uniq) (E : Env) where
  -- The answer to the request for the list of flavors. klog.Exitf ends the process.
  unfoldable pub answered : RdsSpec → String → Reply (Reply (List Flavor)) → Exec E String
  unfolding choose
  answered spec raisetype (failed e) = exit_with ("unable to list flavor: " <> e)
  answered spec raisetype (ok (failed e)) = exit_with ("unable to extract flavor: " <> e)
  answered spec raisetype (ok (ok flavors)) = found (choose uniq spec raisetype flavors)

  unfoldable pub rds_flavor_lookup : String → Exec E String
  unfolding answered
  rds_flavor_lookup raisetype = do
    get_provider E
    open_client E rds_v3 ""
    r ← gets (λ s. s.rds)
    pages ← perform E (list_flavors r.spec.datastoreversion r.spec.datastoretype)
    answered r.spec raisetype pages
