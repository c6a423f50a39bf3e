-- ===== src/Tests/Race.antt =====
-- Two workers that create instances for one name, while the calls of the second come between two calls
-- of the first.
use otc_rds_operator.Prelude.{ℕ, suc, String, ◌==◌, ◌≡◌, refl, List, [], ◌∷◌, nat_eq, if◌then◌else◌}
use otc_rds_operator.Cloud.{
  Call, Answer, Env, Instance, ok, by_name, list_instances, create_instance,
}
use otc_rds_operator.Exec.{◌>>=◌}
use otc_rds_operator.Rds.{status_eq}
use otc_rds_operator.Instance.Provider.{get_provider, open_client}
use otc_rds_operator.Instance.Lookup.{
  rds_get_by_id, rds_get_by_name, secgroup_get, subnet_get, vpc_get,
}
use otc_rds_operator.Instance.Status.{rds_update_status, update_status}
use otc_rds_operator.Instance.Create.{rds_create, create}
use otc_rds_operator.Tests.World.{reply, instance_, made, start}

-- A cloud that keeps the names of its instances, as they are created.
abbrev called : String → List String → List Instance
called name [] = []
called name (n ∷ names) =
    let rest = called name names in if n == name then instance_ ∷ rest else rest

keep : (c : Call) → List String → Answer c × List String
unfolding reply
keep (list_instances (by_name name)) names = (ok (ok (called name names)), names)
keep (create_instance opts) names = (made, opts.name ∷ names)
keep c names = (reply [] c, names)

abbrev cloud : Env
cloud = record { World = List String; answer = keep }

-- The same, where others change the world before each call.
abbrev shaken : Env → Env
shaken E = record {
  World = E.World × (ℕ → E.World → E.World);
  answer = λ c p. let (a, w) = E.answer c (p.1 0 p.0) in (a, (w, λ n. p.1 (suc n)));
}

-- What a whole Create of the second worker does to the cloud.
second : List String → List String
second names = (create cloud (start cloud names)).1.world

abbrev between : ℕ → ℕ → List String → List String
between k n names = if nat_eq n k then second names else names

-- Alone, and one after the other, they make one instance.
in_turn : second (second []) ≡ "default_db" ∷ []
unfolding create ◌>>=◌ get_provider keep open_client rds_create rds_get_by_name secgroup_get
    subnet_get vpc_get update_status rds_update_status status_eq rds_get_by_id second
in_turn = refl

-- Between the first one's look-up and its creation, the second makes another.
alternating :
    (create (shaken cloud) (start (shaken cloud) ([], between 6))).1.world.0
    ≡ "default_db" ∷ "default_db" ∷ []
unfolding create ◌>>=◌ get_provider keep open_client rds_create rds_get_by_name secgroup_get
    subnet_get vpc_get update_status rds_update_status status_eq rds_get_by_id second
alternating = refl
