-- ===== src/Client/Agree.antt =====
-- pkg/rds/v1alpha1/apis/clientset/versioned/typed/rds/v1alpha1: the client for tests and the client
-- address the same things.
use otc_rds_operator.Prelude.{
  String, ◌≡◌, refl, Bool, false, Option, none, some, List, if◌then◌else◌,
}
use otc_rds_operator.Rds.{Rds}
use otc_rds_operator.Informers.Resource.{GroupVersionResource}
use otc_rds_operator.Client.{
  Verb, get_verb, post_verb, put_verb, delete_verb, patch_verb, ListOptions, Params, list_params,
  Body, rds_body, data_body, RestRequest, list, watch,
}
use otc_rds_operator.Client.Fake.{
  Action, get_action, delete_action, list_action, watch_action, delete_collection_action,
  create_action, update_action, patch_action, fake_list, filtered, RdsList,
}

-- What a call does, and to what.
pub data Deed : Type 0 where
  reads lists watches creates updates deletes deletes_all : Deed
  patches : (pt bytes : String) → (subresources : List String) → Deed

pub record Address : Type 0 where
  pub deed : Deed
  pub namespace : String
  pub resource : String
  pub name : Option String
  pub object : Option Rds

abbrev object_in : {V : Type 0} → Body V → Option Rds
object_in (rds_body r) = some r
object_in _ = none

abbrev listed_or_watched : {V : Type 0} → Params V → Deed
listed_or_watched (list_params o) = if o.watch then watches else lists
listed_or_watched _ = lists

abbrev text_in : {V : Type 0} → Body V → String
text_in (data_body t) = t
text_in _ = ""

abbrev deed_of : {V : Type 0} → Verb → Option String → List String → Params V → Body V → Deed
deed_of get_verb (some name) subs p b = reads
deed_of get_verb none subs p b = listed_or_watched p
deed_of post_verb name subs p b = creates
deed_of put_verb name subs p b = updates
deed_of delete_verb (some name) subs p b = deletes
deed_of delete_verb none subs p b = deletes_all
deed_of (patch_verb pt) name subs p b = patches pt (text_in b) subs

abbrev at : GroupVersionResource → String → Deed → Option String → Option Rds → Address
at res ns deed name object = record {
  deed = deed;
  namespace = ns;
  resource = res.resource;
  name = name;
  object = object;
}

module _ {V : Type 0} where
  -- What a request addresses, of the conventions of the API of Kubernetes.
  abbrev pub requested : RestRequest V → Address
  requested r = record {
    deed = deed_of r.verb r.name r.subresources r.params r.body;
    namespace = r.namespace;
    resource = r.resource;
    name = r.name;
    object = object_in r.body;
  }

  -- What an action addresses.
  abbrev pub acted : Action V → Address
  acted (get_action res ns name) = at res ns reads (some name) none
  acted (delete_action res ns name) = at res ns deletes (some name) none
  acted (list_action res kind ns opts) = at res ns lists none none
  acted (watch_action res ns opts) = at res ns watches none none
  acted (delete_collection_action res ns opts) = at res ns deletes_all none none
  acted (create_action res ns rds) = at res ns creates none (some rds)
  acted (update_action res ns rds) = at res ns updates (some rds.name) (some rds)
  acted (patch_action res ns name pt bytes subs) =
      at res ns (patches pt bytes subs) (some name) none

-- A server that goes by what is addressed, behind the two clients.
module _ {V A : Type 0} (serve : Address → Option A × Option String) (ns : String) where
  abbrev asked : RestRequest V → Option A × Option String
  asked r = serve (requested r)

  abbrev acting : Action V → Option A × Option String
  acting a = serve (acted a)

-- The client for tests selects by the labels itself.
module _ {V M : Type 0} (label : ListOptions V → Option (Rds → Bool))
    (serve : Address → Option (RdsList M) × Option String) (ns : String) where
  pub fake_list-agrees :
      (opts : ListOptions V)
      → opts.watch ≡ false
      → fake_list label (λ a. serve (acted a)) ns opts
        ≡ filtered label opts (list (λ r. serve (requested r)) ns opts)
  unfolding fake_list list
  fake_list-agrees opts plain = rw plain refl
