-- ===== src/Client/Fake.antt =====
-- pkg/rds/v1alpha1/apis/clientset/versioned/typed/rds/v1alpha1/fake/fake_rds.go: the client for tests.
-- What the fake of client-go does with an action, `invokes` and the like, is a parameter.
use otc_rds_operator.Prelude.{String, Bool, true, Option, none, some, List, [], ◌∷◌, if◌then◌else◌}
use otc_rds_operator.Rds.{Rds}
use otc_rds_operator.Informers.Resource.{GroupVersionResource}
use otc_rds_operator.Client.{ListOptions}

-- The actions of client-go's package testing, with their resource and namespace.
pub data Action (V : Type 0) : Type 0 where
  get_action delete_action : GroupVersionResource → String → String → Action V
  list_action : GroupVersionResource → (kind : String) → String → ListOptions V → Action V
  watch_action delete_collection_action : GroupVersionResource → String → ListOptions V → Action V
  create_action update_action : GroupVersionResource → String → Rds → Action V
  patch_action :
      GroupVersionResource
      → String
      → (name pt bytes : String) → (subresources : List String) → Action V

-- rdssResource
abbrev pub rdss_resource : GroupVersionResource
rdss_resource = record { group = "otc.mcsps.de"; version = "v1alpha1"; resource = "rdss" }

-- rdssKind
abbrev pub rdss_kind : String
rdss_kind = "Rds"

-- v1alpha1.RdsList
pub record RdsList (M : Type 0) : Type 0 where
  pub list_meta : M
  pub items : List Rds

-- `if obj == nil { return nil, err }`, and else the object with the error.
unfoldable pub object_of : {A : Type 0} → Option A × Option String → Option A × Option String
object_of (none, err) = (none, err)
object_of (some obj, err) = (some obj, err)

-- `for _, item := range …Items { if label.Matches(…) { list.Items = append(list.Items, item) } }`
unfoldable pub matching : (Rds → Bool) → List Rds → List Rds
matching matches [] = []
matching matches (item ∷ items) =
    let rest = matching matches items in if matches item then item ∷ rest else rest

-- A nil label stands for labels.Everything().
unfoldable pub label_or_everything : Option (Rds → Bool) → Rds → Bool
label_or_everything none item = true
label_or_everything (some label) item = label item

module _ {V A : Type 0} (invokes : Action V → Option A × Option String) (ns : String) where
  unfoldable pub fake_get : String → Option A × Option String
  unfolding object_of
  fake_get name = object_of (invokes (get_action rdss_resource ns name))

  unfoldable pub fake_create : Rds → Option A × Option String
  unfolding object_of
  fake_create rds = object_of (invokes (create_action rdss_resource ns rds))

  unfoldable pub fake_update : Rds → Option A × Option String
  unfolding object_of
  fake_update rds = object_of (invokes (update_action rdss_resource ns rds))

  unfoldable pub fake_patch : String → String → String → List String → Option A × Option String
  unfolding object_of
  fake_patch name pt bytes subresources =
      object_of (invokes (patch_action rdss_resource ns name pt bytes subresources))

  unfoldable pub fake_delete : String → Option String
  fake_delete name = let (obj, err) = invokes (delete_action rdss_resource ns name) in err

  unfoldable pub fake_delete_collection : ListOptions V → Option String
  fake_delete_collection list_opts =
      let (obj, err) = invokes (delete_collection_action rdss_resource ns list_opts) in err

-- `label` is what testing.ExtractFromListOptions gives of the options.
module _ {V M : Type 0} (label : ListOptions V → Option (Rds → Bool)) where
  unfoldable pub filtered :
      ListOptions V → Option (RdsList M) × Option String → Option (RdsList M) × Option String
  unfolding matching label_or_everything
  filtered opts (none, err) = (none, err)
  filtered opts (some obj, err) =
      (some (record obj { items = matching (label_or_everything (label opts)) obj.items }), err)

  unfoldable pub fake_list :
      (invokes : Action V → Option (RdsList M) × Option String) (ns : String)
      → ListOptions V
      → Option (RdsList M) × Option String
  unfolding filtered
  fake_list invokes ns opts = filtered opts (invokes (list_action rdss_resource rdss_kind ns opts))

module _ {V W : Type 0} (invokes_watch : Action V → W) (ns : String) where
  unfoldable pub fake_watch : ListOptions V → W
  fake_watch opts = invokes_watch (watch_action rdss_resource ns opts)
