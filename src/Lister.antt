-- ===== src/Lister.antt =====
-- pkg/rds/v1alpha1/apis/listers/rds/v1alpha1/rds.go, and resourceExists of
-- pkg/controller/worker.go: look-ups in the cache of an informer.
pub mod Listed
use otc_rds_operator.Prelude.{
  String, ◌<>◌, ◌==◌, Bool, true, false, Option, none, some, List, [], ◌∷◌, ◌++◌, if◌then◌else◌,
}
use otc_rds_operator.Rds.{Rds}
use otc_rds_operator.Cloud.{Reply, ok, failed, KubeReply, found, not_found, other_error}

-- What the program uses of client-go's Indexer. A selector is given by what it selects. A list comes
-- as the items that are handed to the function, and the error.
pub record Indexer : Type 1 where
  pub Index : Type 0
  pub get_by_key : Index → String → Reply (Option Rds)
  pub list_all : Index → (Rds → Bool) → List Rds × Option String
  pub list_all_by_namespace : Index → String → (Rds → Bool) → List Rds × Option String

-- `ret = append(ret, m.(*v1alpha1.Rds))` for each item.
unfoldable pub append_each : List Rds → List Rds → List Rds
append_each ret [] = ret
append_each ret (m ∷ ms) = append_each (ret ++ (m ∷ [])) ms

-- The text of a not-found error is its name here.
unfoldable pub found_or : String → Reply (Option Rds) → KubeReply Rds
found_or name (failed e) = other_error e
found_or name (ok none) = not_found name
found_or name (ok (some r)) = found r

unfoldable pub exists_in : Reply (Option Rds) → Reply Bool
exists_in (failed e) = failed e
exists_in (ok none) = ok false
exists_in (ok (some r)) = ok true

module _ (I : Indexer) where
  pub record RdsLister : Type 0 where
    pub indexer : I.Index

  pub record RdsNamespaceLister : Type 0 where
    pub indexer : I.Index
    pub namespace : String

  unfoldable pub new_rds_lister : I.Index → RdsLister
  new_rds_lister indexer = record { indexer = indexer }

  -- List of rdsLister
  unfoldable pub list_rdss : RdsLister → (Rds → Bool) → List Rds × Option String
  unfolding append_each
  list_rdss s selector =
      let (items, err) = I.list_all s.indexer selector in (append_each [] items, err)

  -- Rdss
  unfoldable pub in_namespace : RdsLister → String → RdsNamespaceLister
  in_namespace s namespace = record { indexer = s.indexer; namespace = namespace }

  -- List of rdsNamespaceLister
  unfoldable pub list_namespace : RdsNamespaceLister → (Rds → Bool) → List Rds × Option String
  unfolding append_each
  list_namespace s selector =
      let (items, err) = I.list_all_by_namespace s.indexer s.namespace selector in
      (append_each [] items, err)

  -- Get of rdsNamespaceLister
  unfoldable pub get_named : RdsNamespaceLister → String → KubeReply Rds
  unfolding found_or
  get_named s name = found_or name (I.get_by_key s.indexer (s.namespace <> ("/" <> name)))

  -- resourceExists, with the key that MetaNamespaceKeyFunc answers for the object.
  unfoldable pub resource_exists : Reply String → I.Index → Reply Bool
  unfolding exists_in
  resource_exists (failed e) indexer = failed ("error getting key " <> e)
  resource_exists (ok key) indexer = exists_in (I.get_by_key indexer key)

-- cache.MetaNamespaceKeyFunc, for a resource.
abbrev pub key_of : Rds → String
key_of r = if r.namespace == "" then r.name else r.namespace <> ("/" <> r.name)
