-- ===== src/Informers/Resource.antt =====
-- pkg/rds/v1alpha1/apis/informers/externalversions/rds: the informer of the resource. The calls of the
-- generated client and of client-go are parameters.
use otc_rds_operator.Prelude.{
  String, Bool, ◌<>◌, ◌==◌, ◌&&◌, Option, none, some, List, [], ◌∷◌, if◌then◌else◌,
}
use otc_rds_operator.Prelude.Int.{ℤ}
use otc_rds_operator.Cloud.{Reply, ok, failed}
use otc_rds_operator.Informers.{Factory, informer_for}

-- cache.ListWatch: what it asks for, for the options that it is given.
pub record ListWatch (O R W : Type 0) : Type 0 where
  pub list_func : O → R
  pub watch_func : O → W

pub record RdsInformer (O : Type 0) : Type 0 where
  pub namespace : String
  pub tweak_list_options : Option (O → O)

-- schema.GroupVersionResource
pub record GroupVersionResource : Type 0 where
  pub group : String
  pub version : String
  pub resource : String

-- v1alpha1.SchemeGroupVersion.WithResource("rdss")
abbrev pub rdss_resource : GroupVersionResource
rdss_resource = record { group = "otc.mcsps.de"; version = "v1alpha1"; resource = "rdss" }

abbrev same_resource : GroupVersionResource → GroupVersionResource → Bool
same_resource r q = r.group == q.group && r.version == q.version && r.resource == q.resource

-- `if tweakListOptions != nil { tweakListOptions(&options) }`
unfoldable pub tweaked : {O : Type 0} → Option (O → O) → O → O
tweaked none options = options
tweaked (some tweak) options = tweak options

-- Mcsps().V1alpha1().Rdss()
unfoldable pub rdss : {C O I : Type 0} → Factory C O I → RdsInformer O
rdss f = record { namespace = f.namespace; tweak_list_options = f.tweak_list_options }

-- The last argument of `new_informer` are the names of the indexers.
module _ {C O I R W : Type 0} (list : C → String → O → R) (watch : C → String → O → W)
    (new_informer : ListWatch O R W → ℤ → List String → I) where
  -- NewFilteredRdsInformer
  unfoldable pub new_filtered_rds_informer : C → String → ℤ → List String → Option (O → O) → I
  unfolding tweaked
  new_filtered_rds_informer client namespace resync_period indexers tweak =
      new_informer
        (record {
          list_func = λ options. list client namespace (tweaked tweak options);
          watch_func = λ options. watch client namespace (tweaked tweak options);
        })
        resync_period indexers

  -- NewRdsInformer
  unfoldable pub new_rds_informer : C → String → ℤ → List String → I
  unfolding new_filtered_rds_informer
  new_rds_informer client namespace resync_period indexers =
      new_filtered_rds_informer client namespace resync_period indexers none

  -- defaultInformer
  unfoldable pub default_informer : RdsInformer O → C → ℤ → I
  unfolding new_filtered_rds_informer
  default_informer r client resync_period =
      new_filtered_rds_informer client r.namespace resync_period ("namespace" ∷ [])
        r.tweak_list_options

  -- Informer
  unfoldable pub informer : RdsInformer O → Factory C O I → I × Factory C O I
  unfolding informer_for default_informer
  informer r f = informer_for "*v1alpha1.Rds" (default_informer r) f

  -- ForResource
  unfoldable pub for_resource : GroupVersionResource → Factory C O I → Reply I × Factory C O I
  unfolding informer rdss
  for_resource r f =
      let (i, g) = informer (rdss f) f in
      if same_resource r rdss_resource then (ok i, g) else (
        failed (
            "no informer found for " <> r.group <> "/" <> r.version <> ", Resource=" <> r.resource),
        f,
      )
