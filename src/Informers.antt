-- ===== src/Informers.antt =====
-- pkg/rds/v1alpha1/apis/informers/externalversions/factory.go: the factory that shares one informer
-- for each type. The mutex makes each operation one step.
pub mod Goroutines
pub mod Resource
pub mod Shared
pub mod Synced
use otc_rds_operator.Prelude.{
  String, Bool, true, false, Option, none, some, List, [], ◌∷◌, if◌then◌else◌,
}
use otc_rds_operator.Prelude.Int.{ℤ}
use otc_rds_operator.Prelude.Maps.{find_key, set_key}

-- `C` stands for the client, `O` for the options of a list, `I` for the informers. A type is given by
-- its name.
pub record Factory (C O I : Type 0) : Type 0 where
  pub client : C
  pub namespace : String
  pub tweak_list_options : Option (O → O)
  pub default_resync : ℤ
  pub custom_resync : List (String × ℤ)
  pub informers : List (String × I)
  pub started_informers : List (String × Bool)

-- `m[key]`, which is the zero value without an entry.
abbrev pub flag_or_false : Option Bool → Bool
flag_or_false none = false
flag_or_false (some b) = b

-- `d` unless the look-up has found a period.
abbrev pub period_or : ℤ → Option ℤ → ℤ
period_or d none = d
period_or d (some p) = p

unfoldable pub set_periods : List (String × ℤ) → List (String × ℤ) → List (String × ℤ)
set_periods [] m = m
set_periods ((k, v) ∷ rest) m = set_periods rest (set_key k v m)

-- The second loop of WaitForCacheSync; `synced` is what waiting for the cache of an informer answers.
unfoldable pub await_all : {I : Type 0} → (I → Bool) → List (String × I) → List (String × Bool)
await_all synced [] = []
await_all synced ((k, i) ∷ m) = (k, synced i) ∷ await_all synced m

module _ {C O I : Type 0} where
  abbrev pub is_started : String → Factory C O I → Bool
  is_started k f = flag_or_false (find_key k f.started_informers)

  unfoldable pub with_custom_resync_config : List (String × ℤ) → Factory C O I → Factory C O I
  unfolding set_periods
  with_custom_resync_config config f = record f {
    custom_resync = set_periods config f.custom_resync;
  }

  unfoldable pub with_tweak_list_options : Option (O → O) → Factory C O I → Factory C O I
  with_tweak_list_options tweak f = record f { tweak_list_options = tweak }

  unfoldable pub with_namespace : String → Factory C O I → Factory C O I
  with_namespace namespace f = record f { namespace = namespace }

  unfoldable pub apply_options :
      List (Factory C O I → Factory C O I) → Factory C O I → Factory C O I
  apply_options [] f = f
  apply_options (opt ∷ options) f = apply_options options (opt f)

  -- NewSharedInformerFactoryWithOptions; v1.NamespaceAll is the empty text.
  unfoldable pub new_with_options : C → ℤ → List (Factory C O I → Factory C O I) → Factory C O I
  unfolding apply_options
  new_with_options client default_resync options = apply_options options (record {
    client = client;
    namespace = "";
    tweak_list_options = none;
    default_resync = default_resync;
    custom_resync = [];
    informers = [];
    started_informers = [];
  })

  -- NewSharedInformerFactory
  unfoldable pub new_shared : C → ℤ → Factory C O I
  unfolding new_with_options
  new_shared client default_resync = new_with_options client default_resync []

  -- NewFilteredSharedInformerFactory
  unfoldable pub new_filtered : C → ℤ → String → Option (O → O) → Factory C O I
  unfolding new_with_options with_namespace with_tweak_list_options
  new_filtered client default_resync namespace tweak =
      new_with_options client default_resync
        (with_namespace namespace ∷ with_tweak_list_options tweak ∷ [])

  -- InformerFor, after the look-up.
  unfoldable pub make_or_keep : Option I → String → (C → ℤ → I) → Factory C O I → I × Factory C O I
  make_or_keep (some i) k new_func f = (i, f)
  make_or_keep none k new_func f =
      let i = new_func f.client (period_or f.default_resync (find_key k f.custom_resync)) in
      (i, record f { informers = set_key k i f.informers })

  -- InformerFor
  unfoldable pub informer_for : String → (C → ℤ → I) → Factory C O I → I × Factory C O I
  unfolding make_or_keep
  informer_for k new_func f = make_or_keep (find_key k f.informers) k new_func f

  -- One turn of the loop of Start: the goroutine that it starts, with the informer it runs.
  unfoldable pub launch :
      String
      → Option I
      → Bool
      → Factory C O I × List (String × I)
      → Factory C O I × List (String × I)
  launch k none started p = p
  launch k (some i) true p = p
  launch k (some i) false (f, ran) =
      (record f { started_informers = set_key k true f.started_informers }, (k, i) ∷ ran)

  unfoldable pub launch_key :
      String → Factory C O I × List (String × I) → Factory C O I × List (String × I)
  unfolding launch
  launch_key k (f, ran) = launch k (find_key k f.informers) (is_started k f) (f, ran)

  -- Start, with the order in which it comes upon the keys of the map, and all the goroutines that
  -- have been started before.
  unfoldable pub start :
      List String → Factory C O I × List (String × I) → Factory C O I × List (String × I)
  unfolding launch_key
  start [] p = p
  start (k ∷ order) p = start order (launch_key k p)

  -- The first loop of WaitForCacheSync: the started informers.
  unfoldable pub collect : Factory C O I → List (String × I) → List (String × I)
  collect f [] = []
  collect f ((k, i) ∷ m) = let rest = collect f m in if is_started k f then (k, i) ∷ rest else rest

  -- WaitForCacheSync
  unfoldable pub wait_for_cache_sync : (I → Bool) → Factory C O I → List (String × Bool)
  unfolding collect await_all
  wait_for_cache_sync synced f = await_all synced (collect f f.informers)
