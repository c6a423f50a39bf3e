-- ===== src/Client/Distinct.antt =====
-- pkg/rds/v1alpha1/apis/clientset/versioned/typed/rds/v1alpha1/rds.go: the requests tell the calls of
-- the methods apart.
use otc_rds_operator.Prelude.{String, ◌≡◌, true, false, Option, none, some, List, if◌then◌else◌}
use otc_rds_operator.Rds.{Rds}
use otc_rds_operator.Client.{
  Verb, get_verb, post_verb, put_verb, delete_verb, patch_verb, ListOptions, Params, options_params,
  list_params, Body, rds_body, options_body, data_body, RestRequest, get, list, watch, create,
  update, delete, delete_collection, patch,
}

-- A call of a method.
pub data Method (V : Type 0) : Type 0 where
  to_get to_delete : String → V → Method V
  to_list to_watch : ListOptions V → Method V
  to_create to_update : Rds → V → Method V
  to_delete_collection : V → ListOptions V → Method V
  to_patch : String → String → String → V → List String → Method V

module _ {V : Type 0} where
  -- The request that a call in a namespace sends.
  unfoldable pub request : String → Method V → RestRequest V
  unfolding get list watch create update delete delete_collection patch
  request ns (to_get name options) = get (λ r. r) ns name options
  request ns (to_list opts) = list (λ r. r) ns opts
  request ns (to_watch opts) = watch (λ r. r) ns opts
  request ns (to_create rds opts) = create (λ r. r) ns rds opts
  request ns (to_update rds opts) = update (λ r. r) ns rds opts
  request ns (to_delete name opts) = delete (λ r. r) ns name opts
  request ns (to_delete_collection opts list_opts) = delete_collection (λ r. r) ns opts list_opts
  request ns (to_patch name pt text opts subresources) =
      patch (λ r. r) ns name pt text opts subresources

  -- A list does not ask to watch, and the options of a watch say that it watches.
  abbrev pub IsPlain : Method V → Type 0
  IsPlain (to_list opts) = opts.watch ≡ false
  IsPlain (to_watch opts) = opts.watch ≡ true
  IsPlain _ = Unit

  -- The call that a request comes from.
  reading : Verb → Option String → List String → Params V → Body V → Option (Method V)
  reading get_verb (some name) subs (options_params o) b = some (to_get name o)
  reading get_verb none subs (list_params o) b = some (if o.watch then to_watch o else to_list o)
  reading post_verb name subs (options_params o) (rds_body r) = some (to_create r o)
  reading put_verb name subs (options_params o) (rds_body r) = some (to_update r o)
  reading delete_verb (some name) subs p (options_body o) = some (to_delete name o)
  reading delete_verb none subs (list_params l) (options_body o) = some (to_delete_collection o l)
  reading (patch_verb pt) (some name) subs (options_params o) (data_body text) =
      some (to_patch name pt text o subs)
  reading _ _ _ _ _ = none

  method_of : RestRequest V → Option (Method V)
  unfolding reading
  method_of r = reading r.verb r.name r.subresources r.params r.body

  -- The verb that the API of Kubernetes gives a call.
  abbrev pub verb_of : Method V → Verb
  verb_of (to_get name options) = get_verb
  verb_of (to_list opts) = get_verb
  verb_of (to_watch opts) = get_verb
  verb_of (to_create rds opts) = post_verb
  verb_of (to_update rds opts) = put_verb
  verb_of (to_delete name opts) = delete_verb
  verb_of (to_delete_collection opts list_opts) = delete_verb
  verb_of (to_patch name pt text opts subresources) = patch_verb pt
