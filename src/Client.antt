-- ===== src/Client.antt =====
-- pkg/rds/v1alpha1/apis/clientset/versioned/typed/rds/v1alpha1/rds.go: the requests of the client of
-- the resources. What client-go does with a request is a parameter, `send`.
pub mod Distinct
pub mod Fake
pub mod Agree
use otc_rds_operator.Prelude.{String, Bool, true, false, Option, none, some, List, []}
use otc_rds_operator.Prelude.Int.{ℤ, pos, mul_int}
use otc_rds_operator.Rds.{Rds}
use otc_rds_operator.Config.Duration.{second}

pub data Verb : Type 0 where
  get_verb post_verb put_verb delete_verb : Verb
  patch_verb : String → Verb

-- metav1.ListOptions; `V` stands for its other fields, and for the options of the other methods.
pub record ListOptions (V : Type 0) : Type 0 where
  pub timeout_seconds : Option ℤ
  pub watch : Bool
  pub other : V

pub data Params (V : Type 0) : Type 0 where
  no_params : Params V
  options_params : V → Params V
  list_params : ListOptions V → Params V

pub data Body (V : Type 0) : Type 0 where
  no_body : Body V
  rds_body : Rds → Body V
  options_body : V → Body V
  data_body : String → Body V

-- rest.Request
pub record RestRequest (V : Type 0) : Type 0 where
  pub verb : Verb
  pub namespace : String
  pub resource : String
  pub name : Option String
  pub subresources : List String
  pub params : Params V
  pub timeout : Option ℤ
  pub body : Body V

-- The local variable `timeout`, which an int64 wraps around.
unfoldable pub timeout_of : Option ℤ → ℤ
unfolding mul_int
timeout_of none = pos 0
timeout_of (some seconds) = mul_int seconds second

-- What the methods have in common.
abbrev plain : {V : Type 0} → Verb → String → RestRequest V
plain verb ns = record {
  verb = verb;
  namespace = ns;
  resource = "rdss";
  name = none;
  subresources = [];
  params = no_params;
  timeout = none;
  body = no_body;
}

module _ {V A : Type 0} (send : RestRequest V → A) (ns : String) where
  unfoldable pub get : String → V → A
  get name options =
      send (record (plain get_verb ns) { name = some name; params = options_params options })

  unfoldable pub list : ListOptions V → A
  unfolding timeout_of
  list opts = send (record (plain get_verb ns) {
    params = list_params opts;
    timeout = some (timeout_of opts.timeout_seconds);
  })

  unfoldable pub watch : ListOptions V → A
  unfolding timeout_of
  watch opts = send (record (plain get_verb ns) {
    params = list_params (record opts { watch = true });
    timeout = some (timeout_of opts.timeout_seconds);
  })

  unfoldable pub create : Rds → V → A
  create rds opts =
      send (record (plain post_verb ns) { params = options_params opts; body = rds_body rds })

  unfoldable pub update : Rds → V → A
  update rds opts = send (record (plain put_verb ns) {
    name = some rds.name;
    params = options_params opts;
    body = rds_body rds;
  })

  unfoldable pub delete : String → V → A
  delete name opts =
      send (record (plain delete_verb ns) { name = some name; body = options_body opts })

  unfoldable pub delete_collection : V → ListOptions V → A
  unfolding timeout_of
  delete_collection opts list_opts = send (record (plain delete_verb ns) {
    params = list_params list_opts;
    timeout = some (timeout_of list_opts.timeout_seconds);
    body = options_body opts;
  })

  unfoldable pub patch : String → String → String → V → List String → A
  patch name pt data_bytes opts subresources = send (record (plain (patch_verb pt) ns) {
    name = some name;
    subresources = subresources;
    params = options_params opts;
    body = data_body data_bytes;
  })
