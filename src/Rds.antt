-- ===== src/Rds.antt =====
-- pkg/rds/v1alpha1/types.go and zz_generated.deepcopy.go: the custom resource.
pub mod Changed
use otc_rds_operator.Prelude.{
  ℕ, String, ◌<>◌, Bool, Option, none, some, List, [], ◌∷◌, ◌&&◌, ◌||◌, true, false, not, ◌==◌,
  bool_eq, nat_eq,
}
use otc_rds_operator.Prelude.Int.{ℤ, pos, negsuc}

-- A slice of Go: `none` is the nil slice, which differs from an empty one under DeepEqual.
abbrev pub Slice : Type 0 → Type 0
Slice A = Option (List A)

-- What `range` and `len` see of a slice.
abbrev pub elements : {A : Type 0} → Slice A → List A
elements none = []
elements (some xs) = xs

pub record User : Type 0 where
  pub name : String
  pub host : String
  pub password : String
  pub privileges : Slice String

-- The pointer `*[]Users`: an address, by which `!=` compares, and what is stored there. Nothing
-- in the program writes through it.
pub record UsersRef : Type 0 where
  pub address : ℕ
  pub users : Slice User

pub record RdsSpec : Type 0 where
  pub availabilityzone : String
  pub backuprestoretime : String
  pub backupstarttime : String
  pub backupkeepdays : ℤ
  pub databases : Slice String
  pub datastoretype : String
  pub datastoreversion : String
  pub endpoint : String
  pub flavorref : String
  pub hamode : String
  pub hareplicationmode : String
  pub port : String
  pub password : String
  pub region : String
  pub subnet : String
  pub securitygroup : String
  pub users : Option UsersRef
  pub volumetype : String
  pub volumesize : ℤ
  pub vpc : String

pub record RdsStatus : Type 0 where
  pub autopilot : Bool
  pub id : String
  pub ip : String
  pub logs : Bool
  pub reboot : Bool
  pub status : String

-- Of the metadata the program reads the name and the namespace.
pub record Rds : Type 0 where
  pub name : String
  pub namespace : String
  pub spec : RdsSpec
  pub status : RdsStatus

-- `DeepCopy` copies the structs and keeps the pointers and the slices in them; as values of the
-- model the copy and the original are the same.
abbrev pub deep_copy : Rds → Rds
deep_copy r = record { name = r.name; namespace = r.namespace; spec = r.spec; status = r.status }

-- The name of the resource's instance, topic and alarms in the cloud.
abbrev pub instance_name : Rds → String
instance_name r = r.namespace <> "_" <> r.name

-- reflect.DeepEqual, at the types that the resource is made of.
int_eq : ℤ → ℤ → Bool
int_eq (pos a) (pos b) = nat_eq a b
int_eq (negsuc a) (negsuc b) = nat_eq a b
int_eq _ _ = false

texts_eq : List String → List String → Bool
texts_eq [] [] = true
texts_eq (x ∷ xs) (y ∷ ys) = x == y && texts_eq xs ys
texts_eq _ _ = false

slice_eq : Slice String → Slice String → Bool
unfolding texts_eq
slice_eq none none = true
slice_eq (some xs) (some ys) = texts_eq xs ys
slice_eq _ _ = false

user_eq : User → User → Bool
unfolding slice_eq
user_eq a b =
    a.name == b.name
    && a.host == b.host
    && a.password == b.password
    && slice_eq a.privileges b.privileges

users_eq : List User → List User → Bool
unfolding user_eq
users_eq [] [] = true
users_eq (x ∷ xs) (y ∷ ys) = user_eq x y && users_eq xs ys
users_eq _ _ = false

user_slice_eq : Slice User → Slice User → Bool
unfolding users_eq
user_slice_eq none none = true
user_slice_eq (some xs) (some ys) = users_eq xs ys
user_slice_eq _ _ = false

-- Two pointers are deeply equal if they are nil, or the same, or point to what is deeply equal.
users_ref_eq : Option UsersRef → Option UsersRef → Bool
unfolding user_slice_eq
users_ref_eq none none = true
users_ref_eq (some a) (some b) = nat_eq a.address b.address || user_slice_eq a.users b.users
users_ref_eq _ _ = false

unfoldable pub spec_eq : RdsSpec → RdsSpec → Bool
unfolding int_eq slice_eq users_ref_eq
spec_eq a b =
    a.availabilityzone == b.availabilityzone
    && a.backuprestoretime == b.backuprestoretime
    && a.backupstarttime == b.backupstarttime
    && int_eq a.backupkeepdays b.backupkeepdays
    && slice_eq a.databases b.databases
    && a.datastoretype == b.datastoretype
    && a.datastoreversion == b.datastoreversion
    && a.endpoint == b.endpoint
    && a.flavorref == b.flavorref
    && a.hamode == b.hamode
    && a.hareplicationmode == b.hareplicationmode
    && a.port == b.port
    && a.password == b.password
    && a.region == b.region
    && a.subnet == b.subnet
    && a.securitygroup == b.securitygroup
    && users_ref_eq a.users b.users
    && a.volumetype == b.volumetype
    && int_eq a.volumesize b.volumesize
    && a.vpc == b.vpc

-- `==` on the status, which is also what DeepEqual decides of it.
unfoldable pub status_eq : RdsStatus → RdsStatus → Bool
status_eq a b =
    bool_eq a.autopilot b.autopilot
    && a.id == b.id
    && a.ip == b.ip
    && bool_eq a.logs b.logs
    && bool_eq a.reboot b.reboot
    && a.status == b.status

unfoldable pub has_changed : Rds → Rds → Bool
unfolding spec_eq status_eq
has_changed e other = spec_eq e.spec other.spec || status_eq e.status other.status

-- `!=` on the pointers to the users.
unfoldable pub users_differ : Option UsersRef → Option UsersRef → Bool
users_differ none none = false
users_differ (some a) (some b) = not (nat_eq a.address b.address)
users_differ _ _ = true
