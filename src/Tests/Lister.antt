-- ===== src/Tests/Lister.antt =====
-- A cache that holds one resource at most, and its lister.
use mathlib.Core.List.{Mem, mem-singleton, not-mem-nil}
use text.Mathlib.TextEquality.{IsScalar-prop}
use otc_rds_operator.Prelude.{
  String, ◌==◌, eq_iff, ◌&&◌, ◌≡◌, ◌≢◌, ◌↔◌, refl, sym, ap, ◌∙◌, subst, Bool, true, false,
  Bool-cases, inl, inr, Option, none, some, List, [], ◌∷◌, arith, matches_all, if◌then◌else◌,
}
use otc_rds_operator.Rds.{Rds}
use otc_rds_operator.Cloud.{Reply, ok, failed, found}
use otc_rds_operator.Lister.{
  Indexer, RdsNamespaceLister, new_rds_lister, in_namespace, list_namespace, get_named, key_of,
  resource_exists,
}
use otc_rds_operator.Lister.Listed.{IsIndexer, IsNamespace, get_named-listed}
use otc_rds_operator.Tests.Queue.{some_injective}
use otc_rds_operator.Tests.World.{rds}

abbrev items_of : Option Rds → List Rds
items_of none = []
items_of (some r) = r ∷ []

abbrev under_key : Option Rds → String → Option Rds
under_key none key = none
under_key (some r) key = if key_of r == key then some r else none

abbrev in_space : Option Rds → String → (Rds → Bool) → List Rds
in_space none ns selects = []
in_space (some r) ns selects = if r.namespace == ns && selects r then r ∷ [] else []

abbrev selected : Option Rds → (Rds → Bool) → List Rds
selected none selects = []
selected (some r) selects = if selects r then r ∷ [] else []

abbrev one_item : Indexer
one_item = record {
  Index = Option Rds;
  get_by_key = λ ix key. ok (under_key ix key);
  list_all = λ ix selects. (selected ix selects, none);
  list_all_by_namespace = λ ix ns selects. (in_space ix ns selects, none);
}

rds_is_set : IsSet Rds
rds_is_set = hlevel IsScalar-prop

member : (r x : Rds) → Mem r (x ∷ []) ↔ (r ≡ x)
member r x = mem-singleton rds_is_set

unique : (ix : Option Rds) (r q : Rds) → Mem r (items_of ix) → Mem q (items_of ix) → r ≡ q
unique none r q hr hq = absurd (not-mem-nil hr)
unique (some x) r q hr hq = (member r x).0 hr ∙ sym ((member q x).0 hq)

get_some :
    (ix : Option Rds) (key : String) (r : Rds)
    → under_key ix key ≡ some r
    → Mem r (items_of ix) × (key_of r ≡ key)
get_some none key r h = absurd (ground (arith, h))
get_some (some x) key r h = elim (Bool-cases (key_of x == key)) [
  | inl same ↦
      let e = some_injective (rw same at h) in
      ((member r x).1 (sym e), ap key_of (sym e) ∙ (eq_iff (key_of x) key).0 same)
  | inr other ↦ absurd (let e = (rw other at h) in ground (arith, e))
]

get_none :
    (ix : Option Rds) (key : String) (r : Rds)
    → under_key ix key ≡ none
    → Mem r (items_of ix)
    → key_of r ≢ key
get_none none key r h is_in = absurd (not-mem-nil is_in)
get_none (some x) key r h is_in = λ e.
    let same = (eq_iff (key_of x) key).1 (ap key_of (sym ((member r x).0 is_in)) ∙ e) in
    let no_item = (rw same at h) in ground (arith, no_item)

listed :
    (ix : Option Rds) (ns : String) (selects : Rds → Bool) (r : Rds)
    → Mem r (in_space ix ns selects)
      ↔ (Mem r (items_of ix) × (r.namespace ≡ ns) × (selects r ≡ true))
listed none ns selects r = (λ h. absurd (not-mem-nil h), λ (h, _, _). h)
listed (some x) ns selects r = elim (Bool-cases (x.namespace == ns && selects x)) [
  | inl both ↦ rw both (
    λ h.
        let (in_ns, chosen) =
          subst (λ z. (z.namespace ≡ ns) × (selects z ≡ true)) (sym ((member r x).0 h))
            ((eq_iff x.namespace ns).0 (ground (arith, both)), ground (arith, both)) in
        (h, in_ns, chosen),
    λ (h, _, _). h,
  )
  | inr other ↦ rw other (
    λ h. absurd (not-mem-nil h),
    λ (h, in_ns, chosen).
        let e = (member r x).0 h in
        let same = (eq_iff x.namespace ns).1 (ap (λ (z : Rds). z.namespace) (sym e) ∙ in_ns) in
        let chosen_x = ap selects (sym e) ∙ chosen in
        absurd (ground (arith, other, same, chosen_x)),
  )
]

ok_injective : {a b : Option Rds} → ok a ≡ ok b → a ≡ b
ok_injective {a} e = ap (λ (o : Reply (Option Rds)). elim o [ ok x ↦ x | failed m ↦ a ]) e

one_item-IsIndexer : IsIndexer one_item
one_item-IsIndexer = record {
  items = items_of;
  unique = λ ix r q hr hq e. unique ix r q hr hq;
  get-some = λ ix key r h. get_some ix key r (ok_injective h);
  get-none = λ ix key r h. get_none ix key r (ok_injective h);
  list-items = λ ix ns selects l h r.
      subst (λ m. Mem r m ↔ (Mem r (items_of ix) × (r.namespace ≡ ns) × (selects r ≡ true)))
        (ap (λ p. p.0) h) (listed ix ns selects r);
}

abbrev lister : RdsNamespaceLister one_item
lister = in_namespace one_item (new_rds_lister one_item (some rds)) "default"

default-IsNamespace : IsNamespace "default"
unfolding matches_all
default-IsNamespace = (λ e. let same = (eq_iff "default" "").1 e in cc, refl)

get_named-listed_example :
    (get_named one_item lister "db" ≡ found rds)
    ↔ (Mem rds (list_namespace one_item lister (λ q. true)).0 × (rds.name ≡ "db"))
unfolding in_namespace one_item-IsIndexer new_rds_lister
get_named-listed_example =
    get_named-listed one_item one_item-IsIndexer lister "db" default-IsNamespace
      (λ q is_in.
        subst (λ z. IsNamespace z.namespace) (sym ((member q rds).0 is_in)) default-IsNamespace)
      (some rds) (rds ∷ []) refl refl rds

exists_there : resource_exists one_item (ok "default/db") (some rds) ≡ ok true
unfolding resource_exists
exists_there = refl

not_there : resource_exists one_item (ok "default/db2") (some rds) ≡ ok false
unfolding resource_exists
not_there = refl
