-- ===== src/Lister/Listed.antt =====
-- pkg/rds/v1alpha1/apis/listers/rds/v1alpha1/rds.go: Get and List of a namespace agree.
use mathlib.Core.List.{Mem, append-nil, append_assoc}
use text.Mathlib.TextLemmas.{append_cancel_left}
use otc_rds_operator.Prelude.{
  String, ◌<>◌, eq_iff, ◌≡◌, ◌≢◌, ◌↔◌, refl, sym, ap, ◌∙◌, subst, Bool, true, Option, none, some,
  List, [], ◌∷◌, ◌++◌, split, arith,
}
use otc_rds_operator.Prelude.Pieces.{is_free, split_at}
use otc_rds_operator.Rds.{Rds}
use otc_rds_operator.Cloud.{ok, KubeReply, found}
use otc_rds_operator.Lister.{
  Indexer, append_each, RdsNamespaceLister, list_namespace, found_or, get_named, key_of,
}

-- What the documentation of client-go says of an index with the keys of MetaNamespaceKeyFunc: at most
-- one item is stored under a key, and the items of a namespace are listed.
pub record IsIndexer (I : Indexer) : Type 1 where
  pub items : I.Index → List Rds
  pub unique :
      (ix : I.Index) (r q : Rds) → Mem r (items ix) → Mem q (items ix) → key_of r ≡ key_of q → r ≡ q
  pub get-some :
      (ix : I.Index) (key : String) (r : Rds)
      → I.get_by_key ix key ≡ ok (some r)
      → Mem r (items ix) × (key_of r ≡ key)
  pub get-none :
      (ix : I.Index) (key : String) (r : Rds)
      → I.get_by_key ix key ≡ ok none
      → Mem r (items ix)
      → key_of r ≢ key
  pub list-items :
      (ix : I.Index) (ns : String) (selects : Rds → Bool) (l : List Rds)
      → I.list_all_by_namespace ix ns selects ≡ (l, none)
      → (r : Rds) → Mem r l ↔ (Mem r (items ix) × (r.namespace ≡ ns) × (selects r ≡ true))

append_each-append : (ret ms : List Rds) → append_each ret ms ≡ ret ++ ms
unfolding append_each
append_each-append ret [] = sym (append-nil ret)
append_each-append ret (m ∷ ms) =
    append_each-append (ret ++ (m ∷ [])) ms ∙ append_assoc ret (m ∷ []) ms

head_eq : {A : Type 0} {a b : A} {l m : List A} → a ∷ l ≡ b ∷ m → a ≡ b
head_eq {A} {a} e = ap (λ (l : List A). elim l [ [] ↦ a | x ∷ xs ↦ x ]) e

-- Two names of one key, in namespaces without a slash.
key-injective :
    (ns other name other_name : String)
    → is_free b'/' ns ≡ true
    → is_free b'/' other ≡ true
    → ns <> ("/" <> name) ≡ other <> ("/" <> other_name)
    → (ns ≡ other) × (name ≡ other_name)
key-injective ns other name other_name f g e = (
  same,
  append_cancel_left "/" name other_name (
      append_cancel_left ns ("/" <> name) ("/" <> other_name)
        (e ∙ ap (λ z. z <> ("/" <> other_name)) (sym same))),
)
  where
    same : ns ≡ other
    same = head_eq (
        sym (split_at "/" ns name "/" refl f)
        ∙ ap (split b'/') e
        ∙ split_at "/" other other_name "/" refl g)

-- A namespace as Kubernetes has it.
abbrev pub IsNamespace : String → Type 0
IsNamespace ns = (ns ≢ "") × (is_free b'/' ns ≡ true)

key_of-joined : (r : Rds) → r.namespace ≢ "" → key_of r ≡ r.namespace <> ("/" <> r.name)
key_of-joined r ne = ground (arith, ne, eq_iff r.namespace "")

found_injective : {q r : Rds} → found q ≡ found r → q ≡ r
found_injective {q} e = ap (λ (k : KubeReply Rds). elim k [ found x ↦ x | _ ↦ q ]) e

module _ (I : Indexer) (L : IsIndexer I) (s : RdsNamespaceLister I) (name : String) where
  -- Every item that the index gives under the key has this namespace and this name.
  of_key :
      IsNamespace s.namespace
      → ((q : Rds) → Mem q (L.items s.indexer) → IsNamespace q.namespace)
      → (q : Rds) → Mem q (L.items s.indexer)
      → key_of q ≡ s.namespace <> ("/" <> name)
      → (q.namespace ≡ s.namespace) × (q.name ≡ name)
  of_key ns all q is_item key =
      let (ne, free) = all q is_item in
      key-injective q.namespace s.namespace q.name name free ns.1 (sym (key_of-joined q ne) ∙ key)

  -- A resource that the list of the namespace has under this name.
  key_of-listed :
      (l : List Rds)
      → ((q : Rds) → Mem q (L.items s.indexer) → IsNamespace q.namespace)
      → I.list_all_by_namespace s.indexer s.namespace (λ q. true) ≡ (l, none)
      → (r : Rds) → Mem r l
      → r.name ≡ name
      → Mem r (L.items s.indexer) × (key_of r ≡ s.namespace <> ("/" <> name))
  key_of-listed l all listed r is_in named =
      let (is_item, in_ns, _) =
        (L.list-items s.indexer s.namespace (λ q. true) l listed r).0 is_in in
      (
        is_item,
        key_of-joined r (all r is_item).0
            ∙ ap (λ z. z <> ("/" <> r.name)) in_ns
            ∙ ap (λ z. s.namespace <> ("/" <> z)) named,
      )

  found_or-listed :
      IsNamespace s.namespace
      → ((q : Rds) → Mem q (L.items s.indexer) → IsNamespace q.namespace)
      → (o : Option Rds) (l : List Rds)
      → I.get_by_key s.indexer (s.namespace <> ("/" <> name)) ≡ ok o
      → I.list_all_by_namespace s.indexer s.namespace (λ q. true) ≡ (l, none)
      → (r : Rds) → (found_or name (ok o) ≡ found r) ↔ (Mem r l × (r.name ≡ name))
  unfolding found_or
  found_or-listed ns all none l got listed r = (
    λ h. absurd (ground (arith, h)),
    λ (is_in, named).
        let (is_item, key) = key_of-listed l all listed r is_in named in
        absurd (L.get-none s.indexer (s.namespace <> ("/" <> name)) r got is_item key),
  )
  found_or-listed ns all (some q) l got listed r = (
    λ h.
        let (is_item, key) = L.get-some s.indexer (s.namespace <> ("/" <> name)) q got in
        let (in_ns, named) = of_key ns all q is_item key in
        subst (λ z. Mem z l × (z.name ≡ name)) (found_injective h)
          (
            (L.list-items s.indexer s.namespace (λ z. true) l listed q).1 (is_item, in_ns, refl),
            named,
          ),
    λ (is_in, named).
        let (is_item, key) = key_of-listed l all listed r is_in named in
        let (q_item, q_key) = L.get-some s.indexer (s.namespace <> ("/" <> name)) q got in
        ap found (L.unique s.indexer q r q_item is_item (q_key ∙ sym key)),
  )

  -- In an index as client-go documents it, whose namespaces are not empty and have no slash: where the
  -- index answers without an error, the lister of a namespace gets a resource by a name exactly if it
  -- lists it, for the selector of everything, under this name.
  pub get_named-listed :
      IsNamespace s.namespace
      → ((q : Rds) → Mem q (L.items s.indexer) → IsNamespace q.namespace)
      → (o : Option Rds) (l : List Rds)
      → I.get_by_key s.indexer (s.namespace <> ("/" <> name)) ≡ ok o
      → I.list_all_by_namespace s.indexer s.namespace (λ q. true) ≡ (l, none)
      → (r : Rds)
      → (get_named I s name ≡ found r)
        ↔ (Mem r (list_namespace I s (λ q. true)).0 × (r.name ≡ name))
  unfolding get_named list_namespace
  get_named-listed ns all o l got listed r =
      rw (got, listed, append_each-append [] l) (found_or-listed ns all o l got listed r)
