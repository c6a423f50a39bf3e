-- ===== src/Informers/Shared.antt =====
-- pkg/rds/v1alpha1/apis/informers/externalversions/factory.go: the sharing of the informers.
use otc_rds_operator.Prelude.{
  String, ◌≡◌, refl, ap, ◌∙◌, Bool, true, false, Option, none, some, List, [], ◌∷◌,
}
use otc_rds_operator.Prelude.Int.{ℤ}
use otc_rds_operator.Prelude.Maps.{find_key, find_key-set_key}
use otc_rds_operator.Informers.{
  Factory, is_started, make_or_keep, informer_for, launch, launch_key, start, period_or,
}
use otc_rds_operator.Informers.Goroutines.{
  Running, Step, requested, started, Reach, Reach-keeps, make_or_keep-keeps,
}

module _ {C O I : Type 0} where
  pub launch-informers :
      (k : String) (o : Option I) (b : Bool) (p : Running C O I)
      → (launch k o b p).0.informers ≡ p.0.informers
  unfolding launch
  launch-informers k none b p = refl
  launch-informers k (some i) true p = refl
  launch-informers k (some i) false (f, ran) = refl

  pub start-informers :
      (order : List String) (p : Running C O I) → (start order p).0.informers ≡ p.0.informers
  unfolding start launch_key
  start-informers [] p = refl
  start-informers (k ∷ order) (f, ran) =
      start-informers order (launch_key k (f, ran))
      ∙ launch-informers k (find_key k f.informers) (is_started k f) (f, ran)

  -- What the factory hands out for a type.
  abbrev Hands : String → I → Running C O I → Type 0
  Hands k i p = find_key k p.0.informers ≡ some i

  Step-Hands : (k : String) (i : I) (p q : Running C O I) → Step p q → Hands k i p → Hands k i q
  unfolding informer_for
  Step-Hands k i (f, ran) q (requested j new_func _) has =
      make_or_keep-keeps (find_key j f.informers) j k new_func f i refl has
  Step-Hands k i p q (started order _) has = ap (find_key k) (start-informers order p) ∙ has

  make_or_keep-Hands :
      (o : Option I) (k : String) (new_func : C → ℤ → I) (f : Factory C O I)
      → find_key k f.informers ≡ o
      → find_key k (make_or_keep o k new_func f).1.informers ≡ some (make_or_keep o k new_func f).0
  unfolding make_or_keep
  make_or_keep-Hands (some i) k new_func f found = found
  make_or_keep-Hands none k new_func f found =
      find_key-set_key k
        (new_func f.client (period_or f.default_resync (find_key k f.custom_resync))) f.informers

  -- Once InformerFor has returned an informer for a type, it returns the same one for it after any
  -- further calls of InformerFor and Start, whatever constructor it is given.
  pub informer_for-shared :
      (k : String) (new_func other_func : C → ℤ → I) (f : Factory C O I) (ran : List (String × I))
      (p : Running C O I)
      → Reach ((informer_for k new_func f).1, ran) p
      → (informer_for k other_func p.0).0 ≡ (informer_for k new_func f).0
  unfolding informer_for make_or_keep
  informer_for-shared k new_func other_func f ran p r =
      let has =
        Reach-keeps (Hands k (informer_for k new_func f).0)
          (Step-Hands k (informer_for k new_func f).0) r
          (make_or_keep-Hands (find_key k f.informers) k new_func f refl) in
      rw has refl
