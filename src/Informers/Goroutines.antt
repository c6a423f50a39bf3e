-- ===== src/Informers/Goroutines.antt =====
-- pkg/rds/v1alpha1/apis/informers/externalversions/factory.go: the goroutines of the informers.
use otc_rds_operator.Prelude.{
  ℕ, suc, String, ◌==◌, eq_iff, ◌≡◌, refl, sym, subst, ap, ◌∙◌, inl, inr, Bool, true, false,
  Bool-cases, Option, none, some, arith, List, [], ◌∷◌, if◌then◌else◌,
}
use otc_rds_operator.Prelude.Int.{ℤ}
use otc_rds_operator.Prelude.Maps.{find_key, set_key, find_key-set_key, find_key-set_other}
use otc_rds_operator.Informers.{
  Factory, is_started, flag_or_false, make_or_keep, informer_for, launch, launch_key, start,
  period_or,
}

-- How many goroutines have been started for a type.
abbrev pub runs : {I : Type 0} → String → List (String × I) → ℕ
runs k [] = 0
runs k ((j, i) ∷ ran) = let n = runs k ran in if j == k then suc n else n

abbrev pub one_if : Bool → ℕ
one_if true = 1
one_if false = 0

-- A factory and the goroutines that it has started.
abbrev pub Running : Type 0 → Type 0 → Type 0 → Type 0
Running C O I = Factory C O I × List (String × I)

module _ {C O I : Type 0} where
  pub data Step : Running C O I → Running C O I → Type 0 where
    requested :
        (k : String) (new_func : C → ℤ → I) (p : Running C O I)
        → Step p ((informer_for k new_func p.0).1, p.1)
    started : (order : List String) (p : Running C O I) → Step p (start order p)

  pub data Reach (begin : Running C O I) : Running C O I → Type 0 where
    here : Reach begin begin
    next : {p q : Running C O I} → Reach begin p → Step p q → Reach begin q

  pub Reach-keeps :
      (P : Running C O I → Type 0)
      → ((p q : Running C O I) → Step p q → P p → P q)
      → {p q : Running C O I} → Reach p q
      → P p
      → P q
  Reach-keeps P step here h = h
  Reach-keeps P step (next {p} {q} r s) h = step p q s (Reach-keeps P step r h)

  -- A type that is marked as started has one goroutine, another has none; what runs is the informer
  -- that the factory hands out.
  abbrev pub RunsOnce : Running C O I → Type 0
  RunsOnce (f, ran) =
      (k : String)
      → (runs k ran ≡ one_if (is_started k f))
        × ((i : I) → find_key k ran ≡ some i → find_key k f.informers ≡ some i)

  launched :
      (k j : String) (i : I) (f : Factory C O I) (ran : List (String × I))
      → find_key k f.informers ≡ some i
      → is_started k f ≡ false
      → RunsOnce (f, ran)
      → (runs j ((k, i) ∷ ran)
          ≡ one_if (flag_or_false (find_key j (set_key k true f.started_informers))))
        × ((x : I) → find_key j ((k, i) ∷ ran) ≡ some x → find_key j f.informers ≡ some x)
  launched k j i f ran has new h = elim (Bool-cases (k == j)) [
    | inl same ↦ rw same (
        subst
          (λ l.
            (suc (runs l ran)
              ≡ one_if (flag_or_false (find_key l (set_key k true f.started_informers))))
            × ((x : I) → some i ≡ some x → find_key l f.informers ≡ some x))
          ((eq_iff k j).0 same)
          (
            ap suc ((h k).0 ∙ ap one_if new)
                ∙ ap (λ o. one_if (flag_or_false o))
                    (sym (find_key-set_key k true f.started_informers)),
            λ x e. has ∙ e,
          ))
    | inr other ↦ rw other (
      (h j).0
          ∙ ap (λ o. one_if (flag_or_false o))
              (sym (find_key-set_other j k true f.started_informers other)),
      (h j).1,
    )
  ]

  launch-RunsOnce :
      (k : String) (o : Option I) (b : Bool) (f : Factory C O I) (ran : List (String × I))
      → find_key k f.informers ≡ o
      → is_started k f ≡ b
      → RunsOnce (f, ran)
      → RunsOnce (launch k o b (f, ran))
  unfolding launch
  launch-RunsOnce k none b f ran has new h = h
  launch-RunsOnce k (some i) true f ran has new h = h
  launch-RunsOnce k (some i) false f ran has new h = λ j. launched k j i f ran has new h

  pub start-RunsOnce :
      (order : List String) (p : Running C O I) → RunsOnce p → RunsOnce (start order p)
  unfolding start launch_key
  start-RunsOnce [] p h = h
  start-RunsOnce (k ∷ order) (f, ran) h =
      start-RunsOnce order (launch_key k (f, ran))
        (launch-RunsOnce k (find_key k f.informers) (is_started k f) f ran refl refl h)

  -- An informer that is in the factory stays there.
  pub make_or_keep-keeps :
      (o : Option I) (k j : String) (new_func : C → ℤ → I) (f : Factory C O I) (i : I)
      → find_key k f.informers ≡ o
      → find_key j f.informers ≡ some i
      → find_key j (make_or_keep o k new_func f).1.informers ≡ some i
  unfolding make_or_keep
  make_or_keep-keeps (some x) k j new_func f i found has = has
  make_or_keep-keeps none k j new_func f i found has = elim (Bool-cases (k == j)) [
    | inl same ↦ absurd (
        ground (arith, (eq_iff k j).0 same, ap (λ l. find_key l f.informers) ((eq_iff k j).0 same)))
    | inr other ↦
        find_key-set_other j k
          (new_func f.client (period_or f.default_resync (find_key k f.custom_resync))) f.informers
          other
        ∙ has
  ]

  make_or_keep-RunsOnce :
      (o : Option I) (k : String) (new_func : C → ℤ → I) (f : Factory C O I)
      (ran : List (String × I))
      → find_key k f.informers ≡ o
      → RunsOnce (f, ran)
      → RunsOnce ((make_or_keep o k new_func f).1, ran)
  unfolding make_or_keep
  make_or_keep-RunsOnce (some x) k new_func f ran found h = h
  make_or_keep-RunsOnce none k new_func f ran found h =
      λ j. ((h j).0, λ i e. make_or_keep-keeps none k j new_func f i found ((h j).1 i e))

  Step-RunsOnce : (p q : Running C O I) → Step p q → RunsOnce p → RunsOnce q
  unfolding informer_for
  Step-RunsOnce (f, ran) q (requested k new_func _) h =
      make_or_keep-RunsOnce (find_key k f.informers) k new_func f ran refl h
  Step-RunsOnce p q (started order _) h = start-RunsOnce order p h

  -- A factory of which no informer has been asked for.
  abbrev pub IsFresh : Factory C O I → Type 0
  IsFresh f = (f.informers ≡ []) × (f.started_informers ≡ [])

  pub IsFresh-RunsOnce : (f : Factory C O I) → IsFresh f → RunsOnce (f, [])
  IsFresh-RunsOnce f (none_made, none_started) k = (
    ap (λ m. one_if (flag_or_false (find_key k m))) (sym none_started),
    λ i e. absurd (ground arith),
  )

  -- From a factory of which no informer has been asked for, InformerFor and Start, in any order and as
  -- often as they are called, start one goroutine for each type that is marked as started and none for
  -- another, and it runs the informer that the factory hands out.
  pub Reach-RunsOnce :
      (f : Factory C O I) (p : Running C O I) → IsFresh f → Reach (f, []) p → RunsOnce p
  Reach-RunsOnce f p fresh r = Reach-keeps RunsOnce Step-RunsOnce r (IsFresh-RunsOnce f fresh)
