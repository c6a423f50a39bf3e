-- ===== src/Informers/Synced.antt =====
-- pkg/rds/v1alpha1/apis/informers/externalversions/factory.go: what Start and WaitForCacheSync do
-- together.
use otc_rds_operator.Prelude.{
  String, ◌==◌, eq_iff, ◌≡◌, refl, sym, subst, ap, ◌∙◌, inl, inr, Bool, true, false, Bool-cases,
  Option, none, some, List, [], ◌∷◌, arith, slice_contains,
}
use mathlib.Core.Option.{map as option_map}
use otc_rds_operator.Prelude.Maps.{find_key, set_key, find_key-set_key, find_key-set_other}
use otc_rds_operator.Informers.{
  Factory, is_started, flag_or_false, launch, launch_key, start, collect, await_all,
  wait_for_cache_sync,
}
use otc_rds_operator.Informers.Goroutines.{
  Running, Reach, runs, one_if, RunsOnce, IsFresh, Reach-RunsOnce, start-RunsOnce,
}
use otc_rds_operator.Informers.Shared.{launch-informers, start-informers}

-- A type that has a goroutine has a last one.
last_run :
    {I : Type 0}
    → (k : String) (ran : List (String × I)) → runs k ran ≡ 1
    → (i : I) × (find_key k ran ≡ some i)
last_run k [] one = absurd (ground arith)
last_run k ((j, i) ∷ ran) one = elim (Bool-cases (j == k)) [
  | inl same ↦ (i, rw same refl)
  | inr other ↦ let (x, e) = last_run k ran (ground (arith, one, other)) in (x, rw other e)
]

find_key-await_all :
    {I : Type 0}
    → (synced : I → Bool) (k : String) (m : List (String × I))
    → find_key k (await_all synced m) ≡ option_map synced (find_key k m)
unfolding await_all
find_key-await_all synced k [] = refl
find_key-await_all synced k ((j, x) ∷ m) = elim (Bool-cases (j == k)) [
  | inl same ↦ rw same refl
  | inr other ↦ rw other (find_key-await_all synced k m)
]

module _ {C O I : Type 0} where
  find_key-collect :
      (f : Factory C O I) (k : String) (m : List (String × I))
      → is_started k f ≡ true
      → find_key k (collect f m) ≡ find_key k m
  unfolding collect
  find_key-collect f k [] on = refl
  find_key-collect f k ((j, x) ∷ m) on = elim (Bool-cases (j == k)) [
    | inl same ↦ rw (ap (λ z. is_started z f) ((eq_iff j k).0 same) ∙ on) (rw same refl)
    | inr other ↦ elim (Bool-cases (is_started j f)) [
      | inl kept ↦ rw kept (rw other (find_key-collect f k m on))
      | inr off ↦ rw off (rw other (find_key-collect f k m on))
    ]
  ]

  is_started-launch :
      (k j : String) (o : Option I) (b : Bool) (f : Factory C O I) (ran : List (String × I))
      → is_started j f ≡ true
      → is_started j (launch k o b (f, ran)).0 ≡ true
  unfolding launch
  is_started-launch k j none b f ran on = on
  is_started-launch k j (some i) true f ran on = on
  is_started-launch k j (some i) false f ran on = elim (Bool-cases (k == j)) [
    | inl same ↦
        subst (λ z. flag_or_false (find_key z (set_key k true f.started_informers)) ≡ true)
          ((eq_iff k j).0 same) (ap flag_or_false (find_key-set_key k true f.started_informers))
    | inr other ↦ ap flag_or_false (find_key-set_other j k true f.started_informers other) ∙ on
  ]

  is_started-launched :
      (k : String) (i : I) (b : Bool) (f : Factory C O I) (ran : List (String × I))
      → is_started k f ≡ b
      → is_started k (launch k (some i) b (f, ran)).0 ≡ true
  unfolding launch
  is_started-launched k i true f ran on = on
  is_started-launched k i false f ran off =
      ap flag_or_false (find_key-set_key k true f.started_informers)

  is_started-start :
      (k : String) (order : List String) (p : Running C O I)
      → is_started k p.0 ≡ true
      → is_started k (start order p).0 ≡ true
  unfolding start launch_key
  is_started-start k [] p on = on
  is_started-start k (j ∷ order) (f, ran) on =
      is_started-start k order (launch_key j (f, ran))
        (is_started-launch j k (find_key j f.informers) (is_started j f) f ran on)

  is_started-launch_key :
      (k : String) (i : I) (p : Running C O I)
      → find_key k p.0.informers ≡ some i
      → is_started k (launch_key k p).0 ≡ true
  unfolding launch_key
  is_started-launch_key k i (f, ran) has =
      rw has (is_started-launched k i (is_started k f) f ran refl)

  is_started-reached :
      (k : String) (i : I) (order : List String) (p : Running C O I)
      → find_key k p.0.informers ≡ some i
      → slice_contains order k ≡ true
      → is_started k (start order p).0 ≡ true
  unfolding start launch_key
  is_started-reached k i [] p has reached = absurd (ground arith)
  is_started-reached k i (j ∷ order) (f, ran) has reached = elim (Bool-cases (j == k)) [
    | inl same ↦ is_started-start k order (launch_key j (f, ran)) (
        subst (λ z. is_started k (launch_key z (f, ran)).0 ≡ true) (sym ((eq_iff j k).0 same))
          (is_started-launch_key k i (f, ran) has))
    | inr other ↦
        is_started-reached k i order (launch_key j (f, ran))
          (ap (find_key k) (launch-informers j (find_key j f.informers) (is_started j f) (f, ran))
            ∙ has)
          (ground (arith, reached, other))
  ]

  -- The goroutine, the informer that it runs, and what WaitForCacheSync answers.
  abbrev pub Serves : (I → Bool) → String → I → Running C O I → Type 0
  Serves synced k i (f, ran) =
      (runs k ran ≡ 1)
      × (find_key k ran ≡ some i)
      × (find_key k (wait_for_cache_sync synced f) ≡ some (synced i))

  served :
      (synced : I → Bool) (k : String) (i : I) (p : Running C O I)
      → RunsOnce p
      → find_key k p.0.informers ≡ some i
      → is_started k p.0 ≡ true
      → Serves synced k i p
  unfolding wait_for_cache_sync
  served synced k i (f, ran) once has on =
      let one = (once k).0 ∙ ap one_if on in
      let (x, last) = last_run k ran one in
      (
        one,
        last ∙ sym ((once k).1 x last) ∙ has,
        find_key-await_all synced k (collect f f.informers)
            ∙ ap (option_map synced) (find_key-collect f k f.informers on ∙ has),
      )

  -- Whatever has been asked for and started before, after a Start that comes upon the key of an informer
  -- of the factory this informer runs in exactly one goroutine, and WaitForCacheSync reports on its type
  -- what the wait for this informer's cache answers.
  pub start-Serves :
      (synced : I → Bool) (order : List String) (f : Factory C O I) (p : Running C O I) (k : String)
      (i : I)
      → IsFresh f
      → Reach (f, []) p
      → find_key k p.0.informers ≡ some i
      → slice_contains order k ≡ true
      → Serves synced k i (start order p)
  start-Serves synced order f p k i fresh r has reached =
      served synced k i (start order p) (start-RunsOnce order p (Reach-RunsOnce f p fresh r))
        (ap (find_key k) (start-informers order p) ∙ has)
        (is_started-reached k i order p has reached)
