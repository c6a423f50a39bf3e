-- ===== src/Tests/Informers.antt =====
-- The factory of the informers at concrete inputs: an informer is its type and its period.
use otc_rds_operator.Prelude.{String, ◌≡◌, refl, true, none, some, [], ◌∷◌}
use otc_rds_operator.Prelude.Int.{ℤ, pos}
use otc_rds_operator.Prelude.Maps.{find_key}
use otc_rds_operator.Informers.{
  Factory, new_filtered, with_custom_resync_config, informer_for, start,
}
use otc_rds_operator.Controller.Start.{own_informer}
use otc_rds_operator.Informers.Goroutines.{
  Running, RunsOnce, Reach, here, next, requested, started, Reach-RunsOnce,
}
use otc_rds_operator.Informers.Shared.{informer_for-shared}
use otc_rds_operator.Informers.Synced.{Serves, start-Serves}

abbrev Informer : Type 0
Informer = String × ℤ

abbrev named : String → String → ℤ → Informer
named k client period = (k, period)

abbrev factory : Factory String String Informer
factory = new_filtered "client" (pos 30) "database" none

abbrev asked : Running String String Informer
asked = ((informer_for "Rds" (named "Rds") factory).1, [])

abbrev running : Running String String Informer
running = start ("Rds" ∷ []) asked

abbrev asked_again : Running String String Informer
asked_again = ((informer_for "Pod" (named "Pod") running.0).1, running.1)

run : Reach (factory, []) asked_again
run =
    next
      (next (next here (requested "Rds" (named "Rds") (factory, []))) (started ("Rds" ∷ []) asked))
      (requested "Pod" (named "Pod") running)

later : Reach asked asked_again
later = next (next here (started ("Rds" ∷ []) asked)) (requested "Pod" (named "Pod") running)

-- A second Start starts the second informer only.
started_twice :
    (start ("Pod" ∷ "Rds" ∷ []) asked_again).1
    ≡ ("Pod", named "Pod" "client" (pos 30)) ∷ ("Rds", named "Rds" "client" (pos 30)) ∷ []
unfolding start informer_for new_filtered
started_twice = refl

-- A period of its own.
custom_period :
    (informer_for "Rds" (named "Rds") (with_custom_resync_config (("Rds", pos 7) ∷ []) factory)).0
    ≡ ("Rds", pos 7)
unfolding informer_for with_custom_resync_config new_filtered
custom_period = refl

made : find_key "Rds" asked_again.0.informers ≡ some ("Rds", pos 30)
unfolding informer_for start new_filtered
made = refl

fresh : (factory.informers ≡ []) × (factory.started_informers ≡ [])
unfolding new_filtered
fresh = (refl, refl)

Reach-RunsOnce_example : RunsOnce asked_again
Reach-RunsOnce_example = Reach-RunsOnce factory asked_again fresh run

informer_for-shared_example :
    (informer_for "Rds" (named "Other") asked_again.0).0
    ≡ (informer_for "Rds" (named "Rds") factory).0
informer_for-shared_example =
    informer_for-shared "Rds" (named "Rds") (named "Other") factory [] asked_again later

start-Serves_example :
    Serves (λ i. true) "Rds" ("Rds", pos 30) (start ("Pod" ∷ "Rds" ∷ []) asked_again)
start-Serves_example =
    start-Serves (λ i. true) ("Pod" ∷ "Rds" ∷ []) factory asked_again "Rds" ("Rds", pos 30) fresh
      run made refl

-- What the controller's informer asks for: the resources of every namespace, as they are listed.
own_list :
    (own_informer {C = String} {O = String} {I = (String × String) × ℤ} {R = String × String}
      {W = String}
      (λ c ns o. (ns, o))
      (λ c ns o. "watch")
      (λ w period names. (w.list_func "options", period))
      "client"
      (pos 5)).0
    ≡ (("", "options"), pos 5000000000)
unfolding own_informer
own_list = refl
