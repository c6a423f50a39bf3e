-- ===== src/Controller/Start.antt =====
-- pkg/controller/controller.go: New and Run. The informer and the workers run in goroutines of their
-- own; what they do is in Handlers, Worker and Steps.
use otc_rds_operator.Prelude.{ℕ, zero, suc, String, List, Bool, not, if◌then◌else◌}
use otc_rds_operator.Prelude.Int.{ℤ, pos_part, mul_int}
use otc_rds_operator.Cloud.{
  Env, start_informer, wait_cache_sync, start_worker, wait_done, shut_down_queue,
}
use otc_rds_operator.Exec.{Exec, pure, raise, finally, perform, ◌>>=◌, ◌>>◌}
use otc_rds_operator.Config.Duration.{second}
use otc_rds_operator.Flavor.{Uniq}
use otc_rds_operator.Informers.{Factory, new_shared}
use otc_rds_operator.Informers.Resource.{ListWatch, rdss, informer}
use otc_rds_operator.Smn.Server.{smn_receiver}

-- The fields that the controller keeps of its arguments, and how often its informer hands all
-- resources to updateRds again, in nanoseconds.
pub record Controller : Type 0 where
  pub namespace : String
  pub watchnamespaces : String
  pub refreshtime : ℤ
  pub resync : ℤ

-- New
unfoldable pub new_controller : String → String → ℤ → Controller
unfolding mul_int
new_controller namespace watchnamespaces refreshtime = record {
  namespace = namespace;
  watchnamespaces = watchnamespaces;
  refreshtime = refreshtime;
  resync = mul_int refreshtime second;
}

-- New: the informer, with the calls that make it, and the factory that shares it.
module _ {C O I R W : Type 0} (list : C → String → O → R) (watch : C → String → O → W)
    (new_informer : ListWatch O R W → ℤ → List String → I) where
  unfoldable pub own_informer : C → ℤ → I × Factory C O I
  unfolding new_shared rdss informer mul_int
  own_informer rds_client_set refreshtime =
      let f : Factory C O I = new_shared rds_client_set (mul_int refreshtime second) in
      informer list watch new_informer (rdss f) f

module _ (uniq : Uniq) (E : Env) where
  unfoldable pub start_workers : ℕ → Exec E Unit
  start_workers zero = pure tt
  start_workers (suc n) = do _ ← perform E start_worker; start_workers n

  -- The receiver, and the wait for the end.
  unfoldable pub receive : Exec E Unit
  unfolding smn_receiver
  receive = do smn_receiver uniq E; _ ← perform E wait_done; pure tt

  -- What follows the wait for the caches.
  unfoldable pub after_sync : ℤ → Bool → Exec E Unit
  unfolding start_workers receive
  after_sync num_workers synced =
      if not synced
      then raise "failed to wait for informers caches to sync"
      else do start_workers (pos_part num_workers); receive

  unfoldable pub run_informed : ℤ → Exec E Unit
  unfolding after_sync
  run_informed num_workers = do
    _ ← perform E start_informer
    synced ← perform E wait_cache_sync
    after_sync num_workers synced

  -- Run
  unfoldable pub run : ℤ → Exec E Unit
  unfolding run_informed finally
  run num_workers = finally (run_informed num_workers) (perform E shut_down_queue)
