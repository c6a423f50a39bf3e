-- ===== src/Instance/Delete/Backup.antt =====
-- pkg/controller/resource.go: the backup of rdsDelete before it deletes an instance.
use otc_rds_operator.Prelude.{String, ◌≡◌, ◌≢◌, ◌⊎◌, refl, [], ◌∷◌, arith}
use otc_rds_operator.Rds.{Rds}
use otc_rds_operator.Cloud.{
  Env, Call, Answer, Trace, ok, create_backup, wait_backup, delete_instance,
}
use otc_rds_operator.Exec.{State, done, ◌>>=◌}
use otc_rds_operator.Exec.Keeps.{Keeps, kept, bind-kept, Keeps-bind_after, keeps_rules}
use otc_rds_operator.Exec.Stable.{plain, deleting, kind, Stable, Keeps-perform}
use otc_rds_operator.Instance.Delete.{
  last_backup, delete_backed_up, remove_service, rds_delete, delete,
}
use otc_rds_operator.Instance.Delete.Footprint.{
  last_backup-Keeps, remove_service-Keeps, delete-Keeps_of,
}

-- A call that starts backup `b` of instance `id`.
abbrev Starts : String → String → (c : Call) → Answer c → Type 0
Starts id b (create_backup i _ _) (ok x) = (i ≡ id) × (x ≡ b)
Starts id b _ _ = ⊥

abbrev Started : String → String → Trace → Type 0
Started id b [] = ⊥
Started id b (e ∷ t) = Starts id b e.call e.reply ⊎ Started id b t

-- A call that has waited for a backup of `id` to be complete, one that was started in `t`.
abbrev Completes : String → Trace → (c : Call) → Answer c → Type 0
Completes id t (wait_backup i b) (ok _) = (i ≡ id) × Started id b t
Completes id t _ _ = ⊥

abbrev BackedUp : String → Trace → Type 0
BackedUp id [] = ⊥
BackedUp id (e ∷ t) = Completes id t e.call e.reply ⊎ BackedUp id t

abbrev MayFollow : Call → Trace → Type 0
MayFollow (delete_instance id) t = BackedUp id t
MayFollow _ t = Unit

-- Every deletion in the trace comes after a completed backup of the same instance.
abbrev pub DeletesBackedUp : Trace → Type 0
DeletesBackedUp [] = Unit
DeletesBackedUp (e ∷ t) = MayFollow e.call t × DeletesBackedUp t

abbrev IsSafe : {E : Env} → State E → Type 0
IsSafe s = DeletesBackedUp s.trace

may_follow : (c : Call) (t : Trace) → kind c ≢ deleting → MayFollow c t
may_follow (delete_instance id) t other = absurd (other refl)
may_follow _ t other = tt

module _ (E : Env) where
  pub IsSafe-Stable : Stable {E = E} deleting IsSafe
  IsSafe-Stable = record {
    calls = λ c other a w s h. (may_follow c s.trace other, h);
    env = λ g p s h. h;
    writes = λ f same s h. h;
  }

  -- `last_backup` ends without an error only if the backup is complete.
  last_backup-BackedUp :
      (r : Rds) (s : State E)
      → (last_backup E r s).0 ≡ done tt
      → BackedUp r.status.id (last_backup E r s).1.trace
  unfolding last_backup ◌>>=◌
  last_backup-BackedUp r s h = ground arith

  delete_backed_up-IsSafe :
      (r : Rds) (s : State E)
      → BackedUp r.status.id s.trace
      → IsSafe s
      → IsSafe (delete_backed_up E r s).1
  unfolding delete_backed_up ◌>>=◌
  delete_backed_up-IsSafe r s b h = ground arith

  other : plain ≢ deleting
  other e = cc

  tail-IsSafe :
      (r : Rds)
      → Keeps IsSafe (last_backup E r >>= λ _. delete_backed_up E r >>= λ _. remove_service E r)
  tail-IsSafe r =
      Keeps-bind_after (λ _ s. BackedUp r.status.id s.trace) (last_backup E r)
        (λ _. delete_backed_up E r >>= λ _. remove_service E r)
        (last_backup-Keeps IsSafe-Stable other r) (λ s u d. last_backup-BackedUp r s d)
        λ u s b h.
          bind-kept (delete_backed_up E r) (λ _. remove_service E r) s
            (delete_backed_up-IsSafe r s b h) (λ _. remove_service-Keeps IsSafe-Stable other r)

  rds_delete-IsSafe : Keeps IsSafe (rds_delete E)
  unfolding rds_delete
  rds_delete-IsSafe = search (keeps_rules, Keeps-perform IsSafe-Stable, other, tail-IsSafe) depth 8

  -- Whatever the world answers, Delete requests the deletion of an instance only after a backup of
  -- it has been started and the wait for that backup has ended without an error, if that holds of
  -- the deletions made before.
  pub delete-DeletesBackedUp :
      (s : State E) → DeletesBackedUp s.trace → DeletesBackedUp (delete E s).1.trace
  delete-DeletesBackedUp s h =
      kept (delete-Keeps_of IsSafe-Stable other (λ e. cc) rds_delete-IsSafe) s h
