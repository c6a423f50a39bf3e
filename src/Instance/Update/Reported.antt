-- ===== src/Instance/Update/Reported.antt =====
-- pkg/controller/resource.go: what the look-up at the start of rdsUpdate has established for the rest
-- of it.
use otc_rds_operator.Prelude.{
  ℕ, String, ◌==◌, ◌≡◌, ◌≢◌, ◌⊎◌, [], ◌∷◌, arith, Bool, true, false, Option, none, some, subst, sym,
  if◌then◌else◌,
}
use otc_rds_operator.Prelude.Int.{ℤ}
use otc_rds_operator.Rds.{Rds, RdsSpec, instance_name}
use otc_rds_operator.Cloud.{
  Env, Call, Answer, Trace, ok, Instance, Service, list_instances, by_name, rds_v3, enlarge_volume,
}
use otc_rds_operator.Exec.{State, Exec, done, raise, wrap_error, perform, deref, ◌>>=◌, ◌>>◌}
use otc_rds_operator.Exec.Keeps.{
  Keeps, keeps, kept, deref-kept, bind-weaken, bind_after-weaken, Keeps-both, Keeps-wrap_error,
  keeps_rules,
}
use otc_rds_operator.Exec.Stable.{Kind, plain, Stable}
use otc_rds_operator.Instance.Provider.{get_provider, set_provider_env, open_client}
use otc_rds_operator.Instance.Lookup.{rds_get_by_name}
use otc_rds_operator.Instance.Footprint.{
  rds_get_by_name-Keeps, get_provider-Keeps, open_client-Keeps,
}
use otc_rds_operator.Instance.Update.Parts.{enlarge, resize}
use otc_rds_operator.Instance.Update.{finish, rds_update, update}

-- A look-up of that name that found, as the first instance, one with that size of its volume.
abbrev Reports : String → ℤ → (c : Call) → Answer c → Type 0
Reports name size (list_instances (by_name n)) (ok (ok (i ∷ rest))) =
    (n ≡ name) × (i.volume_size ≡ size)
Reports name size _ _ = ⊥

-- Another call than a look-up of an instance or an enlargement.
abbrev IsApart : Call → Type 0
IsApart (list_instances q) = ⊥
IsApart (enlarge_volume size id) = ⊥
IsApart _ = Unit

-- The last look-up of an instance was of that name and reported that size, and no volume has been
-- enlarged since.
abbrev pub Reported : String → ℤ → Trace → Type 0
Reported name size [] = ⊥
Reported name size (e ∷ t) =
    Reports name size e.call e.reply ⊎ (IsApart e.call × Reported name size t)

abbrev Found : {E : Env} → String → Option Instance → State E → Type 0
Found name none s = Unit
Found name (some i) s = Reported name i.volume_size s.trace

-- The code at hand still has this resource.
abbrev pub IsAt : {E : Env} → Rds → State E → Type 0
IsAt r s = s.rds ≡ r

module _ (E : Env) where
  perform-IsAt : (r : Rds) (c : Call) → Keeps (IsAt r) (perform E c)
  unfolding perform
  perform-IsAt r c = keeps (λ s h. h)

  set_provider_env-IsAt : (r : Rds) → Keeps (IsAt r) (set_provider_env E)
  unfolding set_provider_env
  set_provider_env-IsAt r = keeps (λ s h. h)

  get_provider-IsAt : (r : Rds) → Keeps (IsAt r) (get_provider E)
  unfolding get_provider
  get_provider-IsAt r = search (keeps_rules, perform-IsAt r, set_provider_env-IsAt r) depth 16

  open_client-IsAt :
      (r : Rds) (service : Service) (e : String) → Keeps (IsAt r) (open_client E service e)
  unfolding open_client
  open_client-IsAt r service e = search (keeps_rules, perform-IsAt r) depth 8

  look_up : Rds → Exec E (Option Instance)
  look_up r = wrap_error "error getting rdsGetByName: " (rds_get_by_name E r.name r.namespace)

  look_up-IsAt : (r at : Rds) → Keeps (IsAt at) (look_up r)
  unfolding look_up rds_get_by_name
  look_up-IsAt r at = search (keeps_rules, perform-IsAt at) depth 16

  look_up-Found :
      (r : Rds) (s : State E) (o : Option Instance)
      → (look_up r s).0 ≡ done o
      → Found (instance_name r) o (look_up r s).1
  unfolding look_up rds_get_by_name ◌>>=◌
  look_up-Found r s none h = tt
  look_up-Found r s (some i) h = ground arith

  -- What rdsUpdate does with the instance that it has found.
  abbrev pub after_look_up : ℕ → RdsSpec → Instance → Exec E Unit
  after_look_up fuel old i = do enlarge E i.volume_size; resize E i.flavor_ref; finish E fuel old

  -- rdsUpdate, once it has read the resource.
  abbrev from_read : ℕ → RdsSpec → Rds → Exec E Unit
  from_read fuel old r =
      if r.status.id == ""
      then raise "rdsUpdate failed, Rds.Status.Id is empty"
      else look_up r >>= λ o. deref o >>= after_look_up fuel old

  module _ {k : Kind} {P : State E → Type 0} (S : Stable k P) (other : plain ≢ k) (r : Rds)
      (fuel : ℕ) (old : RdsSpec)
      (after : (i : Instance) (s : State E)
        → Reported (instance_name r) i.volume_size s.trace
        → IsAt r s
        → P s
        → P (after_look_up fuel old i s).1) where
    look_up-Keeps : Keeps P (look_up r)
    unfolding look_up
    look_up-Keeps = search (keeps_rules, rds_get_by_name-Keeps S other)

    looked_up-kept :
        (s : State E)
        → P s
        → IsAt r s
        → P ((look_up r >>= λ o. deref o >>= after_look_up fuel old) s).1
    looked_up-kept s h at =
        bind_after-weaken (λ t. P t × IsAt r t) P (λ t x. x.0) (look_up r) _ s
          (kept (Keeps-both look_up-Keeps (look_up-IsAt r r)) s (h, at))
          λ o e (p, still). deref-kept P o (after_look_up fuel old) (look_up r s).1 p λ i is.
            after i (look_up r s).1
              (subst (λ x. Found (instance_name r) x (look_up r s).1) is (look_up-Found r s o e))
              still p

    if-kept :
        (b : Bool) (e : String) (m : Exec E Unit) (s : State E)
        → P s
        → P (m s).1
        → P ((if b then raise e else m) s).1
    unfolding raise
    if-kept true e m s h k = h
    if-kept false e m s h k = k

    rds_update-kept : (s : State E) → P s → s.rds ≡ r → P (rds_update E fuel old s).1
    unfolding rds_update look_up ◌>>=◌
    rds_update-kept s h at =
        subst (λ x. P (from_read fuel old x s).1) (sym at)
          (if-kept (r.status.id == "") "rdsUpdate failed, Rds.Status.Id is empty"
            (look_up r >>= λ o. deref o >>= after_look_up fuel old) s h (looked_up-kept s h at))

    -- Update keeps what the rest of rdsUpdate keeps from such a report on.
    pub update-kept_from : (s : State E) → P s → s.rds ≡ r → P (update E fuel old s).1
    unfolding update ◌>>=◌
    update-kept_from s h at =
        let provider = Keeps-both (get_provider-Keeps S other) (get_provider-IsAt r) in
        let client =
          Keeps-both (open_client-Keeps S other rds_v3 "unable to initialize rds client: ")
            (open_client-IsAt r rds_v3 "unable to initialize rds client: ") in
        bind-weaken (λ t. P t × IsAt r t) P (λ t x. x.0)
          (wrap_error "unable to initialize provider: " (get_provider E)) _ s
          (Keeps-wrap_error _ _ provider)
          (λ _ t x.
            bind-weaken (λ u. P u × IsAt r u) P (λ u y. y.0) _ _ t client
              (λ _ u (p, still). rds_update-kept u p still) x)
          (h, at)
