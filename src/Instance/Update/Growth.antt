-- ===== src/Instance/Update/Growth.antt =====
-- pkg/controller/resource.go: the size of a volume in rdsUpdate.
use otc_rds_operator.Prelude.{ℕ, ◌≡◌, ap, ◌≢◌, inl, inr, refl, [], ◌∷◌, arith, true, Bool-cases}
use otc_rds_operator.Prelude.Int.{ℤ, ◌<ℤ◌, ltb_ℤ}
use otc_rds_operator.Rds.{Rds, RdsSpec, instance_name}
use otc_rds_operator.Cloud.{Env, Call, Trace, Instance, enlarge_volume}
use otc_rds_operator.Exec.{State, ◌>>=◌}
use otc_rds_operator.Exec.Keeps.{bind-kept, Keeps-bind}
use otc_rds_operator.Exec.Stable.{plain, enlarging, kind, Stable}
use otc_rds_operator.Instance.Update.Parts.{request_enlarge, after_enlarge, enlarge, resize}
use otc_rds_operator.Alarm.Footprint.{create_alarms-Keeps}
use otc_rds_operator.Instance.Update.Footprint.{after_enlarge-Keeps, resize-Keeps, finish-Keeps}
use otc_rds_operator.Instance.Update.Reported.{Reported, IsAt, after_look_up, update-kept_from}
use otc_rds_operator.Instance.Update.{update}

-- For a resource: an enlargement is of its instance to the size that it asks for, which is above the one
-- that the last look-up of an instance has reported, a look-up by its name.
module _ (r : Rds) where
  abbrev MayFollow : Call → Trace → Type 0
  MayFollow (enlarge_volume size id) t =
      (id ≡ r.status.id)
      × (size ≡ r.spec.volumesize)
      × ((actual : ℤ) × Reported (instance_name r) actual t × (actual <ℤ size))
  MayFollow _ t = Unit

  -- So are all enlargements in the trace.
  abbrev pub OnlyGrows : Trace → Type 0
  OnlyGrows [] = Unit
  OnlyGrows (e ∷ t) = MayFollow e.call t × OnlyGrows t

  abbrev IsSafe : {E : Env} → State E → Type 0
  IsSafe s = OnlyGrows s.trace

  may_follow : (c : Call) (t : Trace) → kind c ≢ enlarging → MayFollow c t
  may_follow (enlarge_volume size id) t other = absurd (other refl)
  may_follow _ t other = tt

other : plain ≢ enlarging
other e = cc

module _ (E : Env) (r : Rds) where
  IsSafe-Stable : Stable {E = E} enlarging (IsSafe r)
  IsSafe-Stable = record {
    calls = λ c other a w s h. (may_follow r c s.trace other, h);
    env = λ g p s h. h;
    writes = λ f same s h. h;
  }

  request_enlarge-IsSafe :
      (x : Rds) (actual : ℤ) (s : State E)
      → x ≡ r
      → Reported (instance_name r) actual s.trace
      → ltb_ℤ actual x.spec.volumesize ≡ true
      → IsSafe r s
      → IsSafe r (request_enlarge E x s).1
  unfolding request_enlarge ◌>>=◌
  request_enlarge-IsSafe x actual s at reported less h = (
    (
      ap (λ y. y.status.id) at,
      ap (λ y. y.spec.volumesize) at,
      (actual, inr (tt, reported), ground arith),
    ),
    (tt, h),
  )

  enlarge-IsSafe :
      (actual : ℤ) (s : State E)
      → s.rds ≡ r
      → Reported (instance_name r) actual s.trace
      → IsSafe r s
      → IsSafe r (enlarge E actual s).1
  unfolding enlarge ◌>>=◌
  enlarge-IsSafe actual s at reported h = elim (Bool-cases (ltb_ℤ actual s.rds.spec.volumesize)) [
    | inl less ↦ rw less (
        bind-kept (request_enlarge E s.rds) (after_enlarge E) s
          (request_enlarge-IsSafe s.rds actual s at reported less h)
          (after_enlarge-Keeps IsSafe-Stable other))
    | inr enough ↦ rw enough h
  ]

  after_look_up-IsSafe :
      (fuel : ℕ) (old : RdsSpec) (i : Instance) (s : State E)
      → Reported (instance_name r) i.volume_size s.trace
      → IsAt r s
      → IsSafe r s
      → IsSafe r (after_look_up E fuel old i s).1
  after_look_up-IsSafe fuel old i s reported at h =
      bind-kept (enlarge E i.volume_size) _ s (enlarge-IsSafe i.volume_size s at reported h) λ _.
        Keeps-bind (resize E i.flavor_ref) _
          (resize-Keeps IsSafe-Stable other (λ e. cc) i.flavor_ref)
          (λ _.
            finish-Keeps IsSafe-Stable other (λ e. cc)
              (create_alarms-Keeps IsSafe-Stable other (λ e. cc)) fuel old)

module _ (E : Env) where
  -- Whatever the world answers, each enlargement that a call of Update requests is of the instance whose
  -- id the resource has, to the size that the resource asks for, and that is above the size that the last
  -- look-up of an instance has reported, which was by the name of the resource's instance, with no
  -- enlargement since then. The requests are those from an empty trace on.
  pub update-OnlyGrows :
      (fuel : ℕ) (old : RdsSpec) (s : State E)
      → OnlyGrows s.rds (update E fuel old (record s { trace = [] })).1.trace
  update-OnlyGrows fuel old s =
      update-kept_from E (IsSafe-Stable E s.rds) other s.rds fuel old
        (after_look_up-IsSafe E s.rds fuel old) (record s { trace = [] }) tt refl
