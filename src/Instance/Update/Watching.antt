-- ===== src/Instance/Update/Watching.antt =====
-- pkg/controller/resource.go: the loop of rdsUpdate over the events of the log job's watch.
use otc_rds_operator.Prelude.{
  ℕ, zero, suc, String, ◌≡◌, ◌≢◌, ◌⊎◌, inl, inr, refl, Bool, true, false, ◌||◌, Option, none, some,
  List, [], ◌∷◌, any, arith,
}
use otc_rds_operator.Cloud.{
  Env, Call, Trace, revoke_token, Condition, job_complete, job_failed, other_condition, WatchEvent,
  no_object, other_object, cancelled, job_status, next_event,
}
use otc_rds_operator.Exec.{State, Exec, Outcome, waiting, perform, ◌>>=◌}
use otc_rds_operator.Instance.Update.Logs.{verdict, revoke_and, settle, watch_turn, watch_loop}

abbrev Revokes : String → Call → Type 0
Revokes token (revoke_token x) = x ≡ token
Revokes token _ = ⊥

-- The token has been revoked.
abbrev pub Revoked : String → Trace → Type 0
Revoked token [] = ⊥
Revoked token (e ∷ t) = Revokes token e.call ⊎ Revoked token t

-- The loop has used its turns up, or the token has been revoked.
abbrev IsSettled : {E : Env} → String → Outcome Unit × State E → Type 0
IsSettled token (r, s) = (r ≡ waiting) ⊎ Revoked token s.trace

module _ (E : Env) (token name : String) where
  settle-IsSettled :
      (again : Exec E Unit) (v : Option Bool) (s : State E)
      → IsSettled token (again s)
      → IsSettled token (settle E token name again v s)
  unfolding settle revoke_and ◌>>=◌
  settle-IsSettled again none s h = h
  settle-IsSettled again (some true) s h = inr (inl refl)
  settle-IsSettled again (some false) s h = inr (inl refl)

  watch_turn-IsSettled :
      (again : Exec E Unit) (e : WatchEvent) (s : State E)
      → IsSettled token (again s)
      → IsSettled token (watch_turn E token name again e s)
  unfolding watch_turn revoke_and ◌>>=◌
  watch_turn-IsSettled again no_object s h = inr (inl refl)
  watch_turn-IsSettled again other_object s h = inr (inl refl)
  watch_turn-IsSettled again cancelled s h = inr (inl refl)
  watch_turn-IsSettled again (job_status conditions) s h =
      settle-IsSettled again (verdict conditions) s h

  -- Whatever events come: unless the loop is still waiting after its turns, it has revoked the token,
  -- on success and on every error.
  pub watch_loop-Revoked :
      (fuel : ℕ) (s : State E)
      → ((watch_loop E fuel token name s).0 ≡ waiting)
        ⊎ Revoked token (watch_loop E fuel token name s).1.trace
  unfolding watch_loop ◌>>=◌
  watch_loop-Revoked zero s = inl refl
  watch_loop-Revoked (suc fuel) s =
      watch_turn-IsSettled (watch_loop E fuel token name) (E.answer next_event s.world).0
        (perform E next_event s).1 (watch_loop-Revoked fuel (perform E next_event s).1)

abbrev pub decided : Option Bool → Bool
decided none = false
decided (some b) = true

-- The job has ended: JobComplete or JobFailed.
abbrev pub is_end : Condition → Bool
is_end job_complete = true
is_end job_failed = true
is_end other_condition = false

-- The event is no status of the job, or one in which it has ended.
abbrev pub is_final : WatchEvent → Bool
is_final (job_status conditions) = any is_end conditions
is_final _ = true

verdict-is_end :
    (conditions : List Condition)
    → any is_end conditions ≡ true
    → decided (verdict conditions) ≡ true
unfolding verdict
verdict-is_end [] h = ground arith
verdict-is_end (job_complete ∷ rest) h = refl
verdict-is_end (job_failed ∷ rest) h = refl
verdict-is_end (other_condition ∷ rest) h = verdict-is_end rest h

module _ (E : Env) where
  -- One of the next events is final.
  unfoldable pub ends_within : ℕ → E.World → Bool
  ends_within zero w = false
  ends_within (suc fuel) w =
      let (e, after) = E.answer next_event w in is_final e || ends_within fuel after

module _ (E : Env) (token name : String) where
  settle-ends :
      (again : Exec E Unit) (v : Option Bool) (s : State E)
      → (decided v ≡ true) ⊎ ((again s).0 ≢ waiting)
      → (settle E token name again v s).0 ≢ waiting
  unfolding settle revoke_and ◌>>=◌
  settle-ends again none s (inl h) = ground arith
  settle-ends again none s (inr h) = h
  settle-ends again (some true) s h = λ e. cc
  settle-ends again (some false) s h = λ e. cc

  watch_turn-ends :
      (again : Exec E Unit) (e : WatchEvent) (s : State E)
      → (is_final e ≡ true) ⊎ ((again s).0 ≢ waiting)
      → (watch_turn E token name again e s).0 ≢ waiting
  unfolding watch_turn revoke_and ◌>>=◌
  watch_turn-ends again no_object s h = λ e. cc
  watch_turn-ends again other_object s h = λ e. cc
  watch_turn-ends again cancelled s h = λ e. cc
  watch_turn-ends again (job_status conditions) s (inl h) =
      settle-ends again (verdict conditions) s (inl (verdict-is_end conditions h))
  watch_turn-ends again (job_status conditions) s (inr h) =
      settle-ends again (verdict conditions) s (inr h)

  or_split : (a b : Bool) → (a || b) ≡ true → (a ≡ true) ⊎ (b ≡ true)
  or_split true b h = inl refl
  or_split false b h = inr h

  watch_loop-not_waiting :
      (fuel : ℕ) (s : State E)
      → ends_within E fuel s.world ≡ true
      → (watch_loop E fuel token name s).0 ≢ waiting
  unfolding watch_loop ends_within ◌>>=◌
  watch_loop-not_waiting zero s h = ground arith
  watch_loop-not_waiting (suc fuel) s h =
      let (e, w) = E.answer next_event s.world in
      let t = (perform E next_event s).1 in
      watch_turn-ends (watch_loop E fuel token name) e t
        (elim (or_split (is_final e) (ends_within E fuel w) h) [
          | inl now ↦ inl now
          | inr later ↦ inr (watch_loop-not_waiting fuel t later)
        ])

  -- If one of the next events is none of a job, or a status in which the job is complete or has failed,
  -- as many turns as it takes to come to it are enough: the loop does not wait on, and it has revoked the
  -- token.
  pub watch_loop-ends :
      (fuel : ℕ) (s : State E)
      → ends_within E fuel s.world ≡ true
      → ((watch_loop E fuel token name s).0 ≢ waiting)
        × Revoked token (watch_loop E fuel token name s).1.trace
  watch_loop-ends fuel s h =
      let still = watch_loop-not_waiting fuel s h in
      (
        still,
        elim (watch_loop-Revoked E token name fuel s) [
          | inl stuck ↦ absurd (still stuck)
          | inr r ↦ r
        ],
      )
