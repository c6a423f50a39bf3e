-- ===== src/Smn/Scaling.antt =====
-- pkg/controller/autopilot.go: what the handler of SmnReceiver writes to a resource.
use otc_rds_operator.Prelude.{
  String, ◌≡◌, ◌≢◌, ◌⊎◌, inl, inr, refl, ap, List, [], ◌∷◌, Option, none, some,
}
use otc_rds_operator.Prelude.Int.{ℤ, pos, add_int}
use otc_rds_operator.Rds.{Rds, RdsSpec}
use otc_rds_operator.Cloud.{
  Env, Call, Answer, Trace, Reply, ok, failed, Flavor, get_rds, update_rds_in,
}
use otc_rds_operator.Exec.{State, Exec, perform, ◌>>=◌, ◌>>◌}
use otc_rds_operator.Exec.Keeps.{Keeps, keeps, kept, keeps_rules}
use otc_rds_operator.Exec.Stable.{plain, scaling, kind}
use otc_rds_operator.Instance.Provider.{set_provider_env, get_provider, open_client}
use otc_rds_operator.Flavor.{Uniq, answered, found, choose, rds_flavor_lookup}
use otc_rds_operator.Smn.Receiver.{
  Subscriber, set_volumesize, set_flavorref, attempt, or_crash, fetch, on_disk, use_flavor, on_load,
  on_message, on_event, on_post,
}

-- The second resource is the first one with another volume size and another flavor.
abbrev pub Scaled : Rds → Rds → Type 0
Scaled r0 r = r ≡ set_volumesize r.spec.volumesize (set_flavorref r.spec.flavorref r0)

-- The call has read that resource.
abbrev Reads : String → Rds → (c : Call) → Answer c → Type 0
Reads namespace r0 (get_rds n _) (r, _) = (n ≡ namespace) × (r ≡ r0)
Reads namespace r0 _ _ = ⊥

-- The resource has been read, in that namespace.
abbrev WasRead : String → Rds → Trace → Type 0
WasRead namespace r0 [] = ⊥
WasRead namespace r0 (e ∷ t) = Reads namespace r0 e.call e.reply ⊎ WasRead namespace r0 t

abbrev MayFollow : Call → Trace → Type 0
MayFollow (update_rds_in namespace r) t = (r0 : Rds) × WasRead namespace r0 t × Scaled r0 r
MayFollow _ t = Unit

-- Every resource that is written was read before, and differs from what was read in its volume size
-- and its flavor at most.
abbrev pub OnlyScales : Trace → Type 0
OnlyScales [] = Unit
OnlyScales (e ∷ t) = MayFollow e.call t × OnlyScales t

may_follow : (c : Call) (t : Trace) → kind c ≢ scaling → MayFollow c t
may_follow (update_rds_in n r) t other = absurd (other refl)
may_follow _ t other = tt

other : plain ≢ scaling
other e = cc

set_volumesize-Scaled : (n : ℤ) (r0 r : Rds) → Scaled r0 r → Scaled r0 (set_volumesize n r)
set_volumesize-Scaled n r0 r h = ap (set_volumesize n) h

set_flavorref-Scaled : (x : String) (r0 r : Rds) → Scaled r0 r → Scaled r0 (set_flavorref x r)
set_flavorref-Scaled x r0 r h = ap (set_flavorref x) h

module _ {E : Env} (namespace : String) (r0 : Rds) where
  -- Between the read and the writes.
  abbrev IsScaling : State E → Type 0
  IsScaling s = WasRead namespace r0 s.trace × Scaled r0 s.rds × OnlyScales s.trace

  Keeps-plain : (c : Call) → kind c ≢ scaling → Keeps IsScaling (perform E c)
  unfolding perform
  Keeps-plain c other = keeps (λ s h. (inr h.0, h.1, (may_follow c s.trace other, h.2)))

  set_provider_env-Keeps : Keeps IsScaling (set_provider_env E)
  unfolding set_provider_env
  set_provider_env-Keeps = keeps (λ s h. h)

  found-Keeps : (o : Option String) → Keeps IsScaling (found o)
  found-Keeps none = search keeps_rules
  found-Keeps (some x) = search keeps_rules

  on_disk-Keeps : (uniq : Uniq) → Keeps IsScaling (on_disk uniq E namespace)
  unfolding on_disk ◌>>=◌
  on_disk-Keeps uniq = keeps λ s h.
      let scaled = set_volumesize-Scaled (add_int s.rds.spec.volumesize (pos 10)) r0 s.rds h.1 in
      (inr h.0, scaled, ((r0, h.0, scaled), h.2))

  use_flavor-Keeps :
      (uniq : Uniq) (o : Reply String) → Keeps IsScaling (use_flavor uniq E namespace o)
  unfolding use_flavor ◌>>=◌
  use_flavor-Keeps uniq (failed e) = keeps (λ s h. h)
  use_flavor-Keeps uniq (ok x) = keeps λ s h.
      let scaled = set_flavorref-Scaled x r0 s.rds h.1 in
      (inr h.0, scaled, ((r0, h.0, scaled), h.2))

  Keeps-attempt : {A : Type 0} (m : Exec E A) → Keeps IsScaling m → Keeps IsScaling (attempt m)
  unfolding attempt
  Keeps-attempt m k = keeps (kept k)

  get_provider-Keeps : Keeps IsScaling (get_provider E)
  unfolding get_provider
  get_provider-Keeps = search (keeps_rules, Keeps-plain, other, set_provider_env-Keeps) depth 20

  answered-Keeps :
      (uniq : Uniq) (spec : RdsSpec) (raisetype : String) (pages : Reply (Reply (List Flavor)))
      → Keeps IsScaling (answered uniq E spec raisetype pages)
  unfolding answered
  answered-Keeps uniq spec raisetype (failed e) = search keeps_rules
  answered-Keeps uniq spec raisetype (ok (failed e)) = search keeps_rules
  answered-Keeps uniq spec raisetype (ok (ok flavors)) =
      found-Keeps (choose uniq spec raisetype flavors)

  rds_flavor_lookup-Keeps :
      (uniq : Uniq) (raisetype : String) → Keeps IsScaling (rds_flavor_lookup uniq E raisetype)
  unfolding rds_flavor_lookup open_client
  rds_flavor_lookup-Keeps uniq raisetype =
      search (keeps_rules, Keeps-plain, other, get_provider-Keeps, answered-Keeps) depth 20

  on_message-Keeps :
      (uniq : Uniq) (message : String) → Keeps IsScaling (on_message uniq E namespace message)
  unfolding on_message on_load
  on_message-Keeps uniq message =
      search (keeps_rules, on_disk-Keeps, Keeps-attempt, rds_flavor_lookup-Keeps, use_flavor-Keeps)
        depth 20

module _ (uniq : Uniq) (E : Env) where
  abbrev IsSafe : State E → Type 0
  IsSafe s = OnlyScales s.trace

  perform-Keeps : (c : Call) → kind c ≢ scaling → Keeps IsSafe (perform E c)
  unfolding perform
  perform-Keeps c other = keeps (λ s h. (may_follow c s.trace other, h))

  or_crash-Keeps : (r : Reply Unit) → Keeps IsSafe (or_crash r)
  unfolding or_crash
  or_crash-Keeps (ok a) = search keeps_rules
  or_crash-Keeps (failed e) = search keeps_rules

  -- From the read of the resource on.
  act : String → String → String → Exec E Unit
  act namespace rds_name message = do
    (return_rds, _) ← perform E (get_rds namespace rds_name)
    fetch uniq E return_rds
    on_message uniq E namespace message

  act-Keeps : (namespace rds_name message : String) → Keeps IsSafe (act namespace rds_name message)
  unfolding act perform fetch ◌>>=◌
  act-Keeps namespace rds_name message = keeps λ s h.
      let ((r, e), w) = E.answer (get_rds namespace rds_name) s.world in
      (kept (on_message-Keeps namespace r uniq message) _ (inl (refl, refl), refl, (tt, h))).2

  on_event-Keeps : (subscriber : Subscriber) → Keeps IsSafe (on_event uniq E subscriber)
  unfolding on_event act
  on_event-Keeps subscriber =
      search (keeps_rules, perform-Keeps, other, or_crash-Keeps, act-Keeps) depth 20

  on_post-Keeps : (subscriber : Subscriber) → Keeps IsSafe (on_post uniq E subscriber)
  unfolding on_post
  on_post-Keeps subscriber = search (keeps_rules, perform-Keeps, other, on_event-Keeps) depth 20

  -- Whatever a notification says and the world answers: the handler of SmnReceiver writes a resource
  -- back only in the namespace in which it has read it, and changes nothing of what it has read but
  -- the volume size and the flavor, if that holds of the writes made before.
  pub on_post-OnlyScales :
      (subscriber : Subscriber) (s : State E)
      → OnlyScales s.trace
      → OnlyScales (on_post uniq E subscriber s).1.trace
  on_post-OnlyScales subscriber s h = kept (on_post-Keeps subscriber) s h
