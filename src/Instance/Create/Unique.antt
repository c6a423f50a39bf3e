-- ===== src/Instance/Create/Unique.antt =====
-- pkg/controller/resource.go: the look-up of rdsCreate before it creates an instance.
use otc_rds_operator.Prelude.{
  String, ◌≡◌, ◌≢◌, ◌⊎◌, inr, refl, [], ◌∷◌, arith, Option, none, some, subst, sym,
}
use otc_rds_operator.Rds.{Rds, instance_name}
use otc_rds_operator.Cloud.{
  Env, Call, Answer, Trace, ok, Instance, list_instances, by_name, create_instance, list_secgroups,
  list_subnets, list_vpcs,
}
use otc_rds_operator.Exec.{State, Exec, done, wrap_error, perform, ◌>>=◌}
use otc_rds_operator.Exec.Keeps.{
  Keeps, keeps, kept, bind-kept, bind-weaken, Keeps-bind_after, keeps_rules,
}
use otc_rds_operator.Exec.Stable.{plain, creating, kind, Stable}
use otc_rds_operator.Instance.Lookup.{secgroup_get, subnet_get, vpc_get, rds_get_by_name}
use otc_rds_operator.Instance.Footprint.{first_or-Keeps, rds_get_by_name-Keeps}
use otc_rds_operator.Instance.Create.{
  create_opts, refuse_existing, request_create, look_up_network, after_create, make_instance,
  rds_create, create,
}
use otc_rds_operator.Instance.Create.Footprint.{after_create-Keeps, create-Keeps_of}

-- A look-up of the name that found no instance.
abbrev FindsNone : String → (c : Call) → Answer c → Type 0
FindsNone name (list_instances (by_name n)) (ok (ok [])) = n ≡ name
FindsNone name _ _ = ⊥

-- Another call than a look-up or a creation of an instance.
abbrev IsApart : Call → Type 0
IsApart (list_instances q) = ⊥
IsApart (create_instance opts) = ⊥
IsApart _ = Unit

-- The last look-up of an instance was of that name and found none, and no instance has been created
-- since.
abbrev Free : String → Trace → Type 0
Free name [] = ⊥
Free name (e ∷ t) = FindsNone name e.call e.reply ⊎ (IsApart e.call × Free name t)

abbrev MayFollow : Call → Trace → Type 0
MayFollow (create_instance opts) t = Free opts.name t
MayFollow _ t = Unit

-- Every creation in the trace is of a name that was found to be free.
abbrev pub CreatesFree : Trace → Type 0
CreatesFree [] = Unit
CreatesFree (e ∷ t) = MayFollow e.call t × CreatesFree t

may_follow : (c : Call) (t : Trace) → kind c ≢ creating → MayFollow c t
may_follow (create_instance opts) t other = absurd (other refl)
may_follow _ t other = tt

MayFollow-apart : (c : Call) (t : Trace) → IsApart c → MayFollow c t
MayFollow-apart (create_instance opts) t apart = absurd apart
MayFollow-apart _ t apart = tt

other : plain ≢ creating
other e = cc

create_opts-name : (r : Rds) (v n g : String) → (create_opts r v n g).name ≡ instance_name r
unfolding create_opts
create_opts-name r v n g = ground arith

-- No instance of the resource's name exists, and the trace is good.
abbrev IsFree : {E : Env} → String → State E → Type 0
IsFree name s = Free name s.trace × CreatesFree s.trace

abbrev IsSafe : {E : Env} → State E → Type 0
IsSafe s = CreatesFree s.trace

module _ (E : Env) where
  pub IsSafe-Stable : Stable {E = E} creating IsSafe
  IsSafe-Stable = record {
    calls = λ c o a w s h. (may_follow c s.trace o, h);
    env = λ g p s h. h;
    writes = λ f same s h. h;
  }

  perform-IsFree : (name : String) (c : Call) → IsApart c → Keeps (IsFree name) (perform E c)
  unfolding perform
  perform-IsFree name c apart =
      keeps (λ s (f, h). (inr (apart, f), (MayFollow-apart c s.trace apart, h)))

  -- The look-up of the network looks up no instance.
  look_up_network-IsFree : (name : String) (r : Rds) → Keeps (IsFree name) (look_up_network E r)
  unfolding look_up_network secgroup_get subnet_get vpc_get
  look_up_network-IsFree name r =
      let groups = perform-IsFree name (list_secgroups r.spec.securitygroup) tt in
      let subnets = perform-IsFree name (list_subnets r.spec.subnet) tt in
      let vpcs = perform-IsFree name (list_vpcs r.spec.vpc) tt in
      search (keeps_rules, first_or-Keeps, groups, subnets, vpcs) depth 24

  request_create-IsSafe :
      (r : Rds) (v n g : String) (s : State E)
      → IsFree (instance_name r) s
      → IsSafe (request_create E r v n g s).1
  unfolding request_create ◌>>=◌
  request_create-IsSafe r v n g s h =
      (inr (tt, subst (λ x. Free x s.trace) (sym (create_opts-name r v n g)) h.0), (tt, h.1))

  make_instance-IsSafe :
      (r : Rds) (s : State E) → IsFree (instance_name r) s → IsSafe (make_instance E r s).1
  unfolding make_instance
  make_instance-IsSafe r s h =
      bind-weaken (IsFree (instance_name r)) IsSafe (λ t f. f.1) (look_up_network E r) _ s
        (look_up_network-IsFree (instance_name r) r)
        (λ (g, n, v) t f.
          bind-kept (request_create E r v n g) (after_create E) t
            (request_create-IsSafe r v n g t f) (after_create-Keeps IsSafe-Stable other))
        h

  -- What the look-up by name has established, by its result.
  abbrev Checked : Rds → Option Instance → State E → Type 0
  Checked r none s = Free (instance_name r) s.trace
  Checked r (some i) s = Unit

  check : Rds → Exec E (Option Instance)
  check r = wrap_error "error checking rds status " (rds_get_by_name E r.name r.namespace)

  check-Keeps : (r : Rds) → Keeps IsSafe (check r)
  unfolding check
  check-Keeps r = search (keeps_rules, rds_get_by_name-Keeps IsSafe-Stable other)

  check-Checked :
      (r : Rds) (s : State E) (o : Option Instance)
      → (check r s).0 ≡ done o
      → Checked r o (check r s).1
  unfolding check rds_get_by_name ◌>>=◌
  check-Checked r s none h = ground arith
  check-Checked r s (some i) h = tt

  refuse_existing-IsSafe :
      (r : Rds) (o : Option Instance) (s : State E)
      → Checked r o s
      → IsSafe s
      → IsSafe ((refuse_existing E r o >>= λ _. make_instance E r) s).1
  unfolding refuse_existing ◌>>=◌
  refuse_existing-IsSafe r none s free h = make_instance-IsSafe r s (free, h)
  refuse_existing-IsSafe r (some i) s _ h = h

  look_and_make-IsSafe :
      (r : Rds) → Keeps IsSafe (check r >>= λ o. refuse_existing E r o >>= λ _. make_instance E r)
  look_and_make-IsSafe r =
      Keeps-bind_after (Checked r) (check r) _ (check-Keeps r) (check-Checked r)
        (refuse_existing-IsSafe r)

  rds_create-IsSafe : Keeps IsSafe (rds_create E)
  unfolding rds_create check
  rds_create-IsSafe = search (keeps_rules, look_and_make-IsSafe)

  -- Whatever the world answers, Create requests an instance only under a name that the last look-up of
  -- an instance was for, which found none, with no creation since then, if that holds of the creations
  -- made before.
  pub create-CreatesFree : (s : State E) → CreatesFree s.trace → CreatesFree (create E s).1.trace
  create-CreatesFree s h = kept (create-Keeps_of IsSafe-Stable other rds_create-IsSafe) s h
