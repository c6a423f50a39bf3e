-- ===== src/Alarm/Deleted.antt =====
-- pkg/controller/alarm.go: which alarm rules DeleteAlarm deletes.
use otc_rds_operator.Prelude.{
  String, ◌<>◌, ◌≡◌, ◌⊎◌, inl, inr, refl, true, Bool-cases, List, [], ◌∷◌, ◌++◌, ap, ◌∙◌, arith,
  contains, has_prefix,
}
use text.Mathlib.TextLemmas.{cons-append, nil-append, append_assoc}
use otc_rds_operator.Rds.{Rds, instance_name}
use otc_rds_operator.Cloud.{Env, Alarm, Call, Trace, delete_alarm}
use otc_rds_operator.Exec.{State, Exec, perform, ◌>>=◌}
use otc_rds_operator.Exec.Keeps.{Keeps, bind-kept, keeps_rules}
use otc_rds_operator.Exec.Stable.{unguarded, Stable, Keeps-perform}
use otc_rds_operator.Alarm.{delete_matching}

has_prefix-append : (part post : String) → has_prefix (part <> post) part ≡ true
unfolding has_prefix
has_prefix-append String.[] post = refl
has_prefix-append (String.◌∷◌ c part) post =
    ap (λ x. has_prefix x (String.◌∷◌ c part)) (cons-append c part post)
    ∙ ground (arith, has_prefix-append part post)

contains-prefix : (s part : String) → has_prefix s part ≡ true → contains s part ≡ true
unfolding contains
contains-prefix String.[] part h = h
contains-prefix (String.◌∷◌ c s) part h = ground arith

contains-append : (pre part post : String) → contains (pre <> (part <> post)) part ≡ true
unfolding contains
contains-append String.[] part post =
    ap (λ x. contains x part) (nil-append (part <> post))
    ∙ contains-prefix (part <> post) part (has_prefix-append part post)
contains-append (String.◌∷◌ c pre) part post =
    ap (λ x. contains x part) (cons-append c pre (part <> post))
    ∙ ground (arith, contains-append pre part post)

pub contains-front : (part post : String) → contains (part <> post) part ≡ true
contains-front part post = contains-prefix (part <> post) part (has_prefix-append part post)

split_name :
    (n m x y : String) → (n <> ("_" <> (m <> x))) <> y ≡ "" <> ((n <> ("_" <> m)) <> (x <> y))
split_name n m x y = simp (append_assoc, nil-append)

abbrev Deletes : String → Call → Type 0
Deletes id (delete_alarm x) = x ≡ id
Deletes id _ = ⊥

-- The alarm rule of that id has been deleted.
abbrev pub Deleted : String → Trace → Type 0
Deleted id [] = ⊥
Deleted id (e ∷ t) = Deletes id e.call ⊎ Deleted id t

module _ (E : Env) where
  Deleted-Stable : (id : String) → Stable {E = E} unguarded (λ s. Deleted id s.trace)
  Deleted-Stable id = record {
    calls = λ c other a w s h. inr h;
    env = λ g p s h. h;
    writes = λ f same s h. h;
  }

  delete_matching-Keeps :
      (id ns_rds : String) (alarms : List Alarm)
      → Keeps (λ s. Deleted id s.trace) (delete_matching E ns_rds alarms)
  unfolding delete_matching
  delete_matching-Keeps id ns_rds [] = search keeps_rules
  delete_matching-Keeps id ns_rds (a ∷ alarms) = search (
    keeps_rules,
    Keeps-perform (Deleted-Stable id) (delete_alarm a.id) (λ e. cc),
    delete_matching-Keeps id ns_rds alarms,
  )

  perform-Deleted : (id : String) (s : State E) → Deleted id (perform E (delete_alarm id) s).1.trace
  unfolding perform
  perform-Deleted id s = inl refl

  performed :
      {B : Type 0} (P : State E → Type 0) (c : Call) (m : Exec E B) (s : State E)
      → P (m (perform E c s).1).1
      → P ((perform E c >>= λ _. m) s).1
  unfolding ◌>>=◌
  performed P c m s h = h

  -- The loop of DeleteAlarm over the alarm rules deletes each rule whose name has the name of the
  -- resource's instance in it, at the front, as its own rules have it, or anywhere else.
  pub delete_matching-Deleted :
      (ns_rds pre post : String) (before after : List Alarm) (a : Alarm) (s : State E)
      → a.name ≡ pre <> (ns_rds <> post)
      → Deleted a.id (delete_matching E ns_rds (before ++ (a ∷ after)) s).1.trace
  unfolding delete_matching
  delete_matching-Deleted ns_rds pre post [] after a s named =
      rw (ap (λ x. contains x ns_rds) named ∙ contains-append pre ns_rds post) (
        bind-kept (perform E (delete_alarm a.id)) _ s (perform-Deleted a.id s)
          (λ _. delete_matching-Keeps a.id ns_rds after))
  delete_matching-Deleted ns_rds pre post (b ∷ before) after a s named =
      elim (Bool-cases (contains b.name ns_rds)) [
        | inl yes_b ↦ rw yes_b (
            performed (λ u. Deleted a.id u.trace) (delete_alarm b.id) _ s
              (delete_matching-Deleted ns_rds pre post before after a
                (perform E (delete_alarm b.id) s).1 named))
        | inr no_b ↦ rw no_b (delete_matching-Deleted ns_rds pre post before after a s named)
      ]

  -- So the loop for one resource also deletes the rules of another one of the namespace whose name
  -- begins with the name of the first.
  pub delete_matching-takes_others :
      (r other : Rds) (more suffix : String) (before after : List Alarm) (a : Alarm) (s : State E)
      → other.namespace ≡ r.namespace
      → other.name ≡ r.name <> more
      → a.name ≡ instance_name other <> suffix
      → Deleted a.id (delete_matching E (instance_name r) (before ++ (a ∷ after)) s).1.trace
  delete_matching-takes_others r other more suffix before after a s same longer named =
      delete_matching-Deleted (instance_name r) "" (more <> suffix) before after a s (
        named
        ∙ (ap (λ x. x <> suffix)
              (ap (λ n. n <> ("_" <> other.name)) same ∙ ap (λ m. r.namespace <> ("_" <> m)) longer)
            ∙ split_name r.namespace r.name more suffix))
