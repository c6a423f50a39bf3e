-- ===== src/Tests/Queue.antt =====
-- A queue as the documentation of client-go describes it.
use otc_rds_operator.Prelude.{
  ℕ, ◌+◌, ◌≡◌, ◌≢◌, refl, ◌⊎◌, inl, inr, Bool, true, false, ◌&&◌, Bool-cases, Option, none, some,
  List, [], ◌∷◌, nat_eq, arith, ap, subst, if◌then◌else◌,
}
use otc_rds_operator.Controller.Queue.{WorkQueue, IsLawful, IsCounting, Event, EventType}

type_eq : EventType → EventType → Bool
type_eq EventType.add_rds EventType.add_rds = true
type_eq EventType.del_rds EventType.del_rds = true
type_eq EventType.update_rds EventType.update_rds = true
type_eq _ _ = false

obj_eq : Option ℕ → Option ℕ → Bool
obj_eq none none = true
obj_eq (some a) (some b) = nat_eq a b
obj_eq _ _ = false

unfoldable pub event_eq : Event → Event → Bool
unfolding type_eq obj_eq
event_eq a b =
    type_eq a.event_type b.event_type && obj_eq a.old_obj b.old_obj && obj_eq a.new_obj b.new_obj

pub event_eq→eq : (a b : Event) → event_eq a b ≡ true → a ≡ b
unfolding event_eq type_eq obj_eq
event_eq→eq a b h = ground arith

-- The waiting events, the first one in front, and the number of times each has been put back.
pub record Waiting : Type 0 where
  pub events : List Event
  pub failures : Event → ℕ

abbrev pub Holds : Event → List Event → Type 0
Holds x [] = ⊥
Holds x (e ∷ l) = (x ≡ e) ⊎ Holds x l

abbrev pub last : List Event → Event → List Event
last [] e = e ∷ []
last (x ∷ l) e = x ∷ last l e

abbrev pub take_first : List Event → (Event → ℕ) → Option (Event × Waiting)
take_first [] f = none
take_first (e ∷ l) f = some (e, record { events = l; failures = f })

pub last-Holds : (l : List Event) (e x : Event) → Holds x (last l e) → (x ≡ e) ⊎ Holds x l
last-Holds [] e x (inl h) = inl h
last-Holds [] e x (inr h) = absurd h
last-Holds (y ∷ l) e x (inl h) = inr (inl h)
last-Holds (y ∷ l) e x (inr h) = elim (last-Holds l e x h) [ inl a ↦ inl a | inr b ↦ inr (inr b) ]

abbrev pub fifo : WorkQueue
fifo = record {
  Queue = Waiting;
  get = λ q. take_first q.events q.failures;
  add = λ e q. record q { events = last q.events e };
  add_rate_limited = λ e q. record {
    events = last q.events e;
    failures = λ x. if event_eq x e then q.failures x + 1 else q.failures x;
  };
  forget = λ e q. record q { failures = λ x. if event_eq x e then 0 else q.failures x };
  mark_done = λ e q. q;
  num_requeues = λ q e. q.failures e;
  Holds = λ q e. Holds e q.events;
}

abbrev pub no_events : fifo.Queue
no_events = record { events = []; failures = λ e. 0 }

pub some_injective : {A : Type 0} {a b : A} → some a ≡ some b → a ≡ b
some_injective {A} {a} h = ap (λ (o : Option A). elim o [ none ↦ a | some c ↦ c ]) h

taken :
    (l : List Event) (f : Event → ℕ) (e : Event) (q : Waiting)
    → take_first l f ≡ some (e, q)
    → Holds e l × ((x : Event) → q.failures x ≡ f x) × ((x : Event) → Holds x q.events → Holds x l)
taken [] f e q h = ground arith
taken (y ∷ l) f e q h =
    subst
      (λ p.
        Holds p.0 (y ∷ l)
        × ((x : Event) → p.1.failures x ≡ f x)
        × ((x : Event) → Holds x p.1.events → Holds x (y ∷ l)))
      (some_injective h) (inl refl, λ x. refl, λ x in_rest. inr in_rest)

-- What a table that has been changed at one event holds.
pub changed :
    (f : Event → ℕ) (n : ℕ) (e x : Event)
    → ((x ≡ e) × ((if event_eq x e then n else f x) ≡ n))
      ⊎ ((if event_eq x e then n else f x) ≡ f x)
changed f n e x = elim (Bool-cases (event_eq x e)) [
  | inl same ↦ inl (event_eq→eq x e same, rw same refl)
  | inr other ↦ inr (rw other refl)
]

pub fifo-IsLawful : IsLawful fifo
fifo-IsLawful = record {
  add-num_requeues = λ e q x. refl;
  get-num_requeues = λ q e r g. (taken q.events q.failures e r g).1;
  mark_done-num_requeues = λ e q x. refl;
  forget-num_requeues = λ e q x. changed q.failures 0 e x;
  add_rate_limited-num_requeues = λ e q x. changed q.failures (q.failures x + 1) e x;
  get-Holds = λ q e r g. (taken q.events q.failures e r g).0;
  get-Holds_rest = λ q e r g. (taken q.events q.failures e r g).2;
  add-Holds = λ e q x h. last-Holds q.events e x h;
  add_rate_limited-Holds = λ e q x h. last-Holds q.events e x h;
  forget-Holds = λ e q x h. h;
  mark_done-Holds = λ e q x h. h;
}

type_eq_refl : (k : EventType) → type_eq k k ≡ true
unfolding type_eq
type_eq_refl EventType.add_rds = refl
type_eq_refl EventType.del_rds = refl
type_eq_refl EventType.update_rds = refl

obj_eq_refl : (o : Option ℕ) → obj_eq o o ≡ true
unfolding obj_eq
obj_eq_refl none = refl
obj_eq_refl (some a) = ground arith

pub event_eq_refl : (e : Event) → event_eq e e ≡ true
unfolding event_eq
event_eq_refl e = rw (type_eq_refl e.event_type, obj_eq_refl e.old_obj, obj_eq_refl e.new_obj) refl

pub event_eq-ne : (x e : Event) → x ≢ e → event_eq x e ≡ false
event_eq-ne x e ne = elim (Bool-cases (event_eq x e)) [
  | inl same ↦ absurd (ne (event_eq→eq x e same))
  | inr other ↦ other
]

pub fifo-IsCounting : IsCounting fifo
fifo-IsCounting = record {
  forget_self = λ e q. rw (event_eq_refl e) refl;
  forget_other = λ e q x ne. rw (event_eq-ne x e ne) refl;
  retry_self = λ e q. rw (event_eq_refl e) refl;
  retry_other = λ e q x ne. rw (event_eq-ne x e ne) refl;
}
