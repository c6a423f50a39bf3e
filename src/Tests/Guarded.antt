-- ===== src/Tests/Guarded.antt =====
-- A queue that gives no event to two workers at once.
use otc_rds_operator.Prelude.{
  ℕ, ◌+◌, ◌≡◌, ◌≢◌, refl, sym, ◌∙◌, inl, inr, Bool, true, false, ◌||◌, Bool-cases, Option, none,
  some, List, [], ◌∷◌, arith, subst, if◌then◌else◌,
}
use otc_rds_operator.Controller.Queue.{WorkQueue, IsLawful, IsExclusive, Event}
use otc_rds_operator.Tests.Queue.{
  event_eq, event_eq→eq, event_eq_refl, Holds, last, last-Holds, some_injective, changed,
}

-- The waiting events, the number of times each has been put back, and those that are not done.
pub record Guarded : Type 0 where
  pub events : List Event
  pub failures : Event → ℕ
  pub taken : List Event

among : Event → List Event → Bool
among e [] = false
among e (x ∷ l) = event_eq e x || among e l

abbrev behind : Event → Option (Event × List Event) → Option (Event × List Event)
behind e none = none
behind e (some (x, l)) = some (x, e ∷ l)

-- The first of the waiting events that is not taken, and the others.
unfoldable pub pick : List Event → List Event → Option (Event × List Event)
unfolding among
pick [] b = none
pick (e ∷ l) b = let rest = pick l b in if among e b then behind e rest else some (e, l)

unfoldable pub without : Event → List Event → List Event
without e [] = []
without e (x ∷ l) = let rest = without e l in if event_eq e x then rest else x ∷ rest

abbrev pub hand_out : Guarded → Option (Event × List Event) → Option (Event × Guarded)
hand_out q none = none
hand_out q (some (e, l)) = some (e, record q { events = l; taken = e ∷ q.taken })

abbrev pub guarded : WorkQueue
guarded = record {
  Queue = Guarded;
  get = λ q. hand_out q (pick q.events q.taken);
  add = λ e q. record q { events = last q.events e };
  add_rate_limited = λ e q. record q {
    events = last q.events e;
    failures = λ x. if event_eq x e then q.failures x + 1 else q.failures x;
  };
  forget = λ e q. record q { failures = λ x. if event_eq x e then 0 else q.failures x };
  mark_done = λ e q. record q { taken = without e q.taken };
  num_requeues = λ q e. q.failures e;
  Holds = λ q e. Holds e q.events;
}

abbrev pub nothing : guarded.Queue
nothing = record { events = []; failures = λ e. 0; taken = [] }

among-Holds : (e : Event) (l : List Event) → among e l ≡ false → Holds e l → ⊥
unfolding among
among-Holds e [] h held = held
among-Holds e (x ∷ l) h (inl same) =
    let r = event_eq_refl e in
    let s = subst (λ z. event_eq e z ≡ true) same r in ground (arith, s, h)
among-Holds e (x ∷ l) h (inr held) = among-Holds e l (ground (arith, h)) held

without-Holds : (e x : Event) (l : List Event) → x ≢ e → Holds x l → Holds x (without e l)
unfolding without
without-Holds e x [] ne held = held
without-Holds e x (y ∷ l) ne held = elim (Bool-cases (event_eq e y)) [
  | inl same ↦ rw same (elim held [
    | inl here ↦ absurd (ne (here ∙ sym (event_eq→eq e y same)))
    | inr later ↦ without-Holds e x l ne later
  ])
  | inr other ↦
      rw other (elim held [ inl here ↦ inl here | inr later ↦ inr (without-Holds e x l ne later) ])
]

-- What `pick` gives.
record Picked (l b : List Event) (e : Event) (r : List Event) : Type 0 where
  free : Holds e b → ⊥
  was_there : Holds e l
  others : (x : Event) → Holds x r → Holds x l

behind-Picked :
    (y : Event) (l b : List Event) (o : Option (Event × List Event))
    → ((e : Event) (r : List Event) → o ≡ some (e, r) → Picked l b e r)
    → (e : Event) (r : List Event) → behind y o ≡ some (e, r)
    → Picked (y ∷ l) b e r
behind-Picked y l b none ih e r h = absurd (ground arith)
behind-Picked y l b (some (x, t)) ih e r h =
    subst (λ p. Picked (y ∷ l) b p.0 p.1) (some_injective h)
      (let k = ih x t refl in
        record {
          free = k.free;
          was_there = inr k.was_there;
          others = λ z held. elim held [ inl here ↦ inl here | inr later ↦ inr (k.others z later) ];
        })

pick-Picked :
    (l b : List Event) (e : Event) (r : List Event) → pick l b ≡ some (e, r) → Picked l b e r
unfolding pick
pick-Picked [] b e r h = absurd (ground arith)
pick-Picked (y ∷ l) b e r h = elim (Bool-cases (among y b)) [
  | inl busy ↦ behind-Picked y l b (pick l b) (pick-Picked l b) e r (rw busy at h)
  | inr free ↦
      subst (λ p. Picked (y ∷ l) b p.0 p.1) (some_injective (rw free at h))
        (record { free = among-Holds y b free; was_there = inl refl; others = λ z held. inr held })
]

-- What the queue gives.
record Given (q : Guarded) (e : Event) (r : Guarded) : Type 0 where
  picked : Picked q.events q.taken e r.events
  failures : (x : Event) → r.failures x ≡ q.failures x
  taken : r.taken ≡ e ∷ q.taken

hand_out-Given :
    (q : Guarded) (o : Option (Event × List Event))
    → ((e : Event) (l : List Event) → o ≡ some (e, l) → Picked q.events q.taken e l)
    → (e : Event) (r : Guarded) → hand_out q o ≡ some (e, r)
    → Given q e r
hand_out-Given q none ih e r h = absurd (ground arith)
hand_out-Given q (some (x, l)) ih e r h =
    subst (λ p. Given q p.0 p.1) (some_injective h)
      (record { picked = ih x l refl; failures = λ z. refl; taken = refl })

given : (q : Guarded) (e : Event) (r : Guarded) → guarded.get q ≡ some (e, r) → Given q e r
given q e r h = hand_out-Given q (pick q.events q.taken) (pick-Picked q.events q.taken) e r h

pub guarded-IsLawful : IsLawful guarded
guarded-IsLawful = record {
  add-num_requeues = λ e q x. refl;
  get-num_requeues = λ q e r g. (given q e r g).failures;
  mark_done-num_requeues = λ e q x. refl;
  forget-num_requeues = λ e q x. changed q.failures 0 e x;
  add_rate_limited-num_requeues = λ e q x. changed q.failures (q.failures x + 1) e x;
  get-Holds = λ q e r g. (given q e r g).picked.was_there;
  get-Holds_rest = λ q e r g. (given q e r g).picked.others;
  add-Holds = λ e q x h. last-Holds q.events e x h;
  add_rate_limited-Holds = λ e q x h. last-Holds q.events e x h;
  forget-Holds = λ e q x h. h;
  mark_done-Holds = λ e q x h. h;
}

pub guarded-IsExclusive : IsExclusive guarded
guarded-IsExclusive = record {
  Busy = λ q e. Holds e q.taken;
  get-Busy =
      λ q e r g. let k = given q e r g in (k.picked.free, subst (Holds e) (sym k.taken) (inl refl));
  get-Busy_kept = λ q e r g x h. subst (Holds x) (sym (given q e r g).taken) (inr h);
  add-Busy = λ e q x h. h;
  add_rate_limited-Busy = λ e q x h. h;
  forget-Busy = λ e q x h. h;
  mark_done-Busy = λ e q x ne h. without-Holds e x q.taken ne h;
}
