-- ===== src/Controller/Workers/Apart.antt =====
-- pkg/controller/event.go: the resources that the events of a set point to.
use otc_rds_operator.Prelude.{ℕ, ◌≤◌, ◌<◌, ◌≡◌, ◌⊎◌, inl, inr, sym, ◌∙◌, some, subst, arith}
use otc_rds_operator.Controller.Queue.{Event}

abbrev pub PointsTo : Event → ℕ → Type 0
PointsTo e a = (e.old_obj ≡ some a) ⊎ (e.new_obj ≡ some a)

-- The events of a set point to addresses below `n`, and no two of them to one address.
pub record AreApart (Live : Event → Type 0) (n : ℕ) : Type 0 where
  pub below : (x : Event) → Live x → (a : ℕ) → PointsTo x a → a < n
  pub apart : (x y : Event) → Live x → Live y → (a : ℕ) → PointsTo x a → PointsTo y a → x ≡ y

-- A part of such a set, with more addresses in use.
pub shrink :
    (Live Fewer : Event → Type 0) (n m : ℕ)
    → n ≤ m
    → ((x : Event) → Fewer x → Live x)
    → AreApart Live n
    → AreApart Fewer m
shrink Live Fewer n m more part h = record {
  below = λ x l a to. let lt = h.below x (part x l) a to in omega (arith, lt, more);
  apart = λ x y lx ly. h.apart x y (part x lx) (part y ly);
}

-- One more event, which points to addresses that have not been in use.
pub grow :
    (Live More : Event → Type 0) (n m : ℕ) (e : Event)
    → n ≤ m
    → ((a : ℕ) → PointsTo e a → (n ≤ a) × (a < m))
    → ((x : Event) → More x → (x ≡ e) ⊎ Live x)
    → AreApart Live n
    → AreApart More m
grow Live More n m e more fresh or_old h = record {
  below = λ x l a to. elim (or_old x l) [
    | inl new ↦ (fresh a (subst (λ z. PointsTo z a) new to)).1
    | inr old ↦ let lt = h.below x old a to in omega (arith, lt, more)
  ];
  apart = λ x y lx ly a tx ty. elim (or_old x lx) [
    | inl x_new ↦ elim (or_old y ly) [
      | inl y_new ↦ x_new ∙ sym y_new
      | inr y_old ↦ absurd (stale y y_old a ty (subst (λ z. PointsTo z a) x_new tx))
    ]
    | inr x_old ↦ elim (or_old y ly) [
      | inl y_new ↦ absurd (stale x x_old a tx (subst (λ z. PointsTo z a) y_new ty))
      | inr y_old ↦ h.apart x y x_old y_old a tx ty
    ]
  ];
}
  where
    stale : (x : Event) → Live x → (a : ℕ) → PointsTo x a → PointsTo e a → ⊥
    stale x old a tx te =
        let lt = h.below x old a tx in let ge = (fresh a te).0 in omega (arith, lt, ge)
