-- ===== src/Tests/Uniq.antt =====
-- A sort without duplicates, by insertion.
use otc_rds_operator.Prelude.{
  ◌≡◌, refl, sym, subst, Bool, false, Bool-cases, inl, inr, List, [], ◌∷◌, All, All-map, arith,
  if◌then◌else◌,
}
use otc_rds_operator.Prelude.Int.{ℤ, ltb_ℤ}
use otc_rds_operator.Flavor.{Candidate, Uniq}
use otc_rds_operator.Flavor.Next.{IsUniq, by_key}

insert : (Candidate → Candidate → Bool) → Candidate → List Candidate → List Candidate
insert less x [] = x ∷ []
insert less x (y ∷ l) =
    let rest = insert less x l in if less x y then x ∷ y ∷ l else y ∷ (if less y x then rest else l)

unfoldable pub sort : Uniq
unfolding insert
sort less [] = []
sort less (x ∷ l) = insert less x (sort less l)

module _ (key : Candidate → ℤ) where
  -- `l` has nothing below the first of `s`.
  abbrev Heads : List Candidate → List Candidate → Type 0
  Heads [] l = l ≡ []
  Heads (c ∷ s) l = All (λ d. ltb_ℤ (key d) (key c) ≡ false) l

  insert-Heads :
      (x : Candidate) (s l : List Candidate) → Heads s l → Heads (insert (by_key key) x s) (x ∷ l)
  unfolding insert
  insert-Heads x [] l h =
      subst (λ m. All (λ d. ltb_ℤ (key d) (key x) ≡ false) (x ∷ m)) (sym h) (ground arith, tt)
  insert-Heads x (y ∷ s) l h = elim (Bool-cases (by_key key x y)) [
    | inl below ↦ rw below (ground arith, All-map (λ d e. ground arith) l h)
    | inr above ↦ rw above (above, h)
  ]

  insert-All :
      (P : Candidate → Type 0) (x : Candidate) (s : List Candidate)
      → P x
      → All P s
      → All P (insert (by_key key) x s)
  unfolding insert
  insert-All P x [] h t = (h, tt)
  insert-All P x (y ∷ s) h (now, later) = ground (arith, insert-All P x s h later)

  sort-All : (P : Candidate → Type 0) (l : List Candidate) → All P l → All P (sort (by_key key) l)
  unfolding sort
  sort-All P [] h = tt
  sort-All P (x ∷ l) (now, later) = insert-All P x (sort (by_key key) l) now (sort-All P l later)

  sort-Heads : (l : List Candidate) → Heads (sort (by_key key) l) l
  unfolding sort
  sort-Heads [] = refl
  sort-Heads (x ∷ l) = insert-Heads x (sort (by_key key) l) l (sort-Heads l)

pub sort-IsUniq : IsUniq sort
sort-IsUniq = record {
  uniq-All = λ P key l h. sort-All key P l h;
  uniq-least = λ key l c cs e. subst (λ s. Heads key s l) e (sort-Heads key l);
  uniq-empty = λ key l e. subst (λ s. Heads key s l) e (sort-Heads key l);
}
