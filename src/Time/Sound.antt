-- ===== src/Time/Sound.antt =====
-- Go's package `time`: the times that Parse returns.
use native.Mathlib.Nat.{one-le-pow, pow-suc}
use otc_rds_operator.Prelude.{
  ℕ, zero, suc, ◌+◌, ◌-◌, ◌*◌, ◌^◌, ◌≤◌, ◌<◌, ◌≡◌, refl, subst, if◌then◌else◌, inl, inr, Bool-cases,
  Option, none, some, Bool, true, false, ◌&&◌, ◌||◌, String, [], ◌∷◌, ltb, nat_eq, arith,
}
use otc_rds_operator.Prelude.Int.{ℤ, pos_part, neg_part}
use otc_rds_operator.Cloud.{ok}
use otc_rds_operator.Time.Civil.{Stamp, IsValid, days_in}
use otc_rds_operator.Time.Scan.{
  Bytes, bytes, Scan, got, bad, outside, is_digit, getnum, long_year, within, nanoseconds, fraction,
}
use otc_rds_operator.Time.Rfc3339.{
  Parsed, parsed, refused, Parser, ◌>>=◌, ◌>>◌, month_of, day_of, month_scan, hour_scan, sixty_scan,
  second_of, minute_of, stamp_of, zone_of, clock_of, accept, result_of, judge, piece, skip, zone,
  in_month, date, clock, at_end, check_day, stamp, parse_rfc3339, optional_fraction, offset_of,
  two_digits, offset,
}

-- What a parser returns has the property.
abbrev Gives : {A : Type 0} → (A → Type 0) → Parsed A → Type 0
Gives P (parsed a s) = P a
Gives P (refused e) = Unit

module _ {A : Type 0} (P : A → Type 0) where
  abbrev Reads : Scan A → Type 0
  Reads (got a s) = P a
  Reads bad = Unit
  Reads (outside x) = Unit

  judge-Gives :
      (element : String) (hold : Bytes) (r : Scan A) → Reads r → Gives P (judge element hold r)
  judge-Gives element hold (got a s) h = h
  judge-Gives element hold bad h = tt
  judge-Gives element hold (outside x) h = tt

  module _ {B : Type 0} (Q : B → Type 0) where
    bind-Gives :
        (m : Parser A) (f : A → Parser B) (s : Bytes)
        → Gives P (m s)
        → ((a : A) (r : Bytes) → P a → Gives Q (f a r))
        → Gives Q ((m >>= f) s)
    bind-Gives m f s h k = go (m s) h
      where
        go :
            (p : Parsed A)
            → Gives P p
            → Gives Q (elim p [ parsed a r ↦ f a r | refused e ↦ refused e ])
        go (parsed a r) h = k a r h
        go (refused e) h = tt

Reads-if :
    {A : Type 0} (P : A → Type 0) (b : Bool) (x y : Scan A)
    → (b ≡ true → Reads P x)
    → (b ≡ false → Reads P y)
    → Reads P (if b then x else y)
Reads-if P true x y h k = h refl
Reads-if P false x y h k = k refl

anything : {A : Type 0} (p : Parsed A) → Gives (λ _. Unit {0}) p
anything (parsed a s) = tt
anything (refused e) = tt

module _ {A B : Type 0} (Q : B → Type 0) where
  -- A step of whose result nothing is known.
  skip-Gives :
      (m : Parser A) (f : A → Parser B) (s : Bytes)
      → ((a : A) (r : Bytes) → Gives Q (f a r))
      → Gives Q ((m >>= f) s)
  skip-Gives m f s k = bind-Gives (λ _. Unit {0}) Q m f s (anything (m s)) (λ a r h. k a r)

  -- A piece that is read.
  piece-Gives :
      (P : A → Type 0) (element : String) (scan : Bytes → Scan A) (f : A → Parser B) (s : Bytes)
      → Reads P (scan s)
      → ((a : A) (r : Bytes) → P a → Gives Q (f a r))
      → Gives Q ((piece element scan >>= f) s)
  piece-Gives P element scan f s h k =
      bind-Gives P Q (piece element scan) f s (judge-Gives P element s (scan s) h) k

within-Reads :
    (good : ℕ → Bool) (name : String) (r : Scan ℕ) → Reads (λ n. good n ≡ true) (within good name r)
unfolding within
within-Reads good name (got n s) = elim (Bool-cases (good n)) [
  | inl good_ ↦ rw good_ good_
  | inr other ↦ rw other tt
]
within-Reads good name bad = tt
within-Reads good name (outside x) = tt

number : ℕ → ℕ → ℕ → ℕ → ℕ
number a b c d = ((a * 10 + b) * 10 + c) * 10 + d

long_year-Reads : (s : Bytes) → Reads (λ y. y < 10000) (long_year s)
unfolding long_year
long_year-Reads [] = tt
long_year-Reads (a ∷ []) = tt
long_year-Reads (a ∷ b ∷ []) = tt
long_year-Reads (a ∷ b ∷ c ∷ []) = tt
long_year-Reads (a ∷ b ∷ c ∷ d ∷ s) =
    elim (Bool-cases (is_digit a && is_digit b && is_digit c && is_digit d)) [
      | inl digits ↦ rw digits (ground arith)
      | inr other ↦ rw other tt
    ]

abbrev IsZone : ℤ → Type 0
IsZone z = pos_part z + neg_part z ≤ 90000

offset_of-Reads : (sign : ℕ) (h m : Option ℕ) (s : Bytes) → Reads IsZone (offset_of sign h m s)
offset_of-Reads sign none m s = tt
offset_of-Reads sign (some h) none s = Reads-if IsZone (ltb 24 h) _ _ (λ e. tt) (λ e. tt)
offset_of-Reads sign (some h) (some m) s =
    Reads-if IsZone (ltb 60 m) _ _ (λ e. tt)
      λ small_minute.
        Reads-if IsZone (ltb 24 h) _ _ (λ e. tt)
          λ small_hour.
            Reads-if IsZone (nat_eq sign b'+') _ _ (λ e. ground arith)
              λ e. Reads-if IsZone (nat_eq sign b'-') _ _ (λ e. ground arith) (λ e. tt)

offset-Reads : (s : Bytes) → Reads IsZone (offset s)
offset-Reads (sign ∷ a ∷ b ∷ colon ∷ c ∷ d ∷ s) =
    Reads-if IsZone (nat_eq colon b':') _ _
      (λ e. offset_of-Reads sign (two_digits a b) (two_digits c d) s) (λ e. tt)
offset-Reads [] = tt
offset-Reads (a ∷ []) = tt
offset-Reads (a ∷ b ∷ []) = tt
offset-Reads (a ∷ b ∷ c ∷ []) = tt
offset-Reads (a ∷ b ∷ c ∷ d ∷ []) = tt
offset-Reads (a ∷ b ∷ c ∷ d ∷ e ∷ []) = tt

zone-Reads : (s : Bytes) → Reads IsZone (zone s)
unfolding zone
zone-Reads [] = tt
zone-Reads (c ∷ s) =
    Reads-if IsZone (nat_eq c b'Z') _ _ (λ e. omega arith) (λ e. offset-Reads (c ∷ s))

below : (left n : ℕ) → n * 10 ^ left + 10 ^ left ≤ 1000000000 → n * 10 ^ left < 1000000000
below left n h = omega (arith, one-le-pow left 10 (omega arith))

scaled :
    (p n d : ℕ) → d ≤ 9 → n * (p * 10) + p * 10 ≤ 1000000000 → (n * 10 + d) * p + p ≤ 1000000000
scaled p n d h k = grind arith

-- One more digit.
longer :
    (left n d : ℕ)
    → d ≤ 9
    → n * 10 ^ suc left + 10 ^ suc left ≤ 1000000000
    → (n * 10 + d) * 10 ^ left + 10 ^ left ≤ 1000000000
longer left n d h k =
    scaled (10 ^ left) n d h (subst (λ (x : ℕ). n * x + x ≤ 1000000000) (pow-suc 10 left) k)

nanoseconds-lt :
    (left n : ℕ) (s : Bytes)
    → n * 10 ^ left + 10 ^ left ≤ 1000000000
    → (nanoseconds left n s).0 < 1000000000
unfolding nanoseconds
nanoseconds-lt left n [] h = below left n h
nanoseconds-lt zero n (c ∷ s) h = elim (Bool-cases (is_digit c)) [
  | inl more ↦ rw more (nanoseconds-lt zero n s h)
  | inr last ↦ rw last (omega arith)
]
nanoseconds-lt (suc left) n (c ∷ s) h = elim (Bool-cases (is_digit c)) [
  | inl more ↦
      rw more
        (nanoseconds-lt left (n * 10 + (c - b'0')) s (longer left n (c - b'0') (ground arith) h))
  | inr last ↦ rw last (below (suc left) n h)
]

fraction-lt : (s : Bytes) → (fraction s).0 < 1000000000
unfolding fraction
fraction-lt [] = omega arith
fraction-lt (p ∷ []) = omega arith
fraction-lt (p ∷ d ∷ s) = elim (Bool-cases ((nat_eq p b'.' || nat_eq p b',') && is_digit d)) [
  | inl digits ↦ rw digits (nanoseconds-lt 9 0 (d ∷ s) (omega arith))
  | inr other ↦ rw other (omega arith)
]

abbrev IsDate : ℕ × ℕ × ℕ → Type 0
IsDate (y, m, d) = (y < 10000) × (in_month m ≡ true)

date-Gives : (s : Bytes) → Gives IsDate (date s)
unfolding date month_of day_of
date-Gives s =
    piece-Gives IsDate (λ y. y < 10000) "2006" long_year (λ y. skip b'-' "-" >> month_of y) s
      (long_year-Reads s)
      λ y r hy.
        skip-Gives IsDate (skip b'-' "-") (λ _. month_of y) r
          λ _ r1.
            piece-Gives IsDate (λ m. in_month m ≡ true) "01" month_scan
              (λ m. skip b'-' "-" >> day_of y m) r1 (within-Reads in_month "month" (getnum true r1))
              λ m r2 hm.
                skip-Gives IsDate (skip b'-' "-") (λ _. day_of y m) r2
                  λ _ r3.
                    skip-Gives IsDate (piece "02" (getnum true)) (λ d. accept (y, m, d)) r3
                      (λ d r4. (hy, hm))

abbrev IsClock : ℕ × ℕ × ℕ × ℕ → Type 0
IsClock (h, m, sec, frac) =
    (ltb h 24 ≡ true) × (ltb m 60 ≡ true) × (ltb sec 60 ≡ true) × (frac < 1000000000)

abbrev lt_24 : ℕ → Bool
lt_24 n = ltb n 24

abbrev lt_60 : ℕ → Bool
lt_60 n = ltb n 60

second_of-Gives :
    (h m : ℕ) (s : Bytes) → lt_24 h ≡ true → lt_60 m ≡ true → Gives IsClock (second_of h m s)
unfolding second_of
second_of-Gives h m s hh hm =
    piece-Gives IsClock (λ n. lt_60 n ≡ true) "05" (sixty_scan "second")
      (λ sec. optional_fraction >>= λ frac. accept (h, m, sec, frac)) s
      (within-Reads lt_60 "second" (getnum true s)) (λ sec r hs. (hh, hm, hs, fraction-lt r))

clock-Gives : (s : Bytes) → Gives IsClock (clock s)
unfolding clock minute_of
clock-Gives s =
    piece-Gives IsClock (λ n. lt_24 n ≡ true) "15" hour_scan (λ h. skip b':' ":" >> minute_of h) s
      (within-Reads lt_24 "hour" (getnum false s))
      λ h r hh.
        skip-Gives IsClock (skip b':' ":") (λ _. minute_of h) r
          λ _ r1.
            piece-Gives IsClock (λ n. lt_60 n ≡ true) "04" (sixty_scan "minute")
              (λ m. skip b':' ":" >> second_of h m) r1
              (within-Reads lt_60 "minute" (getnum true r1))
              λ m r2 hm.
                skip-Gives IsClock (skip b':' ":") (λ _. second_of h m) r2
                  (λ _ r3. second_of-Gives h m r3 hh hm)

check_day-Gives :
    (t : Stamp) (s : Bytes)
    → ((1 ≤ t.day) × (t.day ≤ days_in t.month t.year) → IsValid t)
    → Gives IsValid (check_day t s)
unfolding check_day
check_day-Gives t s k = elim (Bool-cases (ltb t.day 1 || ltb (days_in t.month t.year) t.day)) [
  | inl out ↦ rw out tt
  | inr inside ↦ rw inside (k (ground arith))
]

IsValid-stamp_of :
    (d : ℕ × ℕ × ℕ) (c : ℕ × ℕ × ℕ × ℕ) (z : ℤ)
    → IsDate d
    → IsClock c
    → IsZone z
    → (1 ≤ d.2) × (d.2 ≤ days_in d.1 d.0)
    → IsValid (stamp_of d c z)
unfolding in_month
IsValid-stamp_of (y, m, d) (h, min, sec, frac) z hd hc hz inside = ground arith

zone_of-Gives :
    (d : ℕ × ℕ × ℕ) (c : ℕ × ℕ × ℕ × ℕ) (s : Bytes)
    → IsDate d
    → IsClock c
    → Gives IsValid (zone_of d c s)
unfolding zone_of
zone_of-Gives d c s hd hc =
    piece-Gives IsValid IsZone "Z07:00" zone (λ z. at_end >> check_day (stamp_of d c z)) s
      (zone-Reads s)
      λ z r hz.
        skip-Gives IsValid at_end (λ _. check_day (stamp_of d c z)) r
          λ _ r1. check_day-Gives (stamp_of d c z) r1 (IsValid-stamp_of d c z hd hc hz)

stamp-Gives : (s : Bytes) → Gives IsValid (stamp s)
unfolding stamp clock_of
stamp-Gives s =
    bind-Gives IsDate IsValid date (λ d. skip b'T' "T" >> clock_of d) s (date-Gives s)
      λ d r hd.
        skip-Gives IsValid (skip b'T' "T") (λ _. clock_of d) r
          λ _ r1.
            bind-Gives IsClock IsValid clock (zone_of d) r1 (clock-Gives r1)
              (λ c r2 hc. zone_of-Gives d c r2 hd hc)

result_of-ok :
    (value : Bytes) (p : Parsed Stamp) (t : Stamp)
    → Gives IsValid p
    → result_of value p ≡ ok t
    → IsValid t
result_of-ok value (parsed u s) t h e = ground arith
result_of-ok value (refused x) t h e = ground arith

-- What is parsed is a time of the calendar.
pub parse_rfc3339-IsValid : (text : String) (t : Stamp) → parse_rfc3339 text ≡ ok t → IsValid t
unfolding parse_rfc3339
parse_rfc3339-IsValid text t e =
    result_of-ok (bytes text) (stamp (bytes text)) t (stamp-Gives (bytes text)) e
