-- ===== src/Time/Calendar.antt =====
-- Go's package `time`: the numbers of days.
use otc_rds_operator.Prelude.{
  ℕ, zero, suc, ◌+◌, ◌≤◌, ◌≡◌, inl, inr, false, Bool-cases, ltb, arith, if◌then◌else◌,
}
use otc_rds_operator.Time.Civil.{
  is_leap, days_in, days_before_year, days_before_month, days_before, day_number, next_day,
  number_of,
}

days_before_year-suc :
    (y : ℕ) → days_before_year (suc y) ≡ days_before_year y + (if is_leap y then 366 else 365)
unfolding days_before_year
days_before_year-suc y = ground arith

-- What comes before a month and the month itself are what comes before the next one.
days_before-suc :
    (y m : ℕ) → (1 ≤ m) × (m ≤ 11) → days_before y (suc m) ≡ days_before y m + days_in m y
unfolding days_before days_before_month days_in
days_before-suc y zero h = ground arith
days_before-suc y (suc zero) h = ground arith
days_before-suc y (suc (suc zero)) h = ground arith
days_before-suc y (suc (suc (suc zero))) h = ground arith
days_before-suc y (suc (suc (suc (suc zero)))) h = ground arith
days_before-suc y (suc (suc (suc (suc (suc zero))))) h = ground arith
days_before-suc y (suc (suc (suc (suc (suc (suc zero)))))) h = ground arith
days_before-suc y (suc (suc (suc (suc (suc (suc (suc zero))))))) h = ground arith
days_before-suc y (suc (suc (suc (suc (suc (suc (suc (suc zero)))))))) h = ground arith
days_before-suc y (suc (suc (suc (suc (suc (suc (suc (suc (suc zero))))))))) h = ground arith
days_before-suc y (suc (suc (suc (suc (suc (suc (suc (suc (suc (suc zero)))))))))) h = ground arith
days_before-suc y (suc (suc (suc (suc (suc (suc (suc (suc (suc (suc (suc zero))))))))))) h =
    ground arith
days_before-suc y (suc (suc (suc (suc (suc (suc (suc (suc (suc (suc (suc (suc m)))))))))))) h =
    absurd (omega arith)

-- The last month ends with the year.
december : (y : ℕ) → days_before y 12 + days_in 12 y ≡ (if is_leap y then 366 else 365)
unfolding days_before days_before_month days_in
december y = ground arith

january : (y : ℕ) → days_before y 1 ≡ 0
unfolding days_before days_before_month
january y = ground arith

last_day : (y m d : ℕ) → ltb d (days_in m y) ≡ false → (1 ≤ d) × (d ≤ days_in m y) → d ≡ days_in m y
last_day y m d e h = ground arith

year_end :
    (y m : ℕ)
    → m ≡ 12
    → days_before_year (suc y) + days_before (suc y) 1
      ≡ days_before_year y + days_before y m + days_in m y
year_end y m e = rw e (ground (arith, days_before_year-suc y, december y, january (suc y)))

-- The number of a day goes up by one from each day of the calendar to the next.
pub day_number-next_day :
    (y m d : ℕ)
    → (1 ≤ m) × (m ≤ 12)
    → (1 ≤ d) × (d ≤ days_in m y)
    → number_of (next_day y m d) ≡ day_number y m d + 1
unfolding next_day day_number
day_number-next_day y m d hm hd = elim (Bool-cases (ltb d (days_in m y))) [
  | inl inside ↦ rw inside (omega arith)
  | inr last ↦ elim (Bool-cases (ltb m 12)) [
    | inl before ↦ rw (last, before) (ground (arith, last_day y m d last hd, days_before-suc y m))
    | inr dec ↦ rw (last, dec) (ground (arith, last_day y m d last hd, year_end y m))
  ]
]
