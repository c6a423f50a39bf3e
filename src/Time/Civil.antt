-- ===== src/Time/Civil.antt =====
-- What pkg/controller/resource.go uses of Go's package `time`: points in time, and UnixMilli.
use otc_rds_operator.Prelude.{
  ℕ, ◌+◌, ◌-◌, ◌*◌, ◌%◌, ◌≤◌, ◌<◌, Bool, not, ◌&&◌, ◌||◌, [], ◌∷◌, ltb, leb, nat_eq, get_or,
  if◌then◌else◌,
}
use Prim.Native.Nat.{◌/◌}
use otc_rds_operator.Prelude.Int.{ℤ, pos_part, neg_part, sub_ℕ}

-- A parsed time; `zone` is the offset of its zone in seconds.
pub record Stamp : Type 0 where
  pub year : ℕ
  pub month : ℕ
  pub day : ℕ
  pub hour : ℕ
  pub minute : ℕ
  pub second : ℕ
  pub nanosecond : ℕ
  pub zone : ℤ

abbrev pub is_leap : ℕ → Bool
is_leap y = nat_eq (y % 4) 0 && (not (nat_eq (y % 100) 0) || nat_eq (y % 400) 0)

-- daysIn
unfoldable pub days_in : ℕ → ℕ → ℕ
days_in m y =
    if nat_eq m 2
    then (if is_leap y then 29 else 28)
    else if nat_eq m 4 || nat_eq m 6 || nat_eq m 9 || nat_eq m 11
    then 30
    else 31

-- The days from the start of year 0 to that of year `y`.
unfoldable pub days_before_year : ℕ → ℕ
days_before_year y = y * 365 + (y + 3) / 4 - (y + 99) / 100 + (y + 399) / 400

-- daysBefore, for a month from 1.
unfoldable pub days_before_month : ℕ → ℕ
days_before_month m =
    get_or (0 ∷ 0 ∷ 31 ∷ 59 ∷ 90 ∷ 120 ∷ 151 ∷ 181 ∷ 212 ∷ 243 ∷ 273 ∷ 304 ∷ 334 ∷ 365 ∷ []) m 0

-- The days of year `y` before month `m`.
unfoldable pub days_before : ℕ → ℕ → ℕ
days_before y m = days_before_month m + (if is_leap y && leb 3 m then 1 else 0)

unfoldable pub day_number : ℕ → ℕ → ℕ → ℕ
day_number y m d = days_before_year y + days_before y m + (d - 1)

-- 1970-01-01
abbrev pub epoch : ℕ
epoch = 719528

-- Milliseconds since the start of year 0, the offset of the zone left aside.
unfoldable pub local_milli : Stamp → ℕ
local_milli t =
    (((day_number t.year t.month t.day * 24 + t.hour) * 60 + t.minute) * 60 + t.second) * 1000
    + t.nanosecond / 1000000

-- UnixMilli
unfoldable pub unix_milli : Stamp → ℤ
unfolding local_milli
unix_milli t =
    sub_ℕ (local_milli t + neg_part t.zone * 1000) (epoch * 86400000 + pos_part t.zone * 1000)

-- The fields of a time of the calendar, in a zone of at most 25 hours.
pub record IsValid (t : Stamp) : Type 0 where
  pub year_in : t.year < 10000
  pub month_in : (1 ≤ t.month) × (t.month ≤ 12)
  pub day_in : (1 ≤ t.day) × (t.day ≤ days_in t.month t.year)
  pub hour_in : t.hour < 24
  pub minute_in : t.minute < 60
  pub second_in : t.second < 60
  pub nanosecond_in : t.nanosecond < 1000000000
  pub zone_in : pos_part t.zone + neg_part t.zone ≤ 90000

-- The day after a day of the calendar.
unfoldable pub next_day : ℕ → ℕ → ℕ → ℕ × ℕ × ℕ
next_day y m d =
    if ltb d (days_in m y) then (y, m, d + 1) else if ltb m 12 then (y, m + 1, 1) else (y + 1, 1, 1)

abbrev pub number_of : ℕ × ℕ × ℕ → ℕ
number_of (y, m, d) = day_number y m d
