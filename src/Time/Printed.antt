-- ===== src/Time/Printed.antt =====
-- Go's package `time`: texts in the form of RFC 3339, and what Parse makes of them.
use otc_rds_operator.Prelude.{
  ℕ, ◌+◌, ◌*◌, ◌%◌, ◌≤◌, ◌<◌, ◌≡◌, refl, true, false, Bool, String, Option, none, some, [], ◌∷◌,
  ltb, arith,
}
use Prim.Native.Nat.{◌/◌}
use otc_rds_operator.Prelude.Int.{ℤ, pos, sub_ℕ}
use otc_rds_operator.Time.Civil.{Stamp, days_in}
use otc_rds_operator.Time.Scan.{Bytes, got, getnum, long_year, within, fraction}
use otc_rds_operator.Time.Rfc3339.{
  refused, cannot_parse, month_of, day_of, minute_of, second_of, clock_of, zone_of, ◌>>=◌,
  optional_fraction, judge, piece, parsed, zone, in_month, date, clock, check_day, stamp,
}

-- The zone as it is written: hours and minutes.
pub data Zone : Type 0 where
  utc : Zone
  east west : ℕ → ℕ → Zone

-- The parts of a text; the milliseconds may be absent.
pub record Written : Type 0 where
  pub year : ℕ
  pub month : ℕ
  pub day : ℕ
  pub hour : ℕ
  pub minute : ℕ
  pub second : ℕ
  pub millis : Option ℕ
  pub zone : Zone

abbrev nanos : Option ℕ → ℕ
nanos none = 0
nanos (some n) = n * 1000000

abbrev seconds_of : Zone → ℤ
seconds_of utc = pos 0
seconds_of (east h m) = pos ((h * 60 + m) * 60)
seconds_of (west h m) = sub_ℕ 0 ((h * 60 + m) * 60)

-- The time that is meant.
abbrev pub meant : Written → Stamp
meant w = record {
  year = w.year;
  month = w.month;
  day = w.day;
  hour = w.hour;
  minute = w.minute;
  second = w.second;
  nanosecond = nanos w.millis;
  zone = seconds_of w.zone;
}

abbrev IsZone : Zone → Type 0
IsZone utc = Unit
IsZone (east h m) = (h < 24) × (m < 60)
IsZone (west h m) = (h < 24) × (m < 60)

abbrev IsMillis : Option ℕ → Type 0
IsMillis none = Unit
IsMillis (some n) = n < 1000

pub record IsWritten (w : Written) : Type 0 where
  pub date_in : (w.year < 10000) × (1 ≤ w.month) × (w.month ≤ 12)
  pub day_in : (1 ≤ w.day) × (w.day ≤ days_in w.month w.year)
  pub clock_in : (w.hour < 24) × (w.minute < 60) × (w.second < 60)
  pub millis_in : IsMillis w.millis
  pub zone_in : IsZone w.zone

-- A digit, and two and four of them, in front of a text.
abbrev digit : ℕ → ℕ
digit n = b'0' + n

abbrev two : ℕ → Bytes → Bytes
two n s = digit (n / 10) ∷ digit (n % 10) ∷ s

abbrev four : ℕ → Bytes → Bytes
four n s = digit (n / 1000) ∷ digit (n / 100 % 10) ∷ digit (n / 10 % 10) ∷ digit (n % 10) ∷ s

abbrev print_millis : Option ℕ → Bytes → Bytes
print_millis none s = s
print_millis (some n) s = b'.' ∷ digit (n / 100) ∷ digit (n / 10 % 10) ∷ digit (n % 10) ∷ s

abbrev print_zone : Zone → Bytes → Bytes
print_zone utc s = b'Z' ∷ s
print_zone (east h m) s = b'+' ∷ two h (b':' ∷ two m s)
print_zone (west h m) s = b'-' ∷ two h (b':' ∷ two m s)

abbrev print_date : ℕ → ℕ → ℕ → Bytes → Bytes
print_date y m d s = four y (b'-' ∷ two m (b'-' ∷ two d s))

abbrev print_clock : ℕ → ℕ → ℕ → Option ℕ → Bytes → Bytes
print_clock h m sec frac s = two h (b':' ∷ two m (b':' ∷ two sec (print_millis frac s)))

-- The text, in bytes.
abbrev pub print : Written → Bytes
print w =
    print_date w.year w.month w.day
      (b'T' ∷ print_clock w.hour w.minute w.second w.millis (print_zone w.zone []))

days_in-le : (m y : ℕ) → days_in m y ≤ 31
unfolding days_in
days_in-le m y = ground arith

getnum-two : (fixed : Bool) (n : ℕ) (s : Bytes) → n < 100 → getnum fixed (two n s) ≡ got n s
unfolding getnum
getnum-two fixed n s h = ground arith

long_year-four : (n : ℕ) (s : Bytes) → n < 10000 → long_year (four n s) ≡ got n s
unfolding long_year
long_year-four n s h = ground arith

zone-print_zone : (z : Zone) → IsZone z → zone (print_zone z []) ≡ got (seconds_of z) []
unfolding zone
zone-print_zone utc h = refl
zone-print_zone (east a b) h = ground arith
zone-print_zone (west a b) h = ground arith

-- A text that does not go on with a fraction.
fraction-print_millis :
    (frac : Option ℕ) (z : Zone)
    → IsMillis frac
    → fraction (print_millis frac (print_zone z [])) ≡ (nanos frac, print_zone z [])
unfolding fraction
fraction-print_millis none utc h = refl
fraction-print_millis none (east a b) h = refl
fraction-print_millis none (west a b) h = refl
fraction-print_millis (some n) utc h = ground arith
fraction-print_millis (some n) (east a b) h = ground arith
fraction-print_millis (some n) (west a b) h = ground arith

within-month : (m : ℕ) (s : Bytes) → 1 ≤ m → m ≤ 12 → within in_month "month" (got m s) ≡ got m s
unfolding within in_month
within-month m s lo hi = ground arith

within-lt :
    (k n : ℕ) (name : String) (s : Bytes) → n < k → within (λ x. ltb x k) name (got n s) ≡ got n s
unfolding within
within-lt k n name s h = ground arith

date-print :
    (y m d : ℕ) (s : Bytes)
    → y < 10000
    → 1 ≤ m
    → m ≤ 12
    → d < 100
    → date (print_date y m d s) ≡ parsed (y, m, d) s
unfolding date month_of day_of
date-print y m d s hy lo hi hd =
    rw
      (
        long_year-four y (b'-' ∷ two m (b'-' ∷ two d s)) hy,
        getnum-two true m (b'-' ∷ two d s) (omega arith),
        within-month m (b'-' ∷ two d s) lo hi,
        getnum-two true d s hd,
        ◌>>=◌,
        judge,
        piece,
      )
      refl

clock-print :
    (h m sec : ℕ) (frac : Option ℕ) (z : Zone)
    → h < 24
    → m < 60
    → sec < 60
    → IsMillis frac
    → clock (print_clock h m sec frac (print_zone z []))
      ≡ parsed (h, m, sec, nanos frac) (print_zone z [])
unfolding clock minute_of second_of
clock-print h m sec frac z hh hm hs hf =
    rw
      (
        getnum-two false h _ (omega arith),
        within-lt 24 h "hour" _ hh,
        getnum-two true m _ (omega arith),
        within-lt 60 m "minute" _ hm,
        getnum-two true sec _ (omega arith),
        within-lt 60 sec "second" _ hs,
        fraction-print_millis frac z hf,
        ◌>>=◌,
        judge,
        piece,
        optional_fraction,
      )
      refl

check_day-valid :
    (t : Stamp) (s : Bytes)
    → (1 ≤ t.day) × (t.day ≤ days_in t.month t.year)
    → check_day t s ≡ parsed t s
unfolding check_day
check_day-valid t s h = ground arith

-- A text in the form of RFC 3339 is parsed as the time that is meant.
pub stamp-print : (w : Written) → IsWritten w → stamp (print w) ≡ parsed (meant w) []
unfolding stamp clock_of zone_of
stamp-print w h =
    rw
      (
        date-print w.year w.month w.day _ h.date_in.0 h.date_in.1 h.date_in.2
            (omega (arith, days_in-le w.month w.year, h.day_in)),
        clock-print w.hour w.minute w.second w.millis w.zone h.clock_in.0 h.clock_in.1 h.clock_in.2
            h.millis_in,
        zone-print_zone w.zone h.zone_in,
        check_day-valid (meant w) [] h.day_in,
        ◌>>=◌,
        judge,
        piece,
      )
      refl

-- A text that ends with the seconds.
abbrev pub print_local : Written → Bytes
print_local w =
    print_date w.year w.month w.day (b'T' ∷ print_clock w.hour w.minute w.second w.millis [])

fraction-print_local :
    (frac : Option ℕ) → IsMillis frac → fraction (print_millis frac []) ≡ (nanos frac, [])
unfolding fraction
fraction-print_local none h = refl
fraction-print_local (some n) h = ground arith

clock-print_local :
    (h m sec : ℕ) (frac : Option ℕ)
    → h < 24
    → m < 60
    → sec < 60
    → IsMillis frac
    → clock (print_clock h m sec frac []) ≡ parsed (h, m, sec, nanos frac) []
unfolding clock minute_of second_of
clock-print_local h m sec frac hh hm hs hf =
    rw
      (
        getnum-two false h _ (omega arith),
        within-lt 24 h "hour" _ hh,
        getnum-two true m _ (omega arith),
        within-lt 60 m "minute" _ hm,
        getnum-two true sec _ (omega arith),
        within-lt 60 sec "second" _ hs,
        fraction-print_local frac hf,
        ◌>>=◌,
        judge,
        piece,
        optional_fraction,
      )
      refl

-- Such a text has no zone, and is refused for it.
pub stamp-print_local :
    (w : Written) → IsWritten w → stamp (print_local w) ≡ refused (cannot_parse [] "Z07:00")
unfolding stamp clock_of zone_of zone
stamp-print_local w h =
    rw
      (
        date-print w.year w.month w.day _ h.date_in.0 h.date_in.1 h.date_in.2
            (omega (arith, days_in-le w.month w.year, h.day_in)),
        clock-print_local w.hour w.minute w.second w.millis h.clock_in.0 h.clock_in.1 h.clock_in.2
            h.millis_in,
        ◌>>=◌,
        judge,
        piece,
      )
      refl
