-- ===== src/Config/Duration.antt =====
-- Go's time.Duration as internal/config/config.go prints it.
use Prim.Native.Nat.{◌/◌}
use otc_rds_operator.Prelude.{
  ℕ, zero, suc, ◌%◌, ◌^◌, String, ◌<>◌, Bool, false, not, ◌||◌, ltb, nat_eq, decimal, if◌then◌else◌,
}
use otc_rds_operator.Prelude.Int.{ℤ, pos, negsuc}

-- time.Second
abbrev pub second : ℤ
second = pos 1000000000

-- fmtFrac: the last `prec` digits of `v` as a fraction, without trailing zeros.
fraction_onto : ℕ → ℕ → Bool → String → String
unfolding decimal
fraction_onto zero v print acc = if print then "." <> acc else acc
fraction_onto (suc prec) v print acc =
    let shown = print || not (nat_eq (v % 10) 0) in
    fraction_onto prec (v / 10) shown (if shown then decimal (v % 10) <> acc else acc)

abbrev scaled : ℕ → ℕ → String → String
unfolding fraction_onto decimal
scaled prec v unit = decimal (v / 10 ^ prec) <> fraction_onto prec v false unit

-- Hours and minutes, in front of the seconds.
abbrev clock_text : ℕ → String → String
unfolding decimal
clock_text minutes seconds =
    if nat_eq minutes 0
    then seconds
    else if nat_eq (minutes / 60) 0
    then decimal minutes <> ("m" <> seconds)
    else decimal (minutes / 60) <> ("h" <> (decimal (minutes % 60) <> ("m" <> seconds)))

nanoseconds_text : ℕ → String
unfolding fraction_onto decimal
nanoseconds_text u =
    if nat_eq u 0
    then "0s"
    else if ltb u 1000
    then scaled 0 u "ns"
    else if ltb u 1000000
    then scaled 3 u "µs"
    else if ltb u 1000000000
    then scaled 6 u "ms"
    else clock_text (u / 1000000000 / 60)
        (decimal (u / 1000000000 % 60) <> fraction_onto 9 u false "s")

-- Duration.String
unfoldable pub duration_text : ℤ → String
unfolding nanoseconds_text
duration_text (pos u) = nanoseconds_text u
duration_text (negsuc u) = "-" <> nanoseconds_text (suc u)
