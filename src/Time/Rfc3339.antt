-- ===== src/Time/Rfc3339.antt =====
-- Go's package `time`: Parse with the layout RFC3339, "2006-01-02T15:04:05Z07:00".
use otc_rds_operator.Prelude.{
  ℕ, ◌+◌, ◌-◌, ◌*◌, Bool, true, false, ◌&&◌, ◌||◌, String, ◌<>◌, Option, none, some, [], ◌∷◌, ltb,
  leb, nat_eq, if◌then◌else◌,
}
use otc_rds_operator.Prelude.Int.{ℤ, pos, sub_ℕ}
use otc_rds_operator.Cloud.{Reply, ok, failed}
use otc_rds_operator.Time.Civil.{Stamp, days_in}
use otc_rds_operator.Time.Scan.{
  Bytes, bytes, quote, Scan, got, bad, outside, is_digit, getnum, long_year, within, fraction,
}

-- ParseError: an element of the layout that the rest of the text does not fit, or a message.
pub data ParseError : Type 0 where
  cannot_parse : Bytes → String → ParseError
  message : String → ParseError

pub data Parsed (A : Type 0) : Type 0 where
  parsed : A → Bytes → Parsed A
  refused : ParseError → Parsed A

abbrev pub Parser : Type 0 → Type 0
Parser A = Bytes → Parsed A

infixl 10 ◌>>=◌ ◌>>◌
abbrev pub ◌>>=◌ : {A B : Type 0} → Parser A → (A → Parser B) → Parser B
◌>>=◌ m f s = elim (m s) [ parsed a rest ↦ f a rest | refused e ↦ refused e ]

abbrev pub ◌>>◌ : {A B : Type 0} → Parser A → Parser B → Parser B
m >> n = m >>= λ _. n

abbrev pub accept : {A : Type 0} → A → Parser A
accept a s = parsed a s

abbrev pub out_of_range : String → ParseError
out_of_range name = message (": " <> (name <> " out of range"))

-- One element of the layout.
abbrev pub judge : {A : Type 0} → String → Bytes → Scan A → Parsed A
judge element hold (got a s) = parsed a s
judge element hold bad = refused (cannot_parse hold element)
judge element hold (outside name) = refused (out_of_range name)

abbrev pub piece : {A : Type 0} → String → (Bytes → Scan A) → Parser A
piece element scan s = judge element s (scan s)

-- skip, for a prefix of one character
unfoldable pub skip : ℕ → String → Parser Unit
skip c element [] = refused (cannot_parse [] element)
skip c element (d ∷ s) = if nat_eq d c then parsed tt s else refused (cannot_parse (d ∷ s) element)

-- The number of a zone's hours or minutes.
abbrev pub two_digits : ℕ → ℕ → Option ℕ
two_digits c d = if is_digit c && is_digit d then some ((c - b'0') * 10 + (d - b'0')) else none

-- The tests use > and not >=.
abbrev pub offset_of : ℕ → Option ℕ → Option ℕ → Bytes → Scan ℤ
offset_of sign none m s = bad
offset_of sign (some h) none s = if ltb 24 h then outside "time zone offset hour" else bad
offset_of sign (some h) (some m) s =
    if ltb 60 m
    then outside "time zone offset minute"
    else if ltb 24 h
    then outside "time zone offset hour"
    else if nat_eq sign b'+'
    then got (pos ((h * 60 + m) * 60)) s
    else if nat_eq sign b'-'
    then got (sub_ℕ 0 ((h * 60 + m) * 60)) s
    else bad

abbrev pub offset : Bytes → Scan ℤ
offset (sign ∷ a ∷ b ∷ colon ∷ c ∷ d ∷ s) =
    if nat_eq colon b':' then offset_of sign (two_digits a b) (two_digits c d) s else bad
offset _ = bad

-- "Z07:00"
unfoldable pub zone : Bytes → Scan ℤ
zone [] = bad
zone (c ∷ s) = if nat_eq c b'Z' then got (pos 0) s else offset (c ∷ s)

unfoldable pub in_month : ℕ → Bool
in_month m = leb 1 m && leb m 12

-- A fraction may be absent, and never fails.
abbrev pub optional_fraction : Parser ℕ
optional_fraction s = let (n, rest) = fraction s in parsed n rest

-- "02", behind the year and the month.
unfoldable pub day_of : ℕ → ℕ → Parser (ℕ × ℕ × ℕ)
day_of y m = do d ← piece "02" (getnum true); accept (y, m, d)

-- "01-02"
abbrev pub month_scan : Bytes → Scan ℕ
month_scan s = within in_month "month" (getnum true s)

unfoldable pub month_of : ℕ → Parser (ℕ × ℕ × ℕ)
unfolding skip day_of
month_of y = do m ← piece "01" month_scan; skip b'-' "-"; day_of y m

-- "2006-01-02"
unfoldable pub date : Parser (ℕ × ℕ × ℕ)
unfolding skip month_of
date = do y ← piece "2006" long_year; skip b'-' "-"; month_of y

-- Numbers of hours, and of minutes or seconds.
abbrev pub hour_scan : Bytes → Scan ℕ
hour_scan s = within (λ n. ltb n 24) "hour" (getnum false s)

abbrev pub sixty_scan : String → Bytes → Scan ℕ
sixty_scan name s = within (λ n. ltb n 60) name (getnum true s)

-- "05", behind the hours and the minutes, and a fraction.
unfoldable pub second_of : ℕ → ℕ → Parser (ℕ × ℕ × ℕ × ℕ)
second_of h m = do
  sec ← piece "05" (sixty_scan "second")
  frac ← optional_fraction
  accept (h, m, sec, frac)

-- "04:05"
unfoldable pub minute_of : ℕ → Parser (ℕ × ℕ × ℕ × ℕ)
unfolding skip second_of
minute_of h = do m ← piece "04" (sixty_scan "minute"); skip b':' ":"; second_of h m

-- "15:04:05"
unfoldable pub clock : Parser (ℕ × ℕ × ℕ × ℕ)
unfolding skip minute_of
clock = do h ← piece "15" hour_scan; skip b':' ":"; minute_of h

unfoldable pub at_end : Parser Unit
at_end [] = parsed tt []
at_end (c ∷ s) = refused (message (": extra text: " <> quote (c ∷ s)))

unfoldable pub check_day : Stamp → Parser Stamp
check_day t s =
    if ltb t.day 1 || ltb (days_in t.month t.year) t.day
    then refused (out_of_range "day")
    else parsed t s

abbrev pub stamp_of : ℕ × ℕ × ℕ → ℕ × ℕ × ℕ × ℕ → ℤ → Stamp
stamp_of (y, m, d) (h, min, sec, frac) z = record {
  year = y;
  month = m;
  day = d;
  hour = h;
  minute = min;
  second = sec;
  nanosecond = frac;
  zone = z;
}

unfoldable pub zone_of : ℕ × ℕ × ℕ → ℕ × ℕ × ℕ × ℕ → Parser Stamp
unfolding at_end
zone_of d c = do z ← piece "Z07:00" zone; at_end; check_day (stamp_of d c z)

unfoldable pub clock_of : ℕ × ℕ × ℕ → Parser Stamp
unfolding zone_of
clock_of d = do c ← clock; zone_of d c

unfoldable pub stamp : Parser Stamp
unfolding skip clock_of
stamp = do d ← date; skip b'T' "T"; clock_of d

-- ParseError.Error
abbrev pub problem_text : Bytes → ParseError → String
problem_text value (cannot_parse hold element) =
    "parsing time "
    <> (quote value
        <> (" as \"2006-01-02T15:04:05Z07:00\": cannot parse "
            <> (quote hold <> (" as \"" <> (element <> "\"")))))
problem_text value (message m) = "parsing time " <> (quote value <> m)

abbrev pub result_of : Bytes → Parsed Stamp → Reply Stamp
result_of value (parsed t rest) = ok t
result_of value (refused e) = failed (problem_text value e)

-- time.Parse(time.RFC3339, value)
unfoldable pub parse_rfc3339 : String → Reply Stamp
unfolding stamp bytes
parse_rfc3339 value = result_of (bytes value) (stamp (bytes value))
