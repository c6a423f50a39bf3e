-- ===== src/Time/Scan.antt =====
-- Go's package `time`: how Parse reads the pieces of a text.
use Prim.Native.Char.{code}
use Prim.Native.Nat.{◌/◌}
use otc_rds_operator.Prelude.{
  ℕ, zero, suc, ◌+◌, ◌-◌, ◌*◌, ◌%◌, ◌^◌, Bool, not, ◌&&◌, ◌||◌, String, ◌<>◌, List, [], ◌∷◌, ◌++◌,
  ltb, leb, nat_eq, if◌then◌else◌,
}

abbrev pub Bytes : Type 0
Bytes = List ℕ

-- UTF-8
abbrev utf8 : ℕ → Bytes
utf8 n =
    if ltb n 0x80
    then n ∷ []
    else if ltb n 0x800
    then (0xc0 + n / 64) ∷ (0x80 + n % 64) ∷ []
    else if ltb n 0x10000
    then (0xe0 + n / 4096) ∷ (0x80 + n / 64 % 64) ∷ (0x80 + n % 64) ∷ []
    else (0xf0 + n / 262144) ∷ (0x80 + n / 4096 % 64) ∷ (0x80 + n / 64 % 64) ∷ (0x80 + n % 64) ∷ []

-- The bytes of a text.
unfoldable pub bytes : String → Bytes
bytes String.[] = []
bytes (String.◌∷◌ c s) = utf8 (code c) ++ bytes s

-- One character of a table.
pick : String → ℕ → String
pick String.[] n = ""
pick (String.◌∷◌ c s) zero = String.◌∷◌ c ""
pick (String.◌∷◌ c s) (suc n) = pick s n

abbrev printable : String
printable =
    " !\"#$%&'()*+,-./0123456789:;<=>?@ABCDEFGHIJKLMNOPQRSTUVWXYZ[\\]^_`abcdefghijklmnopqrstuvwxyz{|}~\u{7f}"

quoted_byte : ℕ → String
unfolding pick
quoted_byte c =
    if ltb c 0x20 || leb 0x80 c
    then "\\x" <> (pick "0123456789abcdef" (c / 16) <> pick "0123456789abcdef" (c % 16))
    else if nat_eq c b'"' || nat_eq c b'\\'
    then "\\" <> pick printable (c - 0x20)
    else pick printable (c - 0x20)

quoted_bytes : Bytes → String
unfolding quoted_byte
quoted_bytes [] = "\""
quoted_bytes (c ∷ s) = quoted_byte c <> quoted_bytes s

-- quote
unfoldable pub quote : Bytes → String
unfolding quoted_bytes
quote s = "\"" <> quoted_bytes s

-- What the reading of one piece comes to: errBad is `bad`, a range error names what is out of range.
pub data Scan (A : Type 0) : Type 0 where
  got : A → Bytes → Scan A
  bad : Scan A
  outside : String → Scan A

abbrev pub is_digit : ℕ → Bool
is_digit c = leb b'0' c && leb c b'9'

-- getnum
unfoldable pub getnum : Bool → Bytes → Scan ℕ
getnum fixed [] = bad
getnum fixed (c ∷ []) = if is_digit c && not fixed then got (c - b'0') [] else bad
getnum fixed (c ∷ d ∷ s) =
    if not (is_digit c)
    then bad
    else if is_digit d
    then got ((c - b'0') * 10 + (d - b'0')) s
    else if fixed
    then bad
    else got (c - b'0') (d ∷ s)

-- The year, in four digits.
unfoldable pub long_year : Bytes → Scan ℕ
long_year (a ∷ b ∷ c ∷ d ∷ s) =
    if is_digit a && is_digit b && is_digit c && is_digit d
    then got ((((a - b'0') * 10 + (b - b'0')) * 10 + (c - b'0')) * 10 + (d - b'0')) s
    else bad
long_year _ = bad

-- A range check of a number.
unfoldable pub within : (ℕ → Bool) → String → Scan ℕ → Scan ℕ
within good name (got n s) = if good n then got n s else outside name
within good name bad = bad
within good name (outside x) = outside x

-- The digits of a fraction, of which the first nine count: `left` of them are still to come.
unfoldable pub nanoseconds : ℕ → ℕ → Bytes → ℕ × Bytes
nanoseconds left n [] = (n * 10 ^ left, [])
nanoseconds zero n (c ∷ s) =
    let rest = nanoseconds zero n s in if is_digit c then rest else (n, c ∷ s)
nanoseconds (suc left) n (c ∷ s) =
    let rest = nanoseconds left (n * 10 + (c - b'0')) s in
    if is_digit c then rest else (n * 10 ^ suc left, c ∷ s)

-- A fraction of a second, which may follow the seconds although the layout has none.
unfoldable pub fraction : Bytes → ℕ × Bytes
unfolding nanoseconds
fraction (p ∷ d ∷ s) =
    if (nat_eq p b'.' || nat_eq p b',') && is_digit d
    then nanoseconds 9 0 (d ∷ s)
    else (0, p ∷ d ∷ s)
fraction s = (0, s)
