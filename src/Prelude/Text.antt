-- ===== src/Prelude/Text.antt =====
-- What the program uses of Go's `strings`, `strconv` and `regexp`, on native texts. Go's strings
-- are bytes; on valid UTF-8 the functions below agree with reading them as characters.
use Prim.Native.Nat.{ℕ, zero, suc, ◌+◌, ◌-◌, ◌*◌, ◌/◌, ◌%◌, Ordering}
use Prim.Native.Char.{Char, code}
use Prim.Native.String
use Prim.Native.String.{String, ◌++◌ as ◌<>◌}
use mathlib.Core.Bool.{Bool, true, false, not, ◌&&◌, ◌||◌}
use mathlib.Core.List.{List, [], ◌∷◌}
use mathlib.Core.Option.{Option, none, some}
use text.Mathlib.Text.{◌==◌}
use otc_rds_operator.Prelude.Tests.{ltb, leb, nat_eq, if◌then◌else◌}
use otc_rds_operator.Prelude.Lists.{get_or}
use otc_rds_operator.Prelude.Int.{ℤ, pos, negsuc, half64}

-- `a > b` on strings: lexicographic.
abbrev pub str_gt : String → String → Bool
str_gt a b = elim (String.compare a b) [ Ordering.gt ↦ true | _ ↦ false ]

unfoldable pub has_prefix : String → String → Bool
has_prefix s String.[] = true
has_prefix String.[] (String.◌∷◌ d p) = false
has_prefix (String.◌∷◌ c s) (String.◌∷◌ d p) = nat_eq (code c) (code d) && has_prefix s p

-- `strings.HasSuffix(s, suffix)`.
unfoldable pub has_suffix : String → String → Bool
has_suffix String.[] suffix = "" == suffix
has_suffix (String.◌∷◌ c s) suffix = String.◌∷◌ c s == suffix || has_suffix s suffix

-- `strings.Contains(s, part)`.
unfoldable pub contains : String → String → Bool
unfolding has_prefix
contains String.[] part = has_prefix "" part
contains (String.◌∷◌ c s) part = has_prefix (String.◌∷◌ c s) part || contains s part

-- Puts a character in front of the first piece.
abbrev onto_first : Char → List String → List String
onto_first c [] = (String.◌∷◌ c "") ∷ []
onto_first c (p ∷ ps) = (String.◌∷◌ c p) ∷ ps

-- `strings.Split(s, sep)` for a separator of one character, by its code.
unfoldable pub split : ℕ → String → List String
split sep String.[] = "" ∷ []
split sep (String.◌∷◌ c s) =
    let rest = split sep s in if nat_eq (code c) sep then "" ∷ rest else onto_first c rest

-- `unicode.IsSpace`.
unfoldable pub is_space : ℕ → Bool
is_space c =
    (leb 9 c && leb c 13)
    || nat_eq c 32
    || nat_eq c 0x85
    || nat_eq c 0xa0
    || nat_eq c 0x1680
    || (leb 0x2000 c && leb c 0x200a)
    || nat_eq c 0x2028
    || nat_eq c 0x2029
    || nat_eq c 0x202f
    || nat_eq c 0x205f
    || nat_eq c 0x3000

-- The pieces between single spaces, empty ones included.
pieces : String → List String
unfolding is_space
pieces String.[] = "" ∷ []
pieces (String.◌∷◌ c s) =
    let rest = pieces s in if is_space (code c) then "" ∷ rest else onto_first c rest

drop_empty : List String → List String
drop_empty [] = []
drop_empty (w ∷ ws) = let rest = drop_empty ws in if w == "" then rest else w ∷ rest

-- `strings.Fields(s)`.
unfoldable pub fields : String → List String
unfolding pieces drop_empty
fields s = drop_empty (pieces s)

-- `slices.Contains(words, w)`.
abbrev pub slice_contains : List String → String → Bool
slice_contains [] w = false
slice_contains (x ∷ xs) w = x == w || slice_contains xs w

-- `regexp.MatchString` for an expression `^[…]*$`, the class given as a test.
unfoldable pub matches_all : (ℕ → Bool) → String → Bool
matches_all p String.[] = true
matches_all p (String.◌∷◌ c s) = p (code c) && matches_all p s

abbrev pub is_alnum : ℕ → Bool
is_alnum c = (leb b'a' c && leb c b'z') || (leb b'A' c && leb c b'Z') || (leb b'0' c && leb c b'9')

abbrev is_digit : ℕ → Bool
is_digit c = leb b'0' c && leb c b'9'

digits_value : ℕ → String → ℕ
digits_value acc String.[] = acc
digits_value acc (String.◌∷◌ c s) = digits_value (acc * 10 + (code c - b'0')) s

abbrev not_digits : String → Bool
unfolding matches_all
not_digits s = not (matches_all is_digit s)

-- The nearest `int` at or above zero.
abbrev capped : ℕ → ℤ
capped n = if ltb n half64 then pos n else pos (half64 - 1)

-- The nearest `int` to -n.
abbrev negated : ℕ → ℤ
negated zero = pos 0
negated (suc n) = if ltb n half64 then negsuc n else negsuc (half64 - 1)

-- The value that `strconv.Atoi` returns beside its error: 0 for a text that is no number, and the
-- nearest `int` for a number that does not fit.
unfoldable pub atoi_value : String → ℤ
unfolding matches_all digits_value
atoi_value String.[] = pos 0
atoi_value (String.◌∷◌ c s) =
    if nat_eq (code c) b'-'
    then if s == "" || not_digits s then pos 0 else negated (digits_value 0 s)
    else if nat_eq (code c) b'+'
    then if s == "" || not_digits s then pos 0 else capped (digits_value 0 s)
    else if not_digits (String.◌∷◌ c s)
    then pos 0
    else capped (digits_value 0 (String.◌∷◌ c s))

abbrev digit : ℕ → String
digit d = get_or ("0" ∷ "1" ∷ "2" ∷ "3" ∷ "4" ∷ "5" ∷ "6" ∷ "7" ∷ "8" ∷ "9" ∷ []) d ""

-- Puts the digits of `n` in front of `acc`.
digits_onto : ℕ → ℕ → String → String
digits_onto zero n acc = acc
digits_onto (suc fuel) n acc =
    let text = digit (n % 10) <> acc in
    let rest = digits_onto fuel (n / 10) text in if ltb n 10 then text else rest

-- `strconv.FormatInt(n, 10)` of a number that is not negative: `n + 1` rounds are enough, for each
-- but the last makes `n` smaller.
unfoldable pub decimal : ℕ → String
unfolding digits_onto
decimal n = digits_onto (suc n) n ""

-- `fmt` prints a nil error so.
abbrev pub error_text : Option String → String
error_text none = "<nil>"
error_text (some e) = e

-- `fmt.Sprint` of an `int`.
unfoldable pub int_text : ℤ → String
unfolding decimal
int_text (pos n) = decimal n
int_text (negsuc n) = "-" <> decimal (suc n)
