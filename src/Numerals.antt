-- ===== src/Numerals.antt =====
-- Python's `str(n)` and `int(s)`, which app/security.py, app/deps.py and app/routers/reports.py
-- call.
pub mod RoundTrip
use Prim.Native.Nat.{zero}
use Prim.Native.Char.{Char, code}
use office_attendance_backen.Base.{
  ℕ, suc, ◌+◌, ◌-◌, ◌*◌, ◌/◌, ◌%◌, ◌==◌, ◌&&◌, ◌||◌, leb, String, Bool, true, false, Option, none,
  some, List, [], ◌∷◌, if◌then◌else◌,
}

pub data ℤ : Type 0 where
  pos negsuc : ℕ → ℤ

-- `-n`
abbrev negate : ℕ → ℤ
negate zero = pos zero
negate (suc n) = negsuc n

abbrev pub digit : ℕ → Char
digit d =
    if d == 0
    then "0"
    else if d == 1
    then "1"
    else if d == 2
    then "2"
    else if d == 3
    then "3"
    else if d == 4
    then "4"
    else if d == 5
    then "5"
    else if d == 6
    then "6"
    else if d == 7
    then "7"
    else if d == 8
    then "8"
    else "9"

-- The digits of a number in front of a text. A number needs no more rounds than itself.
unfoldable emit : ℕ → ℕ → String → String
emit zero n out = out
emit (suc rounds) zero out = out
emit (suc rounds) (suc m) out = emit rounds (suc m / 10) (String.◌∷◌ (digit (suc m % 10)) out)

-- `str(n)`, of a number that is not negative.
unfoldable pub str_of : ℕ → String
unfolding emit
str_of zero = "0"
str_of (suc n) = emit (suc n) (suc n) ""

-- The zeros of Unicode's decimal digits, each the first of ten.
abbrev decimal_zeros : List ℕ
decimal_zeros =
    48 ∷ 1632 ∷ 1776 ∷ 1984 ∷ 2406 ∷ 2534 ∷ 2662 ∷ 2790 ∷ 2918 ∷ 3046 ∷ 3174 ∷ 3302 ∷ 3430 ∷ 3558
    ∷ 3664 ∷ 3792 ∷ 3872 ∷ 4160 ∷ 4240 ∷ 6112 ∷ 6160 ∷ 6470 ∷ 6608 ∷ 6784 ∷ 6800 ∷ 6992 ∷ 7088
    ∷ 7232 ∷ 7248 ∷ 42528 ∷ 43216 ∷ 43264 ∷ 43472 ∷ 43504 ∷ 43600 ∷ 44016 ∷ 65296 ∷ 66720 ∷ 68912
    ∷ 69734 ∷ 69872 ∷ 69942 ∷ 70096 ∷ 70384 ∷ 70736 ∷ 70864 ∷ 71248 ∷ 71360 ∷ 71472 ∷ 71904 ∷ 72016
    ∷ 72784 ∷ 73040 ∷ 73120 ∷ 92768 ∷ 92864 ∷ 93008 ∷ 120782 ∷ 120792 ∷ 120802 ∷ 120812 ∷ 120822
    ∷ 123200 ∷ 123632 ∷ 125264 ∷ 130032 ∷ []

abbrev digit_in : List ℕ → ℕ → Option ℕ
digit_in [] c = none
digit_in (z ∷ zs) c =
    let rest = digit_in zs c in if leb z c && leb c (z + 9) then some (c - z) else rest

-- The value of a decimal digit.
unfoldable pub digit_of : ℕ → Option ℕ
digit_of c = digit_in decimal_zeros c

-- What `int` skips at both ends.
abbrev is_blank : ℕ → Bool
is_blank c =
    (leb 9 c && leb c 13)
    || c == 32
    || (leb 8192 c && leb c 8202)
    || c == 133
    || c == 160
    || c == 5760
    || c == 8232
    || c == 8233
    || c == 8239
    || c == 8287
    || c == 12288

unfoldable all_blank : String → Bool
all_blank String.[] = true
all_blank (String.◌∷◌ c s) = let rest = all_blank s in is_blank (code c) && rest

-- The digits behind those that make `n`; an underscore may stand between two digits.
unfoldable scan : Bool → String → ℕ → Option ℕ
unfolding all_blank
scan after_digit String.[] n = if after_digit then some n else none
scan after_digit (String.◌∷◌ c s) n = elim (digit_of (code c)) [
  | some d ↦ scan true s (n * 10 + d)
  | none ↦
      let rest = scan false s n in
      if after_digit && code c == b'_'
      then rest
      else if after_digit && is_blank (code c) && all_blank s
      then some n
      else none
]

unfoldable lskip : String → String
lskip String.[] = ""
lskip (String.◌∷◌ c s) = let rest = lskip s in if is_blank (code c) then rest else String.◌∷◌ c s

abbrev with_sign : (ℕ → ℤ) → Option ℕ → Option ℤ
with_sign f none = none
with_sign f (some n) = some (f n)

unfoldable signed : String → Option ℤ
unfolding scan
signed String.[] = none
signed (String.◌∷◌ c s) =
    if code c == b'+'
    then with_sign pos (scan false s 0)
    else if code c == b'-'
    then with_sign negate (scan false s 0)
    else with_sign pos (scan false (String.◌∷◌ c s) 0)

-- `int(s)`, or `none` where it raises ValueError.
unfoldable pub int_of : String → Option ℤ
unfolding lskip signed
int_of s = signed (lskip s)
