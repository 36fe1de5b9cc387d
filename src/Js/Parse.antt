-- ===== src/Js/Parse.antt =====
-- `Number(text)`: the numeric literals of a string, white space trimmed, NaN for anything else. The
-- value is the exact fraction of the literal; the rounding to a double is not modelled.
use cloudflare_r2_bench.Base.{
  ℕ, suc, ◌+◌, ◌-◌, ◌*◌, ◌^◌, Bool, true, false, ◌&&◌, ◌||◌, Option, none, some, [], ◌∷◌, Text,
  codes, text_eq, leb, ltb, ◌==◌, if◌then◌else◌,
}
use mathlib.Core.List.{reverse}
use cloudflare_r2_bench.Js.Number.{Number, nan, infinity, neg_infinity, fraction, whole}

is_space : ℕ → Bool
is_space c =
    (leb 9 c && leb c 13)
    || c == 32
    || c == 160
    || c == 0xfeff
    || c == 0x1680
    || (leb 0x2000 c && leb c 0x200a)
    || c == 0x2028
    || c == 0x2029
    || c == 0x202f
    || c == 0x205f
    || c == 0x3000

trim_start : Text → Text
trim_start [] = []
trim_start (c ∷ s) = let rest = trim_start s in if is_space c then rest else c ∷ s

trim : Text → Text
trim s = reverse (trim_start (reverse (trim_start s)))

is_digit : ℕ → Bool
is_digit c = leb b'0' c && leb c b'9'

record Digits : Type 0 where
  value : ℕ
  count : ℕ
  rest : Text

-- The longest run of decimal digits.
digit_run : Text → ℕ → ℕ → Digits
digit_run [] value count = record { value = value; count = count; rest = [] }
digit_run (c ∷ s) value count =
    let more = digit_run s (value * 10 + (c - b'0')) (suc count) in
    if is_digit c then more else record { value = value; count = count; rest = c ∷ s }

-- `units * 10 ^ up / 10 ^ down`.
scaled : Bool → ℕ → ℕ → ℕ → Number
scaled negative units up down = fraction negative (units * 10 ^ up) (10 ^ down - 1)

exponent_digits : Bool → ℕ → ℕ → Bool → Digits → Number
exponent_digits negative units places down d =
    if d.count == 0 || not_empty d.rest
    then nan
    else if down
    then scaled negative units 0 (places + d.value)
    else scaled negative units d.value places
  where
    not_empty : Text → Bool
    not_empty [] = false
    not_empty (_ ∷ _) = true

-- What may follow the digits: nothing, or an exponent.
exponent : Bool → ℕ → ℕ → Text → Number
exponent negative units places [] = scaled negative units 0 places
exponent negative units places (c ∷ []) = nan
exponent negative units places (c ∷ sign ∷ s) =
    if c == b'e' || c == b'E'
    then if sign == b'-'
      then exponent_digits negative units places true (digit_run s 0 0)
      else if sign == b'+'
      then exponent_digits negative units places false (digit_run s 0 0)
      else exponent_digits negative units places false (digit_run (sign ∷ s) 0 0)
    else nan

after_point : Bool → Digits → Digits → Number
after_point negative int frac =
    if int.count + frac.count == 0 then nan else exponent negative frac.value frac.count frac.rest

after_int : Bool → Digits → Text → Number
after_int negative int [] = if int.count == 0 then nan else scaled negative int.value 0 0
after_int negative int (c ∷ s) =
    if c == b'.'
    then after_point negative int (digit_run s int.value 0)
    else if int.count == 0
    then nan
    else exponent negative int.value 0 (c ∷ s)

unsigned : Bool → Text → Number
unsigned negative s =
    if text_eq s (codes "Infinity")
    then if negative then neg_infinity else infinity
    else let int = digit_run s 0 0 in after_int negative int int.rest

-- A digit of base 2, 8 or 16.
base_digit : ℕ → ℕ → Option ℕ
base_digit base c =
    let value : ℕ =
      if is_digit c
      then c - b'0'
      else if leb b'a' c && leb c b'f'
      then c - b'a' + 10
      else if leb b'A' c && leb c b'F'
      then c - b'A' + 10
      else 16 in
    if ltb value base then some value else none

based : ℕ → ℕ → Text → Number
based base acc [] = whole acc
based base acc (c ∷ s) = elim (base_digit base c) [
  | none ↦ nan
  | some d ↦ based base (acc * base + d) s
]

literal : Text → Number
literal [] = whole 0
literal (c ∷ []) = unsigned false (c ∷ [])
literal (c ∷ d ∷ []) =
    if c == b'-'
    then unsigned true (d ∷ [])
    else if c == b'+'
    then unsigned false (d ∷ [])
    else unsigned false (c ∷ d ∷ [])
literal (c ∷ d ∷ e ∷ s) =
    if c == b'0' && (d == b'x' || d == b'X')
    then based 16 0 (e ∷ s)
    else if c == b'0' && (d == b'o' || d == b'O')
    then based 8 0 (e ∷ s)
    else if c == b'0' && (d == b'b' || d == b'B')
    then based 2 0 (e ∷ s)
    else if c == b'-'
    then unsigned true (d ∷ e ∷ s)
    else if c == b'+'
    then unsigned false (d ∷ e ∷ s)
    else unsigned false (c ∷ d ∷ e ∷ s)

unfoldable pub string_to_number : Text → Number
unfolding literal based base_digit unsigned after_int after_point exponent exponent_digits scaled
    digit_run is_digit trim trim_start is_space
string_to_number s = literal (trim s)
