-- ===== src/Variables.antt =====
-- internal/env/env.go: the variables of a process, and `strconv.Atoi` for an `int` of 64 bits. A
-- variable that is not set reads as the empty text.
use cloudflare_r2_bench.Base.{
  ℕ, zero, suc, ◌+◌, ◌-◌, ◌*◌, ◌^◌, ◌&&◌, Option, none, some, [], ◌∷◌, Text, ltb, leb, ◌==◌,
  if◌then◌else◌,
}

-- `os.Getenv`.
abbrev pub Variables : Type 0
Variables = Text → Text

-- `negsuc n` is -(n + 1).
pub data ℤ : Type 0 where
  pos : ℕ → ℤ
  negsuc : ℕ → ℤ

abbrev pub negated : ℕ → ℤ
negated zero = pos 0
negated (suc n) = negsuc n

abbrev pub pos_part : ℤ → ℕ
pos_part (pos n) = n
pos_part (negsuc n) = 0

-- The number of some digits, after those that gave `n`.
unfoldable pub digits_value : ℕ → Text → Option ℕ
digits_value n [] = some n
digits_value n (c ∷ cs) =
    let rest = digits_value (10 * n + (c - b'0')) cs in
    if leb b'0' c && leb c b'9' then rest else none

abbrev pub unsigned_value : Text → Option ℕ
unsigned_value [] = none
unsigned_value (c ∷ cs) = digits_value 0 (c ∷ cs)

abbrev pub in_range : ℕ → ℤ → Option ℕ → Option ℤ
in_range limit sign none = none
in_range limit (pos _) (some n) = if ltb n limit then some (pos n) else none
in_range limit (negsuc _) (some n) = if leb n limit then some (negated n) else none

-- `strconv.Atoi`: a sign, perhaps, then digits; `none` where it returns an error.
unfoldable pub atoi : Text → Option ℤ
unfolding digits_value
atoi [] = none
atoi (c ∷ cs) =
    if c == b'-'
    then in_range (2 ^ 63) (negsuc 0) (unsigned_value cs)
    else if c == b'+'
    then in_range (2 ^ 63) (pos 0) (unsigned_value cs)
    else in_range (2 ^ 63) (pos 0) (unsigned_value (c ∷ cs))

-- `env.String`.
abbrev pub or_text : Text → Text → Text
or_text [] fallback = fallback
or_text (c ∷ cs) fallback = c ∷ cs

unfoldable pub string_var : Variables → Text → Text → Text
string_var vars key fallback = or_text (vars key) fallback

-- `env.Int`: a value that is no number counts as not set.
abbrev pub or_int : Option ℤ → ℤ → ℤ
or_int none fallback = fallback
or_int (some n) fallback = n

unfoldable pub int_var : Variables → Text → ℤ → ℤ
unfolding atoi
int_var vars key fallback = or_int (atoi (vars key)) fallback
