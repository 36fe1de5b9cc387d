-- ===== src/Js/Number.antt =====
-- JavaScript numbers as the source uses them: `Math.floor`, `Number.isFinite`, comparisons, and the
-- passage to a count. A finite number is a sign and a fraction; `parts` is the denominator less one.
-- A double is such a fraction exactly; what a double rounds is not modelled, so the numbers of a
-- request and the times computed from them stay below 2 ^ 53.
use cloudflare_r2_bench.Base.{
  ℕ, suc, ◌+◌, ◌*◌, ◌/◌, Bool, true, false, not, ◌&&◌, ltb, ◌==◌, Option, none, some,
}

pub data Number : Type 0 where
  nan infinity neg_infinity : Number
  fraction : (negative : Bool) (units parts : ℕ) → Number

abbrev pub whole : ℕ → Number
whole n = fraction false n 0

-- `Number.isFinite`.
abbrev pub is_finite : Number → Bool
is_finite (fraction _ _ _) = true
is_finite _ = false

-- `Math.floor`: towards minus infinity.
abbrev pub floor : Number → Number
floor nan = nan
floor infinity = infinity
floor neg_infinity = neg_infinity
floor (fraction false n d) = fraction false (n / suc d) 0
floor (fraction true n d) = fraction true ((n + d) / suc d) 0

-- `Math.floor` of a property that may be missing: `Math.floor(undefined)` is NaN.
abbrev pub floor_field : Option Number → Number
floor_field none = nan
floor_field (some x) = floor x

-- `a < b`; false where one side is NaN.
abbrev pub lt_number : Number → Number → Bool
lt_number nan _ = false
lt_number infinity _ = false
lt_number neg_infinity nan = false
lt_number neg_infinity neg_infinity = false
lt_number neg_infinity infinity = true
lt_number neg_infinity (fraction _ _ _) = true
lt_number (fraction _ _ _) nan = false
lt_number (fraction _ _ _) infinity = true
lt_number (fraction _ _ _) neg_infinity = false
lt_number (fraction false n d) (fraction false m e) = ltb (n * suc e) (m * suc d)
lt_number (fraction true n d) (fraction true m e) = ltb (m * suc d) (n * suc e)
lt_number (fraction true n d) (fraction false m e) = not ((n == 0) && (m == 0))
lt_number (fraction false n d) (fraction true m e) = false

-- `a <= 0`; false on NaN.
abbrev pub le_zero : Number → Bool
le_zero nan = false
le_zero infinity = false
le_zero neg_infinity = true
le_zero (fraction true n d) = true
le_zero (fraction false n d) = n == 0

-- `x ?? d`.
abbrev pub or_default {ℓ} : {A : Type ℓ} → Option A → A → A
or_default none d = d
or_default (some a) d = a

-- A number that the checks have shown to be whole and not negative, as the count that it is.
abbrev pub to_count : Number → ℕ
to_count (fraction false n d) = n / suc d
to_count _ = 0
