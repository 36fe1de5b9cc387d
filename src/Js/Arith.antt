-- ===== src/Js/Arith.antt =====
-- Sums, products, quotients and maxima of numbers, as SQLite's aggregates form them. Exact: the
-- rounding of a double is not modelled. On NaN and the infinities they give NaN.
use cloudflare_r2_bench.Base.{
  ℕ, zero, suc, ◌+◌, ◌-◌, ◌*◌, Bool, List, [], ◌∷◌, leb, if◌then◌else◌, length,
}
use mathlib.Core.Bool.{xor}
use cloudflare_r2_bench.Js.Number.{Number, nan, fraction, whole, lt_number}

-- A fraction with the denominator `parts`, which is not 0.
abbrev over : Bool → ℕ → ℕ → Number
over negative units parts = fraction negative units (parts - 1)

unfoldable pub add_number : Number → Number → Number
add_number (fraction s n d) (fraction t m e) =
    let a : ℕ = n * suc e in
    let b : ℕ = m * suc d in
    let parts : ℕ = suc d * suc e in
    if xor s t
    then if leb b a then over s (a - b) parts else over t (b - a) parts
    else over s (a + b) parts
add_number _ _ = nan

unfoldable pub mul_number : Number → Number → Number
mul_number (fraction s n d) (fraction t m e) = over (xor s t) (n * m) (suc d * suc e)
mul_number _ _ = nan

-- Division by 0 is NULL in SQLite, which is NaN here.
unfoldable pub div_number : Number → Number → Number
div_number (fraction s n d) (fraction t zero e) = nan
div_number (fraction s n d) (fraction t (suc m) e) = over (xor s t) (n * suc e) (suc d * suc m)
div_number _ _ = nan

unfoldable pub sum_numbers : List Number → Number
unfolding add_number
sum_numbers [] = whole 0
sum_numbers (x ∷ xs) = add_number x (sum_numbers xs)

unfoldable pub avg_numbers : List Number → Number
unfolding sum_numbers div_number
avg_numbers xs = div_number (sum_numbers xs) (whole (length xs))

max_from : Number → List Number → Number
max_from best [] = best
max_from best (x ∷ xs) = max_from (if lt_number best x then x else best) xs

unfoldable pub max_numbers : List Number → Number
unfolding max_from
max_numbers [] = nan
max_numbers (x ∷ xs) = max_from x xs
