-- ===== src/Loader/Double.antt =====
-- The `float64` numbers that are not negative, with the rounding of IEEE 754 to the nearest, ties to
-- even: each is a natural number of units of 2 ^ -1074, the least of them that is not zero. Overflow
-- is left out.
use native.Mathlib.Nat.{mod-lt, div-add-mod, mul-le-mul_left, mul-pos}
use cloudflare_r2_bench.Base.{
  ℕ, zero, suc, ◌+◌, ◌*◌, ◌/◌, ◌%◌, ◌^◌, ◌≤◌, ◌<◌, ◌≡◌, ◌⊎◌, inl, inr, refl, ltb, Bool-cases,
  if◌then◌else◌, arith,
}

-- The number 1.
unfoldable pub one : ℕ
one = 2 ^ 1074

-- The distance between the doubles near a number: of 53 bits, so the search is over within 2046
-- rounds below 2 ^ 1024.
unfoldable pub ulp : ℕ → ℕ → ℕ → ℕ
ulp zero s n = s
ulp (suc fuel) s n = let rest = ulp fuel (2 * s) n in if ltb n (2 ^ 53 * s) then s else rest

-- `q` and the part `r / m`, to the nearest whole number.
unfoldable pub half_even : ℕ → ℕ → ℕ → ℕ
half_even q r m = if ltb m (2 * r) then suc q else if ltb (2 * r) m then q else q + q % 2

-- The double next to a quotient, and to a number of units.
unfoldable pub nearest_ratio : ℕ → ℕ → ℕ
unfolding ulp half_even
nearest_ratio n d = let s = ulp 2046 1 (n / d) in half_even (n / (d * s)) (n % (d * s)) (d * s) * s

abbrev pub nearest : ℕ → ℕ
nearest n = nearest_ratio n 1

ulp_bounds :
    (fuel s n : ℕ)
    → 0 < s
    → (s ≡ 1) ⊎ (2 ^ 52 * s ≤ n)
    → let u = ulp fuel s n in (0 < u) × ((u ≡ 1) ⊎ (2 ^ 52 * u ≤ n))
unfolding ulp
ulp_bounds zero s n pos h = (pos, h)
ulp_bounds (suc fuel) s n pos h = elim (Bool-cases (ltb n (2 ^ 53 * s))) [
  | inl small ↦ rw small (pos, h)
  | inr big ↦ rw big (ulp_bounds fuel (2 * s) n (omega arith) (inr (ground arith)))
]

div_mod : (n m : ℕ) → 0 < m → (n ≡ m * (n / m) + n % m) × (n % m < m)
div_mod n m pos = omega (arith, div-add-mod n m, mod-lt n pos)

half_even_cases :
    (q r m : ℕ)
    → r < m
    → let x = half_even q r m in ((x ≡ q) × (2 * r ≤ m)) ⊎ ((x ≡ suc q) × (m ≤ 2 * r))
unfolding half_even
half_even_cases q r m below = ground arith

-- A number `x` of `1 / d` is next to `n / d`, up to one part in 2 ^ 53 and one unit.
pub record IsNear (d n x : ℕ) : Type 0 where
  pub above : 2 ^ 53 * (d * x) ≤ 2 ^ 53 * n + n + 2 ^ 53 * d
  pub below : 2 ^ 53 * n ≤ 2 ^ 53 * (d * x) + n + 2 ^ 53 * d

near_linear :
    (n d m steps r y : ℕ)
    → n ≡ steps + r
    → (m ≡ d) ⊎ (2 ^ 52 * m ≤ n)
    → ((y ≡ steps) × (2 * r ≤ m)) ⊎ ((y ≡ steps + m) × (m ≤ 2 * r))
    → r < m
    → (2 ^ 53 * y ≤ 2 ^ 53 * n + n + 2 ^ 53 * d) × (2 ^ 53 * n ≤ 2 ^ 53 * y + n + 2 ^ 53 * d)
near_linear n d m steps r y split (inl unit) (inl (same, low)) small = (omega arith, omega arith)
near_linear n d m steps r y split (inl unit) (inr (same, high)) small = (omega arith, omega arith)
near_linear n d m steps r y split (inr fine) (inl (same, low)) small = (omega arith, omega arith)
near_linear n d m steps r y split (inr fine) (inr (same, high)) small = (omega arith, omega arith)

scaled :
    (d s q x r : ℕ)
    → ((x ≡ q) × (2 * r ≤ d * s)) ⊎ ((x ≡ suc q) × (d * s ≤ 2 * r))
    → ((d * (x * s) ≡ d * s * q) × (2 * r ≤ d * s))
      ⊎ ((d * (x * s) ≡ d * s * q + d * s) × (d * s ≤ 2 * r))
scaled d s q x r (inl (same, low)) = inl (rw same (omega arith), low)
scaled d s q x r (inr (same, high)) = inr (rw same (omega arith), high)

unit_or_fine : (n d s : ℕ) → (s ≡ 1) ⊎ (2 ^ 52 * s ≤ n / d) → (d * s ≡ d) ⊎ (2 ^ 52 * (d * s) ≤ n)
unit_or_fine n d s (inl unit) = inl (rw unit (omega arith))
unit_or_fine n d s (inr fine) = inr (omega (arith, mul-le-mul_left d fine, div-add-mod n d))

-- The rounding of a quotient is near it.
pub nearest_ratio-IsNear : (n d : ℕ) → 0 < d → IsNear d n (nearest_ratio n d)
unfolding nearest_ratio
nearest_ratio-IsNear n d pos =
    let s = ulp 2046 1 (n / d) in
    let (positive, grain) = ulp_bounds 2046 1 (n / d) (omega arith) (inl refl) in
    let (split, small) = div_mod n (d * s) (mul-pos pos positive) in
    let (above, below) =
      near_linear n d (d * s) (d * s * (n / (d * s))) (n % (d * s)) _ split
        (unit_or_fine n d s grain)
        (scaled d s (n / (d * s)) _ (n % (d * s))
          (half_even_cases (n / (d * s)) (n % (d * s)) (d * s) small))
        small in
    record { above = above; below = below }

-- One is much more than a unit.
pub one_large : 2 ^ 60 ≤ one
unfolding one
one_large = omega arith
