-- ===== src/Base/Shifts.antt =====
-- The bit operations of a word in numbers: a mask, bits put in front, and the length in bits.
use Prim.Native.Nat.{
  ℕ, zero, suc, ◌+◌, ◌*◌, ◌/◌, ◌%◌, ◌^◌, ◌≤◌, ◌<◌, min, max, bit_and, bit_or, digits,
  bit_and-bitwise, bit_or-bitwise,
}
use mathlib.Core.Path.{◌≡◌, refl, ap, ◌∙◌}
use mathlib.Core.Logic.{inl, inr}
use native.Mathlib.Omega.{arith}
use native.Mathlib.Nat.{pow-le-pow_right}
use cloudflare_r2_bench.Base.Tests.{◌==◌, if◌then◌else◌, Bool-cases}

-- Digit by digit, with any operation on the digits: more fuel than the first number makes no difference.
digits_enough :
    (rest : ℕ → ℕ) (op : ℕ → ℕ → ℕ) (fuel more x z : ℕ)
    → x ≤ fuel
    → x ≤ more
    → digits rest op fuel x z ≡ digits rest op more x z
digits_enough rest op zero zero x z p q = refl
digits_enough rest op zero (suc more) zero z p q = refl
digits_enough rest op zero (suc more) (suc x) z p q = absurd (omega arith)
digits_enough rest op (suc fuel) zero zero z p q = refl
digits_enough rest op (suc fuel) zero (suc x) z p q = absurd (omega arith)
digits_enough rest op (suc fuel) (suc more) zero z p q = refl
digits_enough rest op (suc fuel) (suc more) (suc x) z p q =
    omega (arith, digits_enough rest op fuel more (suc x / 2) (z / 2) (omega arith) (omega arith))

zero-bit_or : (z : ℕ) → bit_or 0 z ≡ z
zero-bit_or z = bit_or-bitwise 0 z

bit_or_halves : (x z : ℕ) → bit_or x z ≡ bit_or (x / 2) (z / 2) * 2 + max (x % 2) (z % 2)
bit_or_halves zero z = omega (arith, zero-bit_or z, zero-bit_or (z / 2))
bit_or_halves (suc x) z = omega (
  arith,
  bit_or-bitwise (suc x) z,
  bit_or-bitwise (suc x / 2) (z / 2),
  digits_enough (λ r. r) max x (suc x / 2) (suc x / 2) (z / 2) (omega arith) (omega arith),
)

bit_or-zero_enough : (fuel x : ℕ) → x ≤ fuel → bit_or x 0 ≡ x
bit_or-zero_enough fuel zero h = refl
bit_or-zero_enough zero (suc x) h = absurd (omega arith)
bit_or-zero_enough (suc fuel) (suc x) h =
    omega (arith, bit_or_halves (suc x) 0, bit_or-zero_enough fuel (suc x / 2) (omega arith))

bit_or-zero : (x : ℕ) → bit_or x 0 ≡ x
bit_or-zero x = bit_or-zero_enough x x (omega arith)

bit_or_double : (a b : ℕ) → bit_or (a * 2) b ≡ bit_or a (b / 2) * 2 + b % 2
bit_or_double a b =
    let half : a * 2 / 2 ≡ a = omega arith in omega (arith, rw half at (bit_or_halves (a * 2) b))

-- `a << 3 | b`, with three bits in `b`, is a sum.
pub bit_or_octet : (a b : ℕ) → b < 8 → bit_or (a * 8) b ≡ a * 8 + b
bit_or_octet a b h =
    let eight : a * 8 ≡ a * 2 * 2 * 2 = omega arith in
    let none_left : b / 2 / 2 / 2 ≡ 0 = omega arith in
    rw eight (
      omega (
        arith,
        bit_or_double (a * 2 * 2) b,
        bit_or_double (a * 2) (b / 2),
        rw none_left at (bit_or_double a (b / 2 / 2)),
        bit_or-zero a,
      ))

zero-bit_and : (b : ℕ) → bit_and 0 b ≡ 0
zero-bit_and b = bit_and-bitwise 0 b

bit_and_halves : (a b : ℕ) → bit_and a b ≡ bit_and (a / 2) (b / 2) * 2 + min (a % 2) (b % 2)
bit_and_halves zero b = omega (arith, zero-bit_and b, zero-bit_and (b / 2))
bit_and_halves (suc a) b = omega (
  arith,
  bit_and-bitwise (suc a) b,
  bit_and-bitwise (suc a / 2) (b / 2),
  digits_enough (λ y. 0) min a (suc a / 2) (suc a / 2) (b / 2) (omega arith) (omega arith),
)

bit_and-zero_enough : (n a : ℕ) → a ≤ n → bit_and a 0 ≡ 0
bit_and-zero_enough n zero h = refl
bit_and-zero_enough zero (suc a) h = absurd (omega arith)
bit_and-zero_enough (suc n) (suc a) h =
    omega (arith, bit_and_halves (suc a) 0, bit_and-zero_enough n (suc a / 2) (omega arith))

-- `a & 7` keeps three bits.
pub bit_and_octet : (a : ℕ) → bit_and a 7 ≡ a % 8
bit_and_octet a = omega (
  arith,
  bit_and_halves a 7,
  bit_and_halves (a / 2) 3,
  bit_and_halves (a / 2 / 2) 1,
  bit_and-zero_enough (a / 2 / 2 / 2) (a / 2 / 2 / 2) (omega arith),
)

-- The number of bits of `v`, of `n` at most: what `bits.Len64` returns for a word of 64.
unfoldable pub bit_length : ℕ → ℕ → ℕ
bit_length zero v = 0
bit_length (suc n) v = let rest = bit_length n (v / 2) in if v == 0 then 0 else suc rest

bit_length-suc : (n v : ℕ) → 0 < v → bit_length (suc n) v ≡ suc (bit_length n (v / 2))
unfolding bit_length
bit_length-suc n v h = ground arith

bit_length_one : (n : ℕ) → bit_length n 0 ≡ 0
unfolding bit_length
bit_length_one zero = refl
bit_length_one (suc n) = refl

-- The first bit of a number.
pub bit_length-lem :
    (n v : ℕ)
    → 0 < v
    → v < 2 ^ n
    → (e : ℕ) × (bit_length n v ≡ suc e) × (2 ^ e ≤ v) × (v < 2 ^ suc e) × (e < n)
bit_length-lem zero v h lt = absurd (omega arith)
bit_length-lem (suc n) v h lt = elim (Bool-cases (v == 1)) [
  | inl one ↦
      let is_one : v ≡ 1 = ground arith in
      (
        0,
        rw is_one (bit_length-suc n 1 (omega arith) ∙ ap suc (bit_length_one n)),
        omega arith,
        omega arith,
        omega arith,
      )
  | inr more ↦
      let (e, len, lo, hi, small) = bit_length-lem n (v / 2) (ground arith) (omega arith) in
      (suc e, bit_length-suc n v h ∙ ap suc len, omega arith, omega arith, omega arith)
]

pub power_le : (i j : ℕ) → i ≤ j → 2 ^ i ≤ 2 ^ j
power_le i j h = pow-le-pow_right (omega arith) h
