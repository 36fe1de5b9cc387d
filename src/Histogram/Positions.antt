-- ===== src/Histogram/Positions.antt =====
-- Where a latency of eight microseconds or more falls: the octave `k` and the mark `q` in it.
use cloudflare_r2_bench.Base.{
  ℕ, zero, suc, ◌+◌, ◌-◌, ◌*◌, ◌/◌, ◌%◌, ◌^◌, ◌≤◌, ◌<◌, ◌≡◌, refl, ap, ◌∙◌, inl, inr, Bool-cases,
  ◌==◌, false, ltb, leb, if◌then◌else◌, arith,
}
use Prim.Native.Nat.{bit_and, bit_or}
use native.Mathlib.Nat.{
  le-div_iff_mul-le, div-lt_iff_lt-mul, div-mul-le_self, lt-div-mul-add, one-le-pow, mod-eq_of_lt,
  mul-le-mul_left,
}
use cloudflare_r2_bench.Base.Shifts.{
  bit_length, bit_length-lem, bit_and_octet, bit_or_octet, power_le,
}
use cloudflare_r2_bench.Histogram.{bucket_index, bucket_value}

abbrev pub capped : ℕ → ℕ
capped i = if leb 256 i then 255 else i

-- The marks of an octave are those from 8 to 15, each `2 ^ k` wide.
abbrev pub At : ℕ → ℕ → ℕ → Type 0
At v k q = (8 ≤ q) × (q < 16) × (q * 2 ^ k ≤ v) × (v < q * 2 ^ k + 2 ^ k)

past_linear : (v : ℕ) → 8 ≤ v → ltb v 8 ≡ false
past_linear v big = ground arith

index_in :
    (k q : ℕ) → k < 61 → 8 ≤ q → q < 16 → bit_or ((k + 1) * 8 % 2 ^ 64) (bit_and q 7) ≡ k * 8 + q
index_in k q small lo hi =
    let room : (k + 1) * 8 % 2 ^ 64 ≡ (k + 1) * 8 = omega arith in
    rw room (
      omega (
        arith,
        bit_or_octet (k + 1) (bit_and q 7) (omega (arith, bit_and_octet q)),
        bit_and_octet q,
      ))

mark : (v k : ℕ) → 2 ^ suc (suc (suc k)) ≤ v → v < 2 ^ suc (suc (suc (suc k))) → At v k (v / 2 ^ k)
mark v k lo hi =
    let pos : 0 < 2 ^ k = one-le-pow k 2 (omega arith) in
    (
      (le-div_iff_mul-le pos).1 (omega arith),
      (div-lt_iff_lt-mul pos).1 (omega arith),
      div-mul-le_self v (2 ^ k),
      lt-div-mul-add pos,
    )

index_at :
    (v k : ℕ)
    → 8 ≤ v
    → bit_length 64 v ≡ suc (suc (suc (suc k)))
    → bucket_index v ≡ capped (bit_or ((k + 1) * 8 % 2 ^ 64) (bit_and (v / 2 ^ k) 7))
unfolding bucket_index
index_at v k big len =
    let past = past_linear v big in
    let octave : bit_length 64 v - 1 - 3 ≡ k = omega (arith, len) in rw (past, octave) refl

-- A latency of at least eight microseconds is at a mark, and its bucket is numbered by both.
pub position :
    (v : ℕ)
    → 8 ≤ v
    → v < 2 ^ 64
    → (k : ℕ) × (q : ℕ) × At v k q × (bucket_index v ≡ capped (k * 8 + q))
position v big word =
    let (e, len, lo, hi, small) = bit_length-lem 64 v (omega arith) word in
    at_octave v big e len lo hi small
  where
    at_octave :
        (v : ℕ)
        → 8 ≤ v
        → (e : ℕ) → bit_length 64 v ≡ suc e
        → 2 ^ e ≤ v
        → v < 2 ^ suc e
        → e < 64
        → (k : ℕ) × (q : ℕ) × At v k q × (bucket_index v ≡ capped (k * 8 + q))
    at_octave v big zero len lo hi small = absurd (omega arith)
    at_octave v big (suc zero) len lo hi small = absurd (omega arith)
    at_octave v big (suc (suc zero)) len lo hi small = absurd (omega arith)
    at_octave v big (suc (suc (suc k))) len lo hi small =
        let place = mark v k lo hi in
        (
          k,
          v / 2 ^ k,
          place,
          index_at v k big len ∙ ap capped (index_in k (v / 2 ^ k) (omega arith) place.0 place.1),
        )

-- The lower bound of the bucket of a mark.
pub value_at : (k q : ℕ) → k < 61 → 8 ≤ q → q < 16 → bucket_value (k * 8 + q) ≡ q * 2 ^ k
unfolding bucket_value
value_at k q small lo hi =
    let past = past_linear (k * 8 + q) (omega arith) in
    let octave : (k * 8 + q) / 8 + 3 - 1 - 3 ≡ k = omega arith in
    let bits : bit_and (k * 8 + q) 7 ≡ q - 8 = omega (arith, bit_and_octet (k * 8 + q)) in
    let mantissa : bit_or 8 (q - 8) ≡ q = omega (arith, bit_or_octet 1 (q - 8) (omega arith)) in
    let word : q * 2 ^ k < 2 ^ 64 =
      omega (arith, mul-le-mul_left q (power_le k 60 (omega arith))) in
    rw (past, octave, bits, mantissa) (mod-eq_of_lt word)

-- The next bucket starts where the mark ends.
pub value_after :
    (k q : ℕ) → k < 60 → 8 ≤ q → q < 16 → bucket_value (suc (k * 8 + q)) ≡ q * 2 ^ k + 2 ^ k
value_after k q small lo hi = elim (Bool-cases (q == 15)) [
  | inl last ↦
      let is_last : q ≡ 15 = ground arith in
      let next : suc (k * 8 + q) ≡ suc k * 8 + 8 = omega (arith, is_last) in
      rw next (
        omega (
          arith,
          value_at (suc k) 8 (omega arith) (omega arith) (omega arith),
          ap (λ (m : ℕ). m * 2 ^ k) is_last,
        ))
  | inr more ↦
      let next : suc (k * 8 + q) ≡ k * 8 + suc q = omega arith in
      rw next (omega (arith, value_at k (suc q) (omega arith) (omega arith) (ground arith)))
]
