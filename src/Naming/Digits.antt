-- ===== src/Naming/Digits.antt =====
-- A decimal number is read back from its digits.
use cloudflare_r2_bench.Base.{
  ℕ, zero, suc, ◌+◌, ◌-◌, ◌*◌, ◌/◌, ◌%◌, ◌<◌, ◌≡◌, refl, ap, sym, ◌∙◌, ◌&&◌, inl, inr, [], ◌∷◌,
  ◌++◌, Text, digits_from, decimal, ltb, leb, if◌then◌else◌, Bool-cases, length, arith,
}
use mathlib.Core.List.{append-nil}
use cloudflare_r2_bench.Naming.{zeros, padded}

-- A number and what follows it, after the digits that gave `n`.
unfoldable pub read : ℕ → Text → ℕ × Text
read n [] = (n, [])
read n (c ∷ s) =
    let rest = read (10 * n + (c - b'0')) s in if leb b'0' c && leb c b'9' then rest else (n, c ∷ s)

read_digit : (n d : ℕ) (s : Text) → d < 10 → read n ((b'0' + d) ∷ s) ≡ read (10 * n + d) s
unfolding read
read_digit n d s h =
    let same : b'0' + d - b'0' ≡ d = omega arith in
    ground (arith, ap (λ t. read (10 * n + t) s) same)

read-digits_from :
    (fuel n : ℕ) (acc : Text) → n < fuel → read 0 (digits_from fuel n acc) ≡ read n acc
unfolding digits_from
read-digits_from zero n acc h = absurd (omega arith)
read-digits_from (suc fuel) n acc h = elim (Bool-cases (ltb n 10)) [
  | inl small ↦
      let same : 10 * 0 + n % 10 ≡ n = ground arith in
      rw small (read_digit 0 (n % 10) acc (omega arith) ∙ ap (λ m. read m acc) same)
  | inr large ↦
      let whole : 10 * (n / 10) + n % 10 ≡ n = omega arith in
      rw large (
        read-digits_from fuel (n / 10) ((b'0' + n % 10) ∷ acc) (ground arith)
        ∙ read_digit (n / 10) (n % 10) acc (omega arith)
        ∙ ap (λ m. read m acc) whole)
]

digits_from-append :
    (fuel n : ℕ) (acc rest : Text)
    → digits_from fuel n acc ++ rest ≡ digits_from fuel n (acc ++ rest)
unfolding digits_from
digits_from-append zero n acc rest = refl
digits_from-append (suc fuel) n acc rest = elim (Bool-cases (ltb n 10)) [
  | inl small ↦ rw small refl
  | inr large ↦ rw large (digits_from-append fuel (n / 10) ((b'0' + n % 10) ∷ acc) rest)
]

pub read-decimal : (n : ℕ) (rest : Text) → read 0 (decimal n ++ rest) ≡ read n rest
unfolding decimal
read-decimal n rest =
    ap (read 0) (digits_from-append (suc n) n [] rest)
    ∙ read-digits_from (suc n) n rest (omega arith)

read-zeros : (m : ℕ) (s : Text) → read 0 (zeros m ++ s) ≡ read 0 s
unfolding read
read-zeros zero s = refl
read-zeros (suc m) s = read-zeros m s

pub read-padded : (width n : ℕ) → read 0 (padded width n) ≡ (n, [])
unfolding padded read
read-padded width n =
    read-zeros (width - length (decimal n)) (decimal n)
    ∙ ap (read 0) (sym (append-nil (decimal n)))
    ∙ read-decimal n []
