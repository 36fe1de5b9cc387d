-- ===== src/Auth/Compare.antt =====
-- The difference accumulator is zero exactly on equal texts.
use Prim.Native.Nat.{bit_or, bit_xor}
use cloudflare_r2_bench.Base.{ℕ, ◌≡◌, refl, [], ◌∷◌, Text, length, arith}
use cloudflare_r2_bench.Base.Bits.{bit_or-eq-zero, bit_xor-eq-zero, bit_xor_self}
use cloudflare_r2_bench.Auth.{diff_from}

-- Once a difference is seen it stays.
diff_from-eq-zero-left : (d : ℕ) (e p : Text) → diff_from d e p ≡ 0 → d ≡ 0
unfolding diff_from
diff_from-eq-zero-left d [] p h = h
diff_from-eq-zero-left d (x ∷ e) [] h =
    (bit_or-eq-zero d (bit_xor x 0) (diff_from-eq-zero-left (bit_or d (bit_xor x 0)) e [] h)).0
diff_from-eq-zero-left d (x ∷ e) (y ∷ p) h =
    (bit_or-eq-zero d (bit_xor x y) (diff_from-eq-zero-left (bit_or d (bit_xor x y)) e p h)).0

pub diff_from-eq-zero : (d : ℕ) (e p : Text) → length p ≡ length e → diff_from d e p ≡ 0 → p ≡ e
unfolding diff_from
diff_from-eq-zero d [] [] l h = refl
diff_from-eq-zero d [] (y ∷ p) l h = absurd (omega arith)
diff_from-eq-zero d (x ∷ e) [] l h = absurd (omega arith)
diff_from-eq-zero d (x ∷ e) (y ∷ p) l h =
    let at_head =
      bit_or-eq-zero d (bit_xor x y) (diff_from-eq-zero-left (bit_or d (bit_xor x y)) e p h) in
    cc (
      bit_xor-eq-zero x y at_head.1,
      diff_from-eq-zero (bit_or d (bit_xor x y)) e p (omega arith) h,
    )

pub diff_from_self : (e : Text) → diff_from 0 e e ≡ 0
unfolding diff_from
diff_from_self [] = refl
diff_from_self (x ∷ e) = rw (bit_xor_self x) (diff_from_self e)
