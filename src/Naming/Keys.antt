-- ===== src/Naming/Keys.antt =====
-- internal/r2/naming.go: which names are equal.
use cloudflare_r2_bench.Base.{ℕ, ◌≡◌, ◌≢◌, ap, sym, ◌∙◌, [], ◌∷◌, ◌++◌, Text, codes, decimal}
use mathlib.Core.List.{append_cancel_left}
use cloudflare_r2_bench.Naming.{
  Naming, padded, bucket_name, object_key, sentinel_key, sentinel_body, newline,
}
use cloudflare_r2_bench.Naming.Digits.{read, read-decimal, read-padded}

tail_of : Text → Text
tail_of [] = []
tail_of (c ∷ s) = s

padded-injective : (width i j : ℕ) → padded width i ≡ padded width j → i ≡ j
padded-injective width i j h =
    ap (λ (r : ℕ × Text). r.0) (sym (read-padded width i) ∙ ap (read 0) h ∙ read-padded width j)

object_key-injective :
    (naming : Naming) (i j : ℕ) → object_key naming i ≡ object_key naming j → i ≡ j
unfolding object_key
object_key-injective naming i j h =
    padded-injective 8 i j (append_cancel_left naming.key_prefix (padded 8 i) (padded 8 j) h)

bucket_name-injective :
    (naming : Naming) (i j : ℕ) → bucket_name naming i ≡ bucket_name naming j → i ≡ j
unfolding bucket_name
bucket_name-injective naming i j h =
    padded-injective 2 i j (append_cancel_left naming.bucket_prefix (padded 2 i) (padded 2 j) h)

pub object_key≢sentinel_key : (naming : Naming) (i : ℕ) → object_key naming i ≢ sentinel_key naming
unfolding object_key sentinel_key read
object_key≢sentinel_key naming i h =
    let same = append_cancel_left naming.key_prefix (padded 8 i) (codes "_seed_complete") h in
    absurd (cc (ap (λ (r : ℕ × Text). r.1) (sym (read-padded 8 i) ∙ ap (read 0) same)))

line : ℕ → Text → Text
line n rest = decimal n ++ (newline ++ rest)

line-injective : (m n : ℕ) (s t : Text) → line m s ≡ line n t → (m ≡ n) × (s ≡ t)
unfolding line read tail_of
line-injective m n s t h =
    let both =
      sym (read-decimal m (newline ++ s)) ∙ ap (read 0) h ∙ read-decimal n (newline ++ t) in
    (ap (λ (r : ℕ × Text). r.0) both, ap (λ (r : ℕ × Text). tail_of r.1) both)

-- A sentinel's body tells the shape of the bucket.
pub sentinel_body-injective :
    (a b : Naming) (m n : ℕ)
    → sentinel_body a m ≡ sentinel_body b n
    → (a.keyspace ≡ b.keyspace) × (m ≡ n)
unfolding sentinel_body line
sentinel_body-injective a b m n h =
    let (keyspace, more) =
      line-injective a.keyspace b.keyspace _ _ (append_cancel_left (codes "keyspace=") _ _ h) in
    let (size, _) = line-injective m n _ _ (append_cancel_left (codes "object_size=") _ _ more) in
    (keyspace, size)
