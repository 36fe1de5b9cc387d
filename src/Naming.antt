-- ===== src/Naming.antt =====
-- internal/r2/naming.go: the names of buckets and objects that the agent and the seeder share.
pub mod Digits
pub mod Keys
use cloudflare_r2_bench.Base.{ℕ, zero, suc, ◌-◌, List, [], ◌∷◌, ◌++◌, Text, codes, decimal, length}

pub record Naming : Type 0 where
  pub bucket_prefix : Text
  pub bucket_count : ℕ
  pub key_prefix : Text
  pub keyspace : ℕ

abbrev pub zeros : ℕ → Text
zeros zero = []
zeros (suc n) = b'0' ∷ zeros n

-- `%0wd` of a number that is not negative.
unfoldable pub padded : ℕ → ℕ → Text
padded width n = zeros (width - length (decimal n)) ++ decimal n

unfoldable pub bucket_name : Naming → ℕ → Text
bucket_name naming i = naming.bucket_prefix ++ padded 2 i

unfoldable pub object_key : Naming → ℕ → Text
object_key naming i = naming.key_prefix ++ padded 8 i

unfoldable pub sentinel_key : Naming → Text
sentinel_key naming = naming.key_prefix ++ codes "_seed_complete"

abbrev pub newline : Text
newline = 10 ∷ []

unfoldable pub sentinel_body : Naming → ℕ → Text
sentinel_body naming object_size =
    codes "keyspace="
    ++ (decimal naming.keyspace
        ++ (newline
            ++ (codes "object_size="
                ++ (decimal object_size
                    ++ (newline ++ (codes "key_prefix=" ++ (naming.key_prefix ++ newline)))))))
