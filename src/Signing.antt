-- ===== src/Signing.antt =====
-- internal/r2/sigv4.go: the canonical path of a request that is signed. A path is a list of bytes.
-- `Signing.Signer` is the signature with its cached key.
pub mod Paths
pub mod Signer
use cloudflare_r2_bench.Base.{
  ℕ, zero, suc, ◌/◌, ◌%◌, Bool, ◌&&◌, ◌||◌, not, [], ◌∷◌, Text, codes, any_row, leb, ◌==◌,
  if◌then◌else◌,
}

unfoldable pub is_unreserved_or_slash : ℕ → Bool
is_unreserved_or_slash c =
    (leb b'A' c && leb c b'Z')
    || (leb b'a' c && leb c b'z')
    || (leb b'0' c && leb c b'9')
    || c == b'-'
    || c == b'_'
    || c == b'.'
    || c == b'~'
    || c == b'/'

abbrev pub upperhex : Text
upperhex = codes "0123456789ABCDEF"

-- A byte of a string, which is there for each index that is used.
abbrev pub byte_at : Text → ℕ → ℕ
byte_at [] n = 0
byte_at (c ∷ cs) zero = c
byte_at (c ∷ cs) (suc n) = byte_at cs n

-- The loop that writes each byte as it is or percent-encoded.
unfoldable pub encode_bytes : Text → Text
encode_bytes [] = []
encode_bytes (c ∷ cs) =
    let rest = encode_bytes cs in
    if is_unreserved_or_slash c
    then c ∷ rest
    else b'%' ∷ byte_at upperhex (c / 16) ∷ byte_at upperhex (c % 16) ∷ rest

abbrev pub needs_encoding : Text → Bool
needs_encoding path = any_row (λ c. not (is_unreserved_or_slash c)) path

unfoldable pub uri_encode_path : Text → Text
unfolding encode_bytes
uri_encode_path [] = codes "/"
uri_encode_path (c ∷ cs) = if needs_encoding (c ∷ cs) then encode_bytes (c ∷ cs) else c ∷ cs
