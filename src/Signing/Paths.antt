-- ===== src/Signing/Paths.antt =====
-- internal/r2/sigv4.go `uriEncodePath`, against the decoding of RFC 3986.
use cloudflare_r2_bench.Base.{
  ℕ, ◌+◌, ◌-◌, ◌*◌, ◌/◌, ◌%◌, ◌<◌, ◌≡◌, inl, inr, refl, ap, sym, ◌∙◌, Bool, true, false, ◌&&◌, ◌||◌,
  [], ◌∷◌, ◌++◌, Text, codes, leb, ◌==◌, ==_iff, if◌then◌else◌, Bool-cases, &&-eq-true, All,
  all_below, all_below-true, arith,
}
use mathlib.Core.Path.{ap₂}
use cloudflare_r2_bench.Signing.{
  is_unreserved_or_slash, upperhex, byte_at, encode_bytes, needs_encoding, uri_encode_path,
}

-- The value of a hexadecimal digit, in upper case.
abbrev pub hex_value : ℕ → ℕ
hex_value c = if leb c b'9' then c - b'0' else c - b'A' + 10

-- Percent-decoding, by what is left of an escape that has begun.
pub data Escape : Type 0 where
  none_open : Escape
  high_digit : Escape
  low_digit : ℕ → Escape

abbrev pub next_escape : Escape → ℕ → Escape
next_escape none_open c = if c == b'%' then high_digit else none_open
next_escape high_digit c = low_digit (hex_value c)
next_escape (low_digit high) c = none_open

abbrev pub decoded_bytes : Escape → ℕ → Text
decoded_bytes none_open c = if c == b'%' then [] else c ∷ []
decoded_bytes high_digit c = []
decoded_bytes (low_digit high) c = (high * 16 + hex_value c) ∷ []

abbrev pub percent_decode : Escape → Text → Text
percent_decode escape [] = []
percent_decode escape (c ∷ cs) = decoded_bytes escape c ++ percent_decode (next_escape escape c) cs

-- A byte that a canonical path may have.
abbrev pub is_canonical : ℕ → Bool
is_canonical c = is_unreserved_or_slash c || c == b'%'

abbrev pub IsByte : ℕ → Type 0
IsByte c = c < 256

-- The two digits of each byte, checked for all 256.
digits_of : ℕ → Bool
digits_of c =
    (hex_value (byte_at upperhex (c / 16)) * 16 + hex_value (byte_at upperhex (c % 16)) == c)
    && (is_unreserved_or_slash (byte_at upperhex (c / 16))
        && is_unreserved_or_slash (byte_at upperhex (c % 16)))

digits_checked : all_below 256 digits_of ≡ true
unfolding all_below digits_of is_unreserved_or_slash
digits_checked = refl

digit_facts :
    (c : ℕ)
    → IsByte c
    → (hex_value (byte_at upperhex (c / 16)) * 16 + hex_value (byte_at upperhex (c % 16)) ≡ c)
      × (is_unreserved_or_slash (byte_at upperhex (c / 16)) ≡ true)
      × (is_unreserved_or_slash (byte_at upperhex (c % 16)) ≡ true)
unfolding digits_of
digit_facts c h =
    let (value, digits) =
      &&-eq-true
        (hex_value (byte_at upperhex (c / 16)) * 16 + hex_value (byte_at upperhex (c % 16)) == c) _
        (all_below-true 256 digits_of c digits_checked h) in
    let (high, low) = &&-eq-true (is_unreserved_or_slash (byte_at upperhex (c / 16))) _ digits in
    ((==_iff _ c).0 value, high, low)

unreserved≢percent : (c : ℕ) → is_unreserved_or_slash c ≡ true → (c == b'%') ≡ false
unfolding is_unreserved_or_slash
unreserved≢percent c h = ground arith

unreserved-canonical : (c : ℕ) → is_unreserved_or_slash c ≡ true → is_canonical c ≡ true
unreserved-canonical c h = rw h

percent-canonical : is_canonical b'%' ≡ true
unfolding is_unreserved_or_slash
percent-canonical = refl

plain_decode :
    (c : ℕ) (cs : Text)
    → is_unreserved_or_slash c ≡ true
    → percent_decode none_open (c ∷ cs) ≡ c ∷ percent_decode none_open cs
plain_decode c cs h = rw (unreserved≢percent c h)

decode-encode_bytes :
    (path : Text) → All IsByte path → percent_decode none_open (encode_bytes path) ≡ path
unfolding encode_bytes
decode-encode_bytes [] h = refl
decode-encode_bytes (c ∷ cs) h = elim (Bool-cases (is_unreserved_or_slash c)) [
  | inl plain ↦ rw plain (
      plain_decode c (encode_bytes cs) plain
      ∙ ap (λ (r : Text). c ∷ r) (decode-encode_bytes cs h.1))
  | inr other ↦
      rw other
        (ap₂ (λ (d : ℕ) (r : Text). d ∷ r) (digit_facts c h.0).0 (decode-encode_bytes cs h.1))
]

encode_bytes-canonical :
    (path : Text) → All IsByte path → All (λ c. is_canonical c ≡ true) (encode_bytes path)
unfolding encode_bytes
encode_bytes-canonical [] h = tt
encode_bytes-canonical (c ∷ cs) h =
    let rest = encode_bytes-canonical cs h.1 in
    let (_, high, low) = digit_facts c h.0 in
    elim (Bool-cases (is_unreserved_or_slash c)) [
      | inl plain ↦ rw plain (unreserved-canonical c plain, rest)
      | inr other ↦
          rw other
            (percent-canonical, (unreserved-canonical _ high, (unreserved-canonical _ low, rest)))
    ]

-- The path that S3 sees: an empty one is the root.
abbrev pub rooted : Text → Text
rooted [] = codes "/"
rooted (c ∷ cs) = c ∷ cs

-- A path that needs no encoding is what encoding would give.
encode_bytes_plain : (path : Text) → needs_encoding path ≡ false → encode_bytes path ≡ path
unfolding encode_bytes
encode_bytes_plain [] h = refl
encode_bytes_plain (c ∷ cs) h = ground (arith, encode_bytes_plain cs)

-- The fast path returns what the loop would write.
uri_encode_path_loop : (path : Text) → uri_encode_path path ≡ encode_bytes (rooted path)
unfolding uri_encode_path is_unreserved_or_slash
uri_encode_path_loop [] = refl
uri_encode_path_loop (c ∷ cs) = elim (Bool-cases (needs_encoding (c ∷ cs))) [
  | inl needed ↦ rw needed refl
  | inr plain ↦ rw plain (sym (encode_bytes_plain (c ∷ cs) plain))
]

rooted-IsByte : (path : Text) → All IsByte path → All IsByte (rooted path)
rooted-IsByte [] h = (omega arith, tt)
rooted-IsByte (c ∷ cs) h = h

-- The canonical path of any path of bytes consists of unreserved characters, slashes and percent
-- signs, and decodes to the path, an empty one to `/`: also where the fast path is taken, so an
-- escape that the path itself seems to have is kept apart.
pub uri_encode_path_roundtrip :
    (path : Text)
    → All IsByte path
    → All (λ c. is_canonical c ≡ true) (uri_encode_path path)
      × (percent_decode none_open (uri_encode_path path) ≡ rooted path)
uri_encode_path_roundtrip path bytes = rw (uri_encode_path_loop path) (
  encode_bytes-canonical (rooted path) (rooted-IsByte path bytes),
  decode-encode_bytes (rooted path) (rooted-IsByte path bytes),
)

-- Two paths with the same canonical path are the same, or one is empty and the other `/`.
pub uri_encode_path-injective :
    (path path' : Text)
    → All IsByte path
    → All IsByte path'
    → uri_encode_path path ≡ uri_encode_path path'
    → rooted path ≡ rooted path'
uri_encode_path-injective path path' bytes bytes' same =
    sym (uri_encode_path_roundtrip path bytes).1
    ∙ ap (percent_decode none_open) same
    ∙ (uri_encode_path_roundtrip path' bytes').1
