-- ===== src/Signing/Signer/Lines.antt =====
-- internal/r2/sigv4.go `Sign`: the canonical request is read back line by line, so it names just one
-- request.
use cloudflare_r2_bench.Base.{
  ℕ, ◌≡◌, ◌≢◌, refl, ap, sym, ◌∙◌, [], ◌∷◌, ◌++◌, Text, codes, ◌==◌, if◌then◌else◌, true, All,
  All-append, arith,
}
use mathlib.Core.List.{append_cancel_left}
use cloudflare_r2_bench.Signing.{uri_encode_path, is_unreserved_or_slash}
use cloudflare_r2_bench.Signing.Paths.{
  IsByte, rooted, is_canonical, uri_encode_path_roundtrip, uri_encode_path-injective,
}
use cloudflare_r2_bench.Signing.Signer.{Call, line, host_or, canonical_request}

abbrev pub IsOneLine : Text → Type 0
IsOneLine t = All (λ c. c ≢ 10) t

-- A text is cut at its first newline.
unfoldable pub cut : Text → Text × Text
cut [] = ([], [])
cut (c ∷ cs) = let (first, rest) = cut cs in if c == 10 then ([], cs) else (c ∷ first, rest)

cut-line : (text rest : Text) → IsOneLine text → cut (line text rest) ≡ (text, rest)
unfolding cut
cut-line [] rest h = refl
cut-line (c ∷ cs) rest h = ground (arith, cut-line cs rest h.1)

-- The first lines agree, and so does what follows them.
line-injective :
    (a b r s : Text) → IsOneLine a → IsOneLine b → line a r ≡ line b s → (a ≡ b) × (r ≡ s)
line-injective a b r s one one' h =
    let both = sym (cut-line a r one) ∙ ap cut h ∙ cut-line b s one' in
    (ap (λ (p : Text × Text). p.0) both, ap (λ (p : Text × Text). p.1) both)

-- Lines that begin alike.
labelled-injective :
    (label a b r s : Text)
    → IsOneLine label
    → IsOneLine a
    → IsOneLine b
    → line (label ++ a) r ≡ line (label ++ b) s
    → (a ≡ b) × (r ≡ s)
labelled-injective label a b r s fixed one one' h =
    let (same, rest) =
      line-injective (label ++ a) (label ++ b) r s (All-append _ label a fixed one)
        (All-append _ label b fixed one') h in
    (append_cancel_left label a b same, rest)

-- What a request and its hash and time are made of: bytes in the path, and no newline elsewhere.
pub record IsPlain (c : Call) : Type 0 where
  pub method : IsOneLine c.request.method
  pub path : All IsByte c.request.path
  pub raw_query : IsOneLine c.request.raw_query
  pub host : IsOneLine (host_or c.request.host c.request.url_host)
  pub payload : IsOneLine c.payload_sha256
  pub date : IsOneLine c.amz_date

newline_escaped : (c : ℕ) → is_canonical c ≡ true → c ≢ 10
unfolding is_unreserved_or_slash
newline_escaped c h = ground arith

canonical-IsOneLine : (t : Text) → All (λ c. is_canonical c ≡ true) t → IsOneLine t
canonical-IsOneLine [] h = tt
canonical-IsOneLine (c ∷ cs) h = (newline_escaped c h.0, canonical-IsOneLine cs h.1)

path-IsOneLine : (path : Text) → All IsByte path → IsOneLine (uri_encode_path path)
path-IsOneLine path bytes = canonical-IsOneLine _ (uri_encode_path_roundtrip path bytes).0

host_label : IsOneLine (codes "host:")
host_label = omega arith

payload_label : IsOneLine (codes "x-amz-content-sha256:")
payload_label = omega arith

date_label : IsOneLine (codes "x-amz-date:")
date_label = omega arith

-- Two calls with the same canonical request sign the same request: the same method, path (an empty
-- one is `/`), query and host, the same hash of the payload and the same time; if no part but the
-- path has a newline, and paths are bytes.
pub canonical_request-injective :
    (c d : Call)
    → IsPlain c
    → IsPlain d
    → canonical_request c ≡ canonical_request d
    → (c.request.method ≡ d.request.method)
      × (rooted c.request.path ≡ rooted d.request.path)
      × (c.request.raw_query ≡ d.request.raw_query)
      × (host_or c.request.host c.request.url_host ≡ host_or d.request.host d.request.url_host)
      × (c.payload_sha256 ≡ d.payload_sha256)
      × (c.amz_date ≡ d.amz_date)
unfolding canonical_request
canonical_request-injective c d p q h =
    let (method, h1) = line-injective _ _ _ _ p.method q.method h in
    let (path, h2) =
      line-injective _ _ _ _ (path-IsOneLine _ p.path) (path-IsOneLine _ q.path) h1 in
    let (query, h3) = line-injective _ _ _ _ p.raw_query q.raw_query h2 in
    let (host, h4) = labelled-injective (codes "host:") _ _ _ _ host_label p.host q.host h3 in
    let (payload, h5) =
      labelled-injective (codes "x-amz-content-sha256:") _ _ _ _ payload_label p.payload q.payload
        h4 in
    let (date, _) = labelled-injective (codes "x-amz-date:") _ _ _ _ date_label p.date q.date h5 in
    (method, uri_encode_path-injective _ _ p.path q.path path, query, host, payload, date)
