-- ===== src/Tests/Signatures.antt =====
-- The theorems on signatures at concrete inputs that meet their hypotheses.
use cloudflare_r2_bench.Base.{
  ℕ, ◌≤◌, ◌≡◌, refl, true, length, ◌==◌, if◌then◌else◌, [], ◌∷◌, ◌++◌, Text, codes, All, arith,
}
use cloudflare_r2_bench.Signing.{uri_encode_path, is_unreserved_or_slash}
use cloudflare_r2_bench.Signing.Paths.{
  is_canonical, percent_decode, none_open, uri_encode_path_roundtrip,
}
use cloudflare_r2_bench.Signing.Signer.{
  Crypto, Request, Call, date_stamp, signed, canonical_request, new_signer,
}
use cloudflare_r2_bench.Signing.Signer.Cache.{sign_alone, run_pool, start_pool, signatures_uncached}
use cloudflare_r2_bench.Signing.Signer.Cache.Once.{key_hmacs, derived_once}
use cloudflare_r2_bench.Signing.Signer.Lines.{IsPlain, canonical_request-injective}

-- A space, a percent sign and a byte that is no ASCII.
abbrev odd_path : Text
odd_path = codes "/a b%2F" ++ (0xe9 ∷ [])

uri_encode_path_roundtrip_example :
    All (λ c. is_canonical c ≡ true) (uri_encode_path odd_path)
    × (percent_decode none_open (uri_encode_path odd_path) ≡ odd_path)
uri_encode_path_roundtrip_example = uri_encode_path_roundtrip odd_path (omega arith)

encoded : uri_encode_path odd_path ≡ codes "/a%20b%252F%E9"
unfolding uri_encode_path is_unreserved_or_slash
encoded = refl

-- Functions that stand for the standard library's: each keeps all that it is given.
abbrev plain_crypto : Crypto
plain_crypto = record { sha256 = λ t. t; hmac_sha256 = λ key t. key ++ t; hex = λ t. t }

abbrev get_object : Request
get_object = record {
  method = codes "GET";
  path = codes "/b-00/k/00000001";
  raw_query = [];
  host = [];
  url_host = codes "acc.r2";
}

abbrev call_at : Text → Call
call_at amz_date = record {
  request = get_object;
  payload_sha256 = codes "e3b0";
  amz_date = amz_date;
}

-- Goroutine 1 signs after midnight, the others before it.
abbrev around_midnight : ℕ → Call
around_midnight i = call_at (if i == 1 then codes "20260302T000000Z" else codes "20260301T235959Z")

around_midnight-stamped : (i : ℕ) → length (around_midnight i).amz_date ≡ 16
around_midnight-stamped i = ground arith

signatures_uncached_example :
    (run_pool plain_crypto
        (start_pool (new_signer (codes "id") (codes "secret") (codes "auto")) around_midnight)
        (0 ∷ 1 ∷ 1 ∷ 2 ∷ 0 ∷ [])).phase
      0
    ≡ signed (around_midnight 0) (
        sign_alone plain_crypto
          (new_signer (codes "id") (codes "secret") (codes "auto"))
          (around_midnight 0))
signatures_uncached_example =
    signatures_uncached plain_crypto (codes "id") (codes "secret") (codes "auto") around_midnight
      around_midnight-stamped 0 (0 ∷ 1 ∷ 1 ∷ 2 ∷ 0 ∷ []) (omega arith)

-- All on one day, with all of them past the read lock before the first derives the key.
abbrev one_day : ℕ → Call
one_day i = call_at (codes "20260301T235959Z")

derived_once_example :
    key_hmacs plain_crypto
      (start_pool (new_signer (codes "id") (codes "secret") (codes "auto")) one_day)
      (0 ∷ 1 ∷ 2 ∷ 0 ∷ 2 ∷ 1 ∷ 3 ∷ [])
    ≤ 4
unfolding date_stamp
derived_once_example =
    derived_once plain_crypto (codes "id") (codes "secret") (codes "auto") one_day (λ i. refl)
      (codes "20260301") (λ i. refl) (0 ∷ 1 ∷ 2 ∷ 0 ∷ 2 ∷ 1 ∷ 3 ∷ [])

one_call-IsPlain : IsPlain (call_at (codes "20260301T235959Z"))
one_call-IsPlain = record {
  method = omega arith;
  path = omega arith;
  raw_query = tt;
  host = omega arith;
  payload = omega arith;
  date = omega arith;
}

abbrev with_host : Call
with_host = record (call_at (codes "20260301T235959Z")) {
  request = record get_object { host = codes "acc.r2"; url_host = [] };
}

with_host-IsPlain : IsPlain with_host
with_host-IsPlain = record {
  method = omega arith;
  path = omega arith;
  raw_query = tt;
  host = omega arith;
  payload = omega arith;
  date = omega arith;
}

canonical_request-injective_example :
    (codes "GET" ≡ codes "GET")
    × (codes "/b-00/k/00000001" ≡ codes "/b-00/k/00000001")
    × (◌≡◌ {A = Text} [] [])
    × (codes "acc.r2" ≡ codes "acc.r2")
    × (codes "e3b0" ≡ codes "e3b0")
    × (codes "20260301T235959Z" ≡ codes "20260301T235959Z")
unfolding canonical_request
canonical_request-injective_example =
    canonical_request-injective (call_at (codes "20260301T235959Z")) with_host one_call-IsPlain
      with_host-IsPlain refl
