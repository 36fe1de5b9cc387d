-- ===== src/Signing/Signer.antt =====
-- internal/r2/sigv4.go: `Signer`, with its cached key, and `Sign`. SHA-256, HMAC and the hexadecimal
-- text of bytes are the standard library's, and so is the text of the time.
pub mod Cache
pub mod Lines
use cloudflare_r2_bench.Base.{
  ℕ, zero, suc, ◌==◌, Bool, Option, none, some, [], ◌∷◌, ◌++◌, Text, codes, text_eq, if◌then◌else◌,
}
use cloudflare_r2_bench.Signing.{uri_encode_path}

pub record Crypto : Type 0 where
  pub sha256 : Text → Text
  pub hmac_sha256 : Text → Text → Text
  pub hex : Text → Text

pub record Signer : Type 0 where
  pub access_key : Text
  pub secret_key : Text
  pub region : Text
  pub service : Text
  pub cached_date : Text
  pub cached_key : Text

abbrev pub new_signer : Text → Text → Text → Signer
new_signer access_key secret_key region = record {
  access_key = access_key;
  secret_key = secret_key;
  region = region;
  service = codes "s3";
  cached_date = [];
  cached_key = [];
}

-- The part of `signingKey` under the read lock: the cached key, if it is that of the date.
unfoldable pub read_key : Signer → Text → Option Text
read_key s date_stamp = if text_eq s.cached_date date_stamp then some s.cached_key else none

-- A key, and the number of HMACs that were computed for it.
pub record Chain : Type 0 where
  pub key : Text
  pub hmacs : ℕ

abbrev pub chained : Crypto → Chain → Text → Chain
chained crypto c text = record { key = crypto.hmac_sha256 c.key text; hmacs = suc c.hmacs }

-- The chain of HMACs.
unfoldable pub derive_key : Crypto → Signer → Text → Chain
derive_key crypto s date_stamp =
    let secret : Chain = record { key = codes "AWS4" ++ s.secret_key; hmacs = 0 } in
    let k_date = chained crypto secret date_stamp in
    let k_region = chained crypto k_date s.region in
    let k_service = chained crypto k_region s.service in
    chained crypto k_service (codes "aws4_request")

-- The second look at the cache, under the write lock.
unfoldable pub has_key : Signer → Text → Bool
has_key s date_stamp = text_eq s.cached_date date_stamp

-- The part of `signingKey` under the write lock.
unfoldable pub write_key : Crypto → Signer → Text → Signer × Chain
unfolding derive_key has_key
write_key crypto s date_stamp =
    let new = derive_key crypto s date_stamp in
    if has_key s date_stamp
    then (s, record { key = s.cached_key; hmacs = 0 })
    else (record s { cached_key = new.key; cached_date = date_stamp }, new)

pub record Request : Type 0 where
  pub method : Text
  pub path : Text
  pub raw_query : Text
  pub host : Text
  pub url_host : Text

-- A call of `Sign`; the last field is the text of its time.
pub record Call : Type 0 where
  pub request : Request
  pub payload_sha256 : Text
  pub amz_date : Text

pub record Headers : Type 0 where
  pub x_amz_date : Text
  pub x_amz_content_sha256 : Text
  pub authorization : Text

abbrev pub take : ℕ → Text → Text
take zero t = []
take (suc n) [] = []
take (suc n) (c ∷ cs) = c ∷ take n cs

unfoldable pub date_stamp : Text → Text
date_stamp amz_date = take 8 amz_date

abbrev pub host_or : Text → Text → Text
host_or [] url_host = url_host
host_or (c ∷ cs) url_host = c ∷ cs

abbrev pub line : Text → Text → Text
line text rest = text ++ (10 ∷ rest)

abbrev pub algorithm : Text
algorithm = codes "AWS4-HMAC-SHA256"

abbrev pub signed_headers : Text
signed_headers = codes "host;x-amz-content-sha256;x-amz-date"

unfoldable pub canonical_request : Call → Text
canonical_request c = line c.request.method (
    line (uri_encode_path c.request.path) (
      line c.request.raw_query (
        line (codes "host:" ++ host_or c.request.host c.request.url_host) (
          line (codes "x-amz-content-sha256:" ++ c.payload_sha256) (
            line (codes "x-amz-date:" ++ c.amz_date)
              (line [] (line signed_headers c.payload_sha256)))))))

unfoldable pub scope : Signer → Text → Text
scope s date = date ++ (b'/' ∷ s.region ++ (b'/' ∷ s.service ++ codes "/aws4_request"))

unfoldable pub string_to_sign : Crypto → Signer → Call → Text
unfolding canonical_request scope date_stamp
string_to_sign crypto s c = line algorithm (
    line c.amz_date
      (line (scope s (date_stamp c.amz_date)) (crypto.hex (crypto.sha256 (canonical_request c)))))

-- The headers that `Sign` sets, from the key on.
unfoldable pub sign_with : Crypto → Signer → Text → Call → Headers
unfolding string_to_sign scope date_stamp
sign_with crypto s key c = record {
  x_amz_date = c.amz_date;
  x_amz_content_sha256 = c.payload_sha256;
  authorization =
      algorithm
      ++ (codes " Credential="
          ++ (s.access_key
              ++ (b'/' ∷ scope s (date_stamp c.amz_date)
                  ++ (codes ", SignedHeaders="
                      ++ (signed_headers
                          ++ (codes ", Signature="
                              ++ crypto.hex
                                  (crypto.hmac_sha256 key (string_to_sign crypto s c))))))));
}

-- A call of `Sign` that runs in its goroutine: before its key is read, between the two locks, and
-- when its headers are set. Nothing but its key depends on the other goroutines.
pub data Phase : Type 0 where
  pending : Call → Phase
  missed : Call → Phase
  signed : Call → Headers → Phase

abbrev pub after_read : Crypto → Signer → Call → Option Text → Phase
after_read crypto s c none = missed c
after_read crypto s c (some key) = signed c (sign_with crypto s key c)

-- What one goroutine does next, under one lock.
unfoldable pub sign_step : Crypto → Signer → Phase → Signer × Phase
unfolding read_key write_key date_stamp
sign_step crypto s (pending c) = (s, after_read crypto s c (read_key s (date_stamp c.amz_date)))
sign_step crypto s (missed c) =
    let (s', chain) = write_key crypto s (date_stamp c.amz_date) in
    (s', signed c (sign_with crypto s' chain.key c))
sign_step crypto s (signed c headers) = (s, signed c headers)

-- The goroutines by their number, and the signer that they share.
pub record Pool : Type 0 where
  pub signer : Signer
  pub phase : ℕ → Phase

abbrev pub update : (ℕ → Phase) → ℕ → Phase → ℕ → Phase
update phases i p j = if i == j then p else phases j

unfoldable pub pool_step : Crypto → Pool → ℕ → Pool
unfolding sign_step
pool_step crypto pool i =
    let (signer, phase) = sign_step crypto pool.signer (pool.phase i) in
    record { signer = signer; phase = update pool.phase i phase }
