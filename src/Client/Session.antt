-- ===== src/Client/Session.antt =====
-- The operator's session: from the address with the token to the control plane's check of it.
use cloudflare_r2_bench.Base.{
  ℕ, ◌≡◌, ap, refl, ◌∙◌, ◌↔◌, inl, inr, Option, none, some, [], ◌∷◌, Text, codes, text_eq,
  if◌then◌else◌, arith, ◌≤◌, ◌<◌,
}
use cloudflare_r2_bench.Base.Entries.{Entries, get_entry}
use cloudflare_r2_bench.Env.{Env}
use cloudflare_r2_bench.Db.{Db, Clock}
use cloudflare_r2_bench.Db.Prog.{run, returned, thrown, done, Outcome}
use cloudflare_r2_bench.Auth.{require_admin}
use cloudflare_r2_bench.Auth.Checks.{require_admin_cases}
use cloudflare_r2_bench.Orchestrator.Route.{
  Request, Body, Response, Payload, json, failed_start, asset, fetch,
}
use cloudflare_r2_bench.Client.{
  with_content_type, with_token, Page, capture_token_from_url, admin_token, Options, ApiRequest,
  Exchange, unreachable, answered, resolved, api_request, api_result, api, is_empty,
}
use cloudflare_r2_bench.Client.Headers.{header_in, header_in-set_other, header_in-set_own}
use cloudflare_r2_bench.Client.Capture.{token_param, captured_some, admin_token-signed}

abbrev pub admin_header : Text
admin_header = codes "x-admin-token"

-- A request as the Worker receives it; `parse` reads the body.
abbrev pub delivered :
    {Value : Type 0} → (Text → Text) → (Option Value → Body) → ApiRequest Value → Request
delivered carried parse request = record {
  method = request.method;
  path = request.path;
  admin_header = header_in carried admin_header request.headers;
  admin_query = none;
  body = parse request.body;
}

header-with_content_type :
    {Value : Type 0} (carried : Text → Text) (body : Option Value) (headers : Entries)
    → header_in carried admin_header (with_content_type body headers)
      ≡ header_in carried admin_header headers
unfolding text_eq
header-with_content_type carried none headers = refl
header-with_content_type carried (some _) headers =
    header_in-set_other carried admin_header (codes "Content-Type") (codes "application/json")
      headers refl

-- The header that a call carries, if its options set none of that name.
header-with_token :
    (carried : Text → Text) (headers : Entries) (t : Text)
    → header_in carried admin_header headers ≡ none
    → header_in carried admin_header (with_token t headers)
      ≡ (if is_empty t then none else some (carried t))
unfolding text_eq
header-with_token carried headers [] own = own
header-with_token carried headers (c ∷ t) own =
    header_in-set_own carried admin_header admin_header (c ∷ t) headers refl own

header-api_request :
    {Value : Type 0} (carried : Text → Text) (storage : Entries) (path : Text)
    (options : Options Value)
    → header_in carried admin_header options.headers ≡ none
    → header_in carried admin_header (api_request storage path options).headers
      ≡ (if is_empty (admin_token storage) then none else some (carried (admin_token storage)))
unfolding api_request
header-api_request carried storage path options own =
    header-with_content_type carried options.body (with_token (admin_token storage) options.headers)
    ∙ header-with_token carried options.headers (admin_token storage) own

admin_token-captured :
    (page : Page) (t : Text)
    → token_param page ≡ some t
    → admin_token (capture_token_from_url page).storage ≡ t
admin_token-captured page t given = rw (captured_some page t given) (admin_token-signed page t)

-- A page opened with the operator's token in its address is signed in: every call of `api` from it,
-- with any options that set no header of the token's name, in whatever case of letters, passes the
-- control plane's check, if the token survives as a header's value.
pub signed_in :
    {Value : Type 0} (carried : Text → Text) (parse : Option Value → Body) (env : Env) (page : Page)
    (t path : Text) (options : Options Value)
    → env.admin_token ≡ some t
    → get_entry (codes "token") page.params ≡ some t
    → carried t ≡ t
    → header_in carried admin_header options.headers ≡ none
    → let request =
        delivered carried parse (api_request (capture_token_from_url page).storage path options) in
      require_admin env request.admin_header request.admin_query ≡ done tt
signed_in carried parse env page [] path options set given kept own =
    (require_admin_cases env _ _).0.1 (inl (rw set refl))
signed_in carried parse env page (c ∷ t) path options set given kept own =
    let storage = (capture_token_from_url page).storage in
    let stored = admin_token-captured page (c ∷ t) given in
    let header : header_in carried admin_header (api_request storage path options).headers
        ≡ some (c ∷ t) =
      header-api_request carried storage path options own ∙ rw stored (ap some kept) in
    (require_admin_cases env _ _).0.1 (inr (rw header set))

-- What the Worker's outcome looks like from the browser. A page or a plain text is not JSON.
unfoldable pub seen : Outcome Response × Db → Exchange Payload
seen (returned (json status payload), _) = answered status (some payload)
seen (returned (failed_start _), _) = answered 400 none
seen (returned (asset _), _) = answered 200 none
seen (thrown _, _) = unreachable

-- The exchange with the Worker of one call, on a database.
abbrev pub worker :
    {Value : Type 0}
    → (Text → Text)
    → (Option Value → Body)
    → Env
    → Clock
    → Db
    → ApiRequest Value
    → Exchange Payload
worker carried parse env clock db request =
    seen (run (fetch env clock (delivered carried parse request)) db)

api_result_iff :
    {Reply : Type 0} (message : Reply → Option Text) (token : Text) (x : Exchange Reply)
    (reply : Option Reply)
    → (api_result message token x ≡ resolved reply)
      ↔ ((status : ℕ) × (x ≡ answered status reply) × (200 ≤ status) × (status < 300))
unfolding api_result
api_result_iff message token unreachable reply = (λ h. cc, λ (s, e, _, _). cc)
api_result_iff message token (answered status body) reply =
    (λ h. (status, ground arith, ground arith, ground arith), λ (s, e, low, high). ground arith)

-- A call resolves exactly with the body of an answer whose status is from 200 to 299; in particular
-- every refusal of the control plane reaches the page as an error.
api_resolves_iff :
    {Value Reply : Type 0} (message : Reply → Option Text)
    (exchange : ApiRequest Value → Exchange Reply) (storage : Entries) (path : Text)
    (options : Options Value) (reply : Option Reply)
    → (api message exchange storage path options ≡ resolved reply) ↔ (
        (status : ℕ) × (exchange (api_request storage path options) ≡ answered status reply)
        × (200 ≤ status)
        × (status < 300))
unfolding api
api_resolves_iff message exchange storage path options reply =
    api_result_iff message (admin_token storage) (exchange (api_request storage path options)) reply
