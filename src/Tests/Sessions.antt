-- ===== src/Tests/Sessions.antt =====
-- The theorems on the operator's pages at concrete inputs that meet their hypotheses.
use cloudflare_r2_bench.Base.{◌≡◌, refl, none, some, Option, [], ◌∷◌, Text, codes, text_eq}
use cloudflare_r2_bench.Base.Entries.{get_entry}
use cloudflare_r2_bench.Js.Number.{or_default}
use cloudflare_r2_bench.Auth.{require_admin}
use cloudflare_r2_bench.Db.Prog.{done}
use cloudflare_r2_bench.Orchestrator.Route.{Body, Payload, not_found, post}
use cloudflare_r2_bench.Client.{
  Page, capture_token_from_url, admin_token, Options, ApiRequest, Exchange, answered, api_request,
}
use cloudflare_r2_bench.Client.Headers.{header_in}
use cloudflare_r2_bench.Client.Capture.{capture_token_from_url_lem}
use cloudflare_r2_bench.Client.Session.{signed_in, delivered}
use cloudflare_r2_bench.Tests.Fixtures.{env, no_body, start_body}

abbrev opened : Page
opened = record {
  path = codes "/jobs.html";
  params = (codes "job", codes "u1") ∷ (codes "token", codes "admin-secret") ∷ [];
  storage = (codes "theme", codes "dark") ∷ [];
}

capture_token_from_url_lem_example :
    (get_entry (codes "token") (capture_token_from_url opened).params ≡ none)
    × (capture_token_from_url (capture_token_from_url opened) ≡ capture_token_from_url opened)
    × (get_entry (codes "job") (capture_token_from_url opened).params
        ≡ get_entry (codes "job") opened.params)
    × (get_entry (codes "theme") (capture_token_from_url opened).storage
        ≡ get_entry (codes "theme") opened.storage)
    × (admin_token (capture_token_from_url opened).storage
        ≡ or_default (get_entry (codes "token") opened.params) (admin_token opened.storage))
unfolding text_eq
capture_token_from_url_lem_example =
    capture_token_from_url_lem opened (codes "job") (codes "theme") refl refl

abbrev start_options : Options Text
start_options = record {
  method = some post;
  headers = (codes "Accept", codes "application/json") ∷ [];
  body = some (codes "{}");
}

-- The browser strips no white space of these tokens.
abbrev as_it_is : Text → Text
as_it_is t = t

abbrev start_call : Option Text → Body
start_call _ = record no_body { as_start = some start_body }

signed_in_example :
    let request =
      delivered as_it_is start_call (
        api_request
          (capture_token_from_url opened).storage
          (codes "/api/v1/start")
          start_options) in
    require_admin env request.admin_header request.admin_query ≡ done tt
unfolding get_entry header_in text_eq
signed_in_example =
    signed_in as_it_is start_call env opened (codes "admin-secret") (codes "/api/v1/start")
      start_options refl refl refl refl

abbrev no_message : Payload → Option Text
no_message _ = none

abbrev created : ApiRequest Text → Exchange Payload
created _ = answered 201 (some not_found)
