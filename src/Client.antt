-- ===== src/Client.antt =====
-- assets/app.js: what every page of the operator does with the admin token, and its calls of the
-- control plane. The browser's storage and the query of a URL are entries of names and values.
pub mod Capture
pub mod Headers
pub mod Session
use cloudflare_r2_bench.Base.{
  ℕ, Bool, true, false, not, ◌&&◌, Option, none, some, List, [], ◌∷◌, ◌++◌, Text, codes, decimal,
  ltb, leb, ◌==◌, if◌then◌else◌,
}
use cloudflare_r2_bench.Base.Entries.{Entries, get_entry, set_entry, delete_entry}
use cloudflare_r2_bench.Js.Number.{or_default}
use cloudflare_r2_bench.Orchestrator.Route.{Method, get}

abbrev pub token_key : Text
token_key = codes "r2bench.adminToken"

-- A page that is open: its address, whose query is a list of parameters, and `localStorage`.
pub record Page : Type 0 where
  pub path : Text
  pub params : Entries
  pub storage : Entries

-- The token of the address is stored, and taken off the address.
unfoldable pub capture_token_from_url : Page → Page
capture_token_from_url page = elim (get_entry (codes "token") page.params) [
  | none ↦ page
  | some token ↦ record page {
    storage = set_entry token_key token page.storage;
    params = delete_entry (codes "token") page.params;
  }
]

unfoldable pub admin_token : Entries → Text
admin_token storage = or_default (get_entry token_key storage) []

-- The options of a call; a field that is absent is `undefined`.
pub record Options (Value : Type 0) : Type 0 where
  pub method : Option Method
  pub headers : Entries
  pub body : Option Value

-- What is handed to the browser's `fetch`; the body is sent as its JSON.
pub record ApiRequest (Value : Type 0) : Type 0 where
  pub path : Text
  pub method : Method
  pub headers : Entries
  pub body : Option Value

-- What comes back: nothing, or a status and the JSON of the body, if it is JSON.
pub data Exchange (Reply : Type 0) : Type 0 where
  unreachable : Exchange Reply
  answered : ℕ → Option Reply → Exchange Reply

-- The promise of `api`: the parsed body, an `Error` with its message, or the error of `fetch`.
pub data ApiResult (Reply : Type 0) : Type 0 where
  resolved : Option Reply → ApiResult Reply
  raised : Text → ApiResult Reply
  fetch_error : ApiResult Reply

abbrev pub is_empty : Text → Bool
is_empty [] = true
is_empty (_ ∷ _) = false

abbrev with_token : Text → Entries → Entries
with_token token headers =
    if is_empty token then headers else set_entry (codes "x-admin-token") token headers

abbrev with_content_type : {Value : Type 0} → Option Value → Entries → Entries
with_content_type none headers = headers
with_content_type (some _) headers =
    set_entry (codes "Content-Type") (codes "application/json") headers

unfoldable pub api_request : {Value : Type 0} → Entries → Text → Options Value → ApiRequest Value
unfolding admin_token
api_request storage path options = record {
  path = path;
  method = or_default options.method get;
  headers = with_content_type options.body (with_token (admin_token storage) options.headers);
  body = options.body;
}

abbrev pub rejected_token : Text
rejected_token =
    codes
      "Unauthorized. The stored admin token was rejected. If the control plane was just redeployed, reload the page; the token survives. Otherwise get a current one with `make dashboard` and open the URL it prints."

abbrev pub missing_token : Text
missing_token =
    codes
      "Unauthorized. No admin token stored. Run `make dashboard` (or `terraform output -raw dashboard_url`) and open the URL it prints - it includes the token."

abbrev pub unauthorized_message : Text → Text
unauthorized_message token = if is_empty token then missing_token else rejected_token

-- `response.ok`.
abbrev pub is_ok : ℕ → Bool
is_ok status = leb 200 status && ltb status 300

-- `data?.message`, where the body may be absent.
abbrev pub message_in : {Reply : Type 0} → (Reply → Option Text) → Option Reply → Option Text
message_in message none = none
message_in message (some reply) = message reply

abbrev failed_with : ℕ → Text
failed_with status = codes "Request failed with status " ++ decimal status

-- From the response on.
unfoldable pub api_result :
    {Reply : Type 0} → (Reply → Option Text) → Text → Exchange Reply → ApiResult Reply
api_result message token unreachable = fetch_error
api_result message token (answered status reply) =
    if status == 401
    then raised (unauthorized_message token)
    else if not (is_ok status)
    then raised (or_default (message_in message reply) (failed_with status))
    else resolved reply

-- `fetch` is the browser's, with the network behind it; `message` reads the field of a body.
unfoldable pub api :
    {Value Reply : Type 0}
    → (Reply → Option Text)
    → (ApiRequest Value → Exchange Reply)
    → Entries
    → Text
    → Options Value
    → ApiResult Reply
unfolding api_request api_result admin_token
api message fetch storage path options =
    api_result message (admin_token storage) (fetch (api_request storage path options))
