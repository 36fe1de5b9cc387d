-- ===== src/Client/Capture.antt =====
-- assets/app.js `captureTokenFromUrl`: from the address with the operator's token to the storage.
use cloudflare_r2_bench.Base.{
  ◌≡◌, refl, ◌∙◌, inl, inr, false, Option, none, some, Text, codes, text_eq, text_eq_refl,
  Option-cases,
}
use cloudflare_r2_bench.Base.Entries.{
  get_entry, set_entry, delete_entry, get_entry-set_entry, get_entry-delete_entry,
}
use cloudflare_r2_bench.Js.Number.{or_default}
use cloudflare_r2_bench.Client.{Page, token_key, capture_token_from_url, admin_token}

abbrev pub token_param : Page → Option Text
token_param page = get_entry (codes "token") page.params

abbrev pub signed : Page → Text → Page
signed page token = record page {
  storage = set_entry token_key token page.storage;
  params = delete_entry (codes "token") page.params;
}

captured_none : (page : Page) → token_param page ≡ none → capture_token_from_url page ≡ page
unfolding capture_token_from_url
captured_none page h = rw (h, capture_token_from_url) refl

pub captured_some :
    (page : Page) (token : Text)
    → token_param page ≡ some token
    → capture_token_from_url page ≡ signed page token
unfolding capture_token_from_url
captured_some page token h = rw (h, capture_token_from_url) refl

pub admin_token-signed :
    (page : Page) (token : Text) → admin_token (signed page token).storage ≡ token
unfolding admin_token
admin_token-signed page token =
    rw (get_entry-set_entry token_key token token_key page.storage, text_eq_refl token_key) refl

signed_param : (page : Page) (token : Text) → token_param (signed page token) ≡ none
signed_param page token =
    get_entry-delete_entry (codes "token") (codes "token") page.params
    ∙ rw (text_eq_refl (codes "token")) refl

-- Opening a page takes the token off its address, so that a reload changes nothing more; keeps every
-- other parameter and every other key of the storage; and stores the address's token, or, with none,
-- keeps the stored one.
pub capture_token_from_url_lem :
    (page : Page) (name key : Text)
    → text_eq (codes "token") name ≡ false
    → text_eq token_key key ≡ false
    → (get_entry (codes "token") (capture_token_from_url page).params ≡ none)
      × (capture_token_from_url (capture_token_from_url page) ≡ capture_token_from_url page)
      × (get_entry name (capture_token_from_url page).params ≡ get_entry name page.params)
      × (get_entry key (capture_token_from_url page).storage ≡ get_entry key page.storage)
      × (admin_token (capture_token_from_url page).storage
          ≡ or_default (get_entry (codes "token") page.params) (admin_token page.storage))
capture_token_from_url_lem page name key other other_key = elim (Option-cases (token_param page)) [
  | inl empty ↦
      rw (captured_none page empty, captured_none page empty, empty) (refl, refl, refl, refl, refl)
  | inr (token, found) ↦
      rw (captured_some page token found, found)
        (
          signed_param page token,
          captured_none (signed page token) (signed_param page token),
          get_entry-delete_entry (codes "token") name page.params ∙ rw other refl,
          get_entry-set_entry token_key token key page.storage ∙ rw other_key refl,
          admin_token-signed page token,
        )
]
