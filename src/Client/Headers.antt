-- ===== src/Client/Headers.antt =====
-- assets/app.js `api`: what becomes of the headers that are handed to the browser's `fetch`.
use cloudflare_r2_bench.Base.{
  ◌+◌, ◌≡◌, refl, sym, ap, ◌∙◌, inl, inr, true, false, Option, none, some, [], ◌∷◌, ◌++◌, ◌&&◌,
  Text, codes, text_eq, text_eq_sound, Bool-cases, leb, map, if◌then◌else◌,
}
use cloudflare_r2_bench.Base.Entries.{Entries, set_entry}

abbrev pub lower : Text → Text
lower name = map (λ c. if leb b'A' c && leb c b'Z' then c + 32 else c) name

abbrev combined : Text → Option Text → Text
combined value none = value
combined value (some rest) = value ++ (codes ", " ++ rest)

-- The value of a header as it is received: `fetch` combines all entries whose names differ in case
-- only, and each value arrives as `carried` makes it, since the browser strips the white space around
-- it. The name is in lower case.
unfoldable pub header_in : (Text → Text) → Text → Entries → Option Text
header_in carried name [] = none
header_in carried name ((n, v) ∷ headers) =
    let rest = header_in carried name headers in
    if text_eq (lower n) name then some (combined (carried v) rest) else rest

pub header_in-set_other :
    (carried : Text → Text) (name key value : Text) (headers : Entries)
    → text_eq (lower key) name ≡ false
    → header_in carried name (set_entry key value headers) ≡ header_in carried name headers
unfolding header_in set_entry
header_in-set_other carried name key value [] apart = rw apart refl
header_in-set_other carried name key value ((n, v) ∷ headers) apart =
    elim (Bool-cases (text_eq n key)) [
      | inl same ↦
          let gone : text_eq (lower n) name ≡ false = rw (text_eq_sound n key same) apart in
          rw (same, gone) refl
      | inr other ↦ rw (other, header_in-set_other carried name key value headers apart) refl
    ]

pub header_in-set_own :
    (carried : Text → Text) (name key value : Text) (headers : Entries)
    → text_eq (lower key) name ≡ true
    → header_in carried name headers ≡ none
    → header_in carried name (set_entry key value headers) ≡ some (carried value)
unfolding header_in set_entry
header_in-set_own carried name key value [] own empty = rw own refl
header_in-set_own carried name key value ((n, v) ∷ headers) own empty =
    elim (Bool-cases (text_eq (lower n) name)) [
      | inl hit ↦ absurd (full (rw hit at empty))
      | inr miss ↦ elim (Bool-cases (text_eq n key)) [
        | inl same ↦ absurd (
            clash
              (sym own ∙ ap (λ t. text_eq (lower t) name) (sym (text_eq_sound n key same)) ∙ miss))
        | inr other ↦
            rw (other, miss)
              (header_in-set_own carried name key value headers own (rw miss at empty))
      ]
    ]
  where
    full : {t : Text} → some t ≡ none → ⊥
    full e = cc

    clash : true ≡ false → ⊥
    clash e = cc
