-- ===== src/Base/Entries.antt =====
-- Entries of names and values: the query of a URL, the headers of a request, local storage.
use cloudflare_r2_bench.Base.Tests.{if◌then◌else◌, Bool-cases}
use cloudflare_r2_bench.Base.Strings.{Text, text_eq, text_eq_refl, text_eq_sound}
use mathlib.Core.Path.{◌≡◌, refl, ◌∙◌}
use mathlib.Core.Logic.{inl, inr}
use mathlib.Core.Bool.{true, false}
use mathlib.Core.Option.{Option, none, some}
use mathlib.Core.List.{List, [], ◌∷◌}

abbrev pub Entries : Type 0
Entries = List (Text × Text)

-- The first value of a name: `searchParams.get`, `getItem`, `headers[name]`.
unfoldable pub get_entry : Text → Entries → Option Text
get_entry name [] = none
get_entry name ((n, v) ∷ entries) = if text_eq n name then some v else get_entry name entries

-- A name gets a value, in place of the one that it has: `setItem`, `headers[name] = value`.
unfoldable pub set_entry : Text → Text → Entries → Entries
set_entry name value [] = (name, value) ∷ []
set_entry name value ((n, v) ∷ entries) =
    if text_eq n name then (n, value) ∷ entries else (n, v) ∷ set_entry name value entries

-- Every value of a name goes: `searchParams.delete`.
unfoldable pub delete_entry : Text → Entries → Entries
delete_entry name [] = []
delete_entry name ((n, v) ∷ entries) =
    let rest = delete_entry name entries in if text_eq n name then rest else (n, v) ∷ rest

text_eq_apart : (n a b : Text) → text_eq n a ≡ false → text_eq n b ≡ true → text_eq a b ≡ false
text_eq_apart n a b h k = elim (Bool-cases (text_eq a b)) [
  | inr apart ↦ apart
  | inl e ↦
      let x : n ≡ b = text_eq_sound n b k in
      let y : a ≡ b = text_eq_sound a b e in
      let z : text_eq n n ≡ false = rw (y, ← x) at h in cc (text_eq_refl n, z)
]

pub get_entry-set_entry :
    (name value other : Text) (entries : Entries)
    → get_entry other (set_entry name value entries)
      ≡ (if text_eq name other then some value else get_entry other entries)
unfolding get_entry set_entry
get_entry-set_entry name value other [] = refl
get_entry-set_entry name value other ((n, v) ∷ entries) = elim (Bool-cases (text_eq n name)) [
  | inl hit ↦
      let same = text_eq_sound n name hit in
      rw (hit, same)
        (elim (Bool-cases (text_eq name other)) [ inl e ↦ rw e refl | inr e ↦ rw e refl ])
  | inr miss ↦ rw miss (elim (Bool-cases (text_eq n other)) [
    | inl e ↦
        let kept : text_eq name other ≡ false = text_eq_apart n name other miss e in
        rw (e, kept) refl
    | inr e ↦ rw e (get_entry-set_entry name value other entries)
  ])
]

pub get_entry-delete_entry :
    (name other : Text) (entries : Entries)
    → get_entry other (delete_entry name entries)
      ≡ (if text_eq name other then none else get_entry other entries)
unfolding get_entry delete_entry
get_entry-delete_entry name other [] = elim (Bool-cases (text_eq name other)) [
  | inl e ↦ rw e refl
  | inr e ↦ rw e refl
]
get_entry-delete_entry name other ((n, v) ∷ entries) = elim (Bool-cases (text_eq n name)) [
  | inl hit ↦
      let same = text_eq_sound n name hit in
      rw (hit, same) (get_entry-delete_entry name other entries ∙ skip name)
  | inr miss ↦ rw miss (elim (Bool-cases (text_eq n other)) [
    | inl e ↦ rw (e, text_eq_apart n name other miss e) refl
    | inr e ↦ rw e (get_entry-delete_entry name other entries)
  ])
]
  where
    skip :
        (a : Text)
        → ◌≡◌ {A = Option Text} (if text_eq a other then none else get_entry other entries) (
            if text_eq a other
            then none
            else if text_eq a other
            then some v
            else get_entry other entries)
    skip a = elim (Bool-cases (text_eq a other)) [ inl e ↦ rw e refl | inr e ↦ rw e refl ]
