-- ===== src/Base/Text.antt =====
-- Texts, and maps from texts as association lists: Go's `map[string]T`.
use Prim.Native.String
use Prim.Native.String.{String}
use mathlib.Core.Path.{◌≡◌, refl}
use mathlib.Core.Option.{Option, none, some}
use mathlib.Core.List.{List, [], ◌∷◌}
use native.Mathlib.Omega.{arith}
use text.Mathlib.Text.{◌==◌}
use text.Mathlib.TextEquality.{eq_iff}
use ai_cloud_operator.Base.Tests.{if◌then◌else◌}

-- The parts of a text, one after the other.
abbrev pub concat : List String → String
concat [] = ""
concat (s ∷ ss) = String.◌++◌ s (concat ss)

module _ {ℓ} {A : Type ℓ} where
  -- `m[key]`, with `none` for a missing key.
  unfoldable pub lookup : String → List (String × A) → Option A
  lookup key [] = none
  lookup key (entry ∷ rest) = if entry.0 == key then some entry.1 else lookup key rest

  -- `m[key] = value`: the entry keeps its place, and a new one comes last.
  unfoldable pub insert : String → A → List (String × A) → List (String × A)
  insert key value [] = (key, value) ∷ []
  insert key value (entry ∷ rest) =
      let later = insert key value rest in
      if entry.0 == key then (key, value) ∷ rest else entry ∷ later

  -- After a write, the written key reads as the value and every other key as before.
  pub lookup-insert :
      (written read : String) (value : A) (entries : List (String × A))
      → lookup read (insert written value entries)
        ≡ (if written == read then some value else lookup read entries)
  unfolding insert lookup
  lookup-insert written read value [] = refl
  lookup-insert written read value (entry ∷ rest) =
      let tail = lookup-insert written read value rest in
      ground (arith, tail, eq_iff entry.0 written, eq_iff entry.0 read, eq_iff written read)

-- `m[k]` of a `map[string]string`: the empty text where the key is missing.
unfoldable pub get_text : String → List (String × String) → String
unfolding lookup
get_text k m = elim (lookup k m) [ none ↦ "" | some v ↦ v ]

pub get_text-insert :
    (written read value : String) (entries : List (String × String))
    → get_text read (insert written value entries)
      ≡ (if written == read then value else get_text read entries)
unfolding get_text
get_text-insert written read value entries =
    ground (arith, lookup-insert written read value entries)
