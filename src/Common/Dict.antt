-- ===== src/Common/Dict.antt =====
-- A Python `dict`, or a table by its primary key, with texts as keys.
use mathlib.Core.Path.{◌≡◌}
use mathlib.Core.Logic.{◌≢◌, inl, inr}
use mathlib.Core.Bool.{false}
use mathlib.Core.Option.{Option, none, some}
use mathlib.Core.List.{List, [], ◌∷◌}
use native.Mathlib.Omega.{arith}
use inno_scalping_crawling.Common.Tests.{if◌then◌else◌, Bool-cases}
use inno_scalping_crawling.Common.Texts.{Text, text_eq, text_eq_sound, text_eq_refl}

module _ {V : Type 0} where
  -- `dict.get` and `dict[key] = value`
  unfoldable pub lookup : Text → List (Text × V) → Option V
  lookup k [] = none
  lookup k ((j, v) ∷ d) = if text_eq j k then some v else lookup k d

  unfoldable pub insert : Text → V → List (Text × V) → List (Text × V)
  insert k v [] = (k, v) ∷ []
  insert k v ((j, w) ∷ d) = if text_eq j k then (j, v) ∷ d else (j, w) ∷ insert k v d

  -- `dict.pop(key, None)`
  unfoldable pub remove : Text → List (Text × V) → List (Text × V)
  remove k [] = []
  remove k ((j, w) ∷ d) = let rest = remove k d in if text_eq j k then rest else (j, w) ∷ rest

module _ {V : Type 0} where
  pub lookup-insert_self :
      (k : Text) (v : V) (d : List (Text × V)) → lookup k (insert k v d) ≡ some v
  unfolding lookup insert
  lookup-insert_self k v [] = ground (arith, text_eq_refl k)
  lookup-insert_self k v ((j, w) ∷ d) = ground (arith, lookup-insert_self k v d)

  pub lookup-insert_ne :
      (j k : Text) (v : V) (d : List (Text × V))
      → text_eq k j ≡ false
      → lookup j (insert k v d) ≡ lookup j d
  unfolding lookup insert
  lookup-insert_ne j k v [] h = ground arith
  lookup-insert_ne j k v ((i, w) ∷ d) h =
      ground (arith, lookup-insert_ne j k v d h, text_eq_sound i k)

pub text_ne : (s t : Text) → s ≢ t → text_eq s t ≡ false
text_ne s t ne = elim (Bool-cases (text_eq s t)) [
  | inl same ↦ absurd (ne (text_eq_sound s t same))
  | inr other ↦ other
]
