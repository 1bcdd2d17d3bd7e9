-- ===== src/Base/Dict.antt =====
-- Dictionaries with text keys (JavaScript objects and `Map`s) as association lists in insertion
-- order. A write to a present key keeps its place.
use Prim.Native.String.{String}
use mathlib.Core.Path.{◌≡◌, refl}
use mathlib.Core.Option.{Option, none, some}
use mathlib.Core.List.{List, [], ◌∷◌}
use native.Mathlib.Omega.{arith}
use text.Mathlib.Text.{◌==◌ as str_eq}
use text.Mathlib.TextEquality.{eq_iff}
use mansariya.Base.Compare.{if◌then◌else◌}

module _ {ℓ} {V : Type ℓ} where
  -- Taking a key out.
  unfoldable pub delete : String → List (String × V) → List (String × V)
  delete key [] = []
  delete key (entry ∷ rest) =
      let kept = delete key rest in if str_eq entry.0 key then kept else entry ∷ kept

  -- `m[key]`, `none` where it is `undefined`.
  unfoldable pub lookup : String → List (String × V) → Option V
  lookup key [] = none
  lookup key (entry ∷ rest) =
      let below = lookup key rest in if str_eq entry.0 key then some entry.1 else below

  -- `m[key] = value`
  unfoldable pub insert : String → V → List (String × V) → List (String × V)
  insert key value [] = (key, value) ∷ []
  insert key value (entry ∷ rest) =
      let below = insert key value rest in
      if str_eq entry.0 key then (key, value) ∷ rest else entry ∷ below

  pub lookup-delete :
      (gone wanted : String) (m : List (String × V))
      → lookup wanted (delete gone m) ≡ (if str_eq gone wanted then none else lookup wanted m)
  unfolding delete lookup
  lookup-delete gone wanted [] = ground arith
  lookup-delete gone wanted (entry ∷ rest) = ground (
    arith,
    lookup-delete gone wanted rest,
    eq_iff gone wanted,
    eq_iff entry.0 gone,
    eq_iff entry.0 wanted,
  )

  pub lookup-insert :
      (written wanted : String) (value : V) (m : List (String × V))
      → lookup wanted (insert written value m)
        ≡ (if str_eq written wanted then some value else lookup wanted m)
  unfolding insert lookup
  lookup-insert written wanted value [] = refl
  lookup-insert written wanted value (entry ∷ rest) = ground (
    arith,
    lookup-insert written wanted value rest,
    eq_iff written wanted,
    eq_iff entry.0 written,
    eq_iff entry.0 wanted,
  )
