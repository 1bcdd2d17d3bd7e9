-- ===== src/Base/Group.antt =====
-- Grouping by a text: each element is put at the end of its key's list.
use Prim.Native.String.{String}
use mathlib.Core.Path.{◌≡◌, refl, sym, ap, ◌∙◌}
use mathlib.Core.Bool.{Bool, true, false}
use mathlib.Core.Option.{Option, none, some}
use mathlib.Core.List.{List, [], ◌∷◌, ◌++◌, append-nil, append_assoc}
use text.Mathlib.Text.{◌==◌ as str_eq}
use text.Mathlib.TextEquality.{eq_iff}
use mansariya.Base.Compare.{if◌then◌else◌}
use mansariya.Base.Lists.{select}
use mansariya.Base.Dict.{lookup, insert, lookup-insert}

abbrev pub or_none {ℓ} : {A : Type ℓ} → Option (List A) → List A
or_none none = []
or_none (some xs) = xs

module _ {ℓ} {A : Type ℓ} (key : A → String) where
  unfoldable pub group_by : List A → List (String × List A) → List (String × List A)
  group_by [] m = m
  group_by (x ∷ xs) m = group_by xs (insert (key x) (or_none (lookup (key x) m) ++ x ∷ []) m)

  abbrev pub with_key : String → List A → List A
  with_key k xs = select (λ x. str_eq (key x) k) xs

  -- What one more element adds to the list of `k`.
  one_more :
      (k : String) (x : A) (m : List (String × List A)) (rest : List A) (same : Bool)
      → str_eq (key x) k ≡ same
      → or_none (if same then some (or_none (lookup (key x) m) ++ x ∷ []) else lookup k m) ++ rest
        ≡ or_none (lookup k m) ++ (if same then x ∷ rest else rest)
  one_more k x m rest true h =
      ap (λ j. (or_none (lookup j m) ++ x ∷ []) ++ rest) ((eq_iff (key x) k).0 h)
      ∙ append_assoc (or_none (lookup k m)) (x ∷ []) rest
  one_more k x m rest false h = refl

  -- A key's list has the elements with that key, in the order in which they come.
  pub lookup-group_by :
      (k : String) (xs : List A) (m : List (String × List A))
      → or_none (lookup k (group_by xs m)) ≡ or_none (lookup k m) ++ with_key k xs
  unfolding group_by
  lookup-group_by k [] m = sym (append-nil _)
  lookup-group_by k (x ∷ xs) m =
      let v = or_none (lookup (key x) m) ++ x ∷ [] in
      lookup-group_by k xs (insert (key x) v m)
      ∙ ap (λ o. or_none o ++ with_key k xs) (lookup-insert (key x) k v m)
      ∙ one_more k x m (with_key k xs) (str_eq (key x) k) refl
