-- ===== src/Base/Sets.antt =====
-- `Set<string>` as a list in insertion order.
use Prim.Native.String.{String}
use mathlib.Core.Path.{◌≡◌, refl}
use mathlib.Core.Bool.{Bool, true, false, ◌&&◌, ◌||◌, not}
use mathlib.Core.List.{List, [], ◌∷◌, ◌++◌}
use native.Mathlib.Omega.{arith}
use text.Mathlib.Text.{◌==◌ as str_eq}
use text.Mathlib.TextEquality.{eq_iff}
use mansariya.Base.Compare.{if◌then◌else◌}

unfoldable pub member : String → List String → Bool
member x [] = false
member x (y ∷ ys) = str_eq y x || member x ys

abbrev pub add : String → List String → List String
add x s = if member x s then s else s ++ x ∷ []

unfoldable pub remove : String → List String → List String
remove x [] = []
remove x (y ∷ ys) = let rest = remove x ys in if str_eq y x then rest else y ∷ rest

pub member-append :
    (x : String) (s r : List String) → member x (s ++ r) ≡ (member x s || member x r)
unfolding member
member-append x [] r = refl
member-append x (y ∷ s) r = ground (arith, member-append x s r)

pub member-add : (x y : String) (s : List String) → member x (add y s) ≡ (str_eq y x || member x s)
unfolding member
member-add x y s = ground (arith, member-append x s (y ∷ []), eq_iff y x)

pub member-remove :
    (x y : String) (s : List String) → member x (remove y s) ≡ (not (str_eq y x) && member x s)
unfolding member remove
member-remove x y [] = ground arith
member-remove x y (z ∷ s) = ground (arith, member-remove x y s, eq_iff z x, eq_iff z y, eq_iff y x)

-- No element twice.
abbrev pub is_distinct : List String → Bool
is_distinct [] = true
is_distinct (x ∷ xs) = not (member x xs) && is_distinct xs

is_distinct-snoc :
    (x : String) (s : List String)
    → member x s ≡ false
    → is_distinct s ≡ true
    → is_distinct (s ++ x ∷ []) ≡ true
unfolding member
is_distinct-snoc x [] h d = refl
is_distinct-snoc x (y ∷ s) h d =
    ground (arith, is_distinct-snoc x s, member-append y s (x ∷ []), eq_iff y x, eq_iff x y)

pub is_distinct-add :
    (x : String) (s : List String) → is_distinct s ≡ true → is_distinct (add x s) ≡ true
is_distinct-add x s d = ground (arith, is_distinct-snoc x s)

pub is_distinct-remove :
    (x : String) (s : List String) → is_distinct s ≡ true → is_distinct (remove x s) ≡ true
unfolding remove
is_distinct-remove x [] d = refl
is_distinct-remove x (y ∷ s) d = ground (arith, is_distinct-remove x s, member-remove y x s)
