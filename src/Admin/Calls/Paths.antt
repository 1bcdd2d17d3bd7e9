-- ===== src/Admin/Calls/Paths.antt =====
-- A path read back into its segments.
use Prim.Native.String.{◌++◌}
use Prim.Native.Char.{Char, code}
use package.text.Mathlib.TextLemmas.{nil-append, cons-append}
use mansariya.Base.{
  String, Bool, true, false, ◌&&◌, not, ◌==◌, List, [], ◌∷◌, All, Bool-cases, inl, inr, ◌≡◌, refl,
  ap, ◌∙◌, arith,
}
use mansariya.Admin.Calls.{path_text}

abbrev pub is_slash : Char → Bool
is_slash c = code c == 47

-- A text without a slash.
unfoldable pub is_plain : String → Bool
is_plain String.[] = true
is_plain (String.◌∷◌ c s) = not (is_slash c) && is_plain s

abbrev put_char : Bool → Char → String × List String → String × List String
put_char true c (word, words) = ("", word ∷ words)
put_char false c (word, words) = (String.◌∷◌ c word, words)

-- The words between the slashes of a text.
pub split : String → String × List String
split String.[] = ("", [])
split (String.◌∷◌ c s) = put_char (is_slash c) c (split s)

abbrev pub AllPlain : List String → Type 0
AllPlain = All (λ (s : String). is_plain s ≡ true)

split-append :
    (s : String) (rest : List String)
    → is_plain s ≡ true
    → split (path_text rest) ≡ ("", rest)
    → split (s ++ path_text rest) ≡ (s, rest)
unfolding split is_plain
split-append String.[] rest _ e = rw (nil-append (path_text rest)) e
split-append (String.◌∷◌ c s) rest p e = elim (Bool-cases (is_slash c)) [
  | inl slash ↦ absurd (ground (arith, slash))
  | inr other ↦
      rw (cons-append c s (path_text rest), other, split-append s rest (ground (arith, other)) e)
]

pub slash-append : (s : String) → "/" ++ s ≡ String.◌∷◌ "/" s
slash-append s = cons-append "/" "" s ∙ ap (String.◌∷◌ "/") (nil-append s)

pub split-path_text :
    (segments : List String) → AllPlain segments → split (path_text segments) ≡ ("", segments)
unfolding split path_text
split-path_text [] _ = refl
split-path_text (s ∷ rest) (p, ps) =
    rw (slash-append (s ++ path_text rest))
      (ap (put_char true "/") (split-append s rest p (split-path_text rest ps)))
