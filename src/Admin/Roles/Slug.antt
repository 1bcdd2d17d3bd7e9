-- ===== src/Admin/Roles/Slug.antt =====
-- admin/src/pages/roles.tsx: slugs. A text is the list of its code units; `toLowerCase` is a
-- parameter.
use mansariya.Base.{
  ℕ, Bool, true, false, ◌&&◌, ◌||◌, not, List, [], ◌∷◌, ◌≡◌, refl, sym, ap, ◌∙◌, arith, leb, ◌==◌,
  select, if◌then◌else◌,
}

abbrev pub Text : Type 0
Text = List ℕ

abbrev pub between : ℕ → ℕ → ℕ → Bool
between low high c = leb low c && leb c high

-- `[a-z0-9]`
abbrev pub is_alnum : ℕ → Bool
is_alnum c = between 97 122 c || between 48 57 c

abbrev pub hyphen : ℕ
hyphen = 45

-- `replace(/[^a-z0-9]+/g, "-")`; the test says whether the scan is inside of a match.
unfoldable pub hyphenate : Bool → Text → Text
hyphenate inside [] = []
hyphenate inside (c ∷ cs) =
    let kept = hyphenate false cs in
    let rest = hyphenate true cs in
    if is_alnum c then c ∷ kept else if inside then rest else hyphen ∷ rest

-- `replace(/^-+|-+$/g, "")`, from its two ends.
unfoldable pub trim_start : Text → Text
trim_start [] = []
trim_start (c ∷ cs) = let rest = trim_start cs in if c == hyphen then rest else c ∷ cs

abbrev pub unless_last : ℕ → Text → Text
unless_last c [] = if c == hyphen then [] else c ∷ []
unless_last c (d ∷ rest) = c ∷ d ∷ rest

unfoldable pub trim_end : Text → Text
trim_end [] = []
trim_end (c ∷ cs) = unless_last c (trim_end cs)

-- `value.toLowerCase().replace(/[^a-z0-9-_]/g, "")`
abbrev pub is_slug_char : ℕ → Bool
is_slug_char c = is_alnum c || c == hyphen || c == 95

module _ (to_lower_case : Text → Text) where
  unfoldable pub name_to_slug : Text → Text
  name_to_slug name = trim_end (trim_start (hyphenate false (to_lower_case name)))

  abbrev pub clean : Text → Text
  clean value = select is_slug_char (to_lower_case value)

-- Words of letters and digits, joined by single hyphens: `[a-z0-9]+(-[a-z0-9]+)*`. The test says
-- that a word must begin here.
unfoldable pub words : Bool → Text → Bool
words begins [] = not begins
words begins (c ∷ cs) =
    let inner = words false cs in
    let next = words true cs in if is_alnum c then inner else (c == hyphen) && not begins && next

abbrev pub is_slug : Text → Bool
is_slug [] = true
is_slug (c ∷ cs) = words true (c ∷ cs)

-- No two hyphens side by side, and nothing but letters, digits and hyphens.
loose : Bool → Text → Bool
loose after [] = true
loose after (c ∷ cs) =
    let inner = loose false cs in
    let next = loose true cs in if is_alnum c then inner else (c == hyphen) && not after && next

hyphenate-loose : (inside : Bool) (cs : Text) → loose inside (hyphenate inside cs) ≡ true
unfolding hyphenate loose
hyphenate-loose inside [] = refl
hyphenate-loose inside (c ∷ cs) = ground (arith, hyphenate-loose false cs, hyphenate-loose true cs)

trim_start-stays : (cs : Text) → loose true cs ≡ true → trim_start cs ≡ cs
unfolding trim_start loose
trim_start-stays [] h = refl
trim_start-stays (c ∷ cs) h = ground arith

trim_start-loose : (cs : Text) → loose false cs ≡ true → loose true (trim_start cs) ≡ true
unfolding trim_start loose
trim_start-loose [] h = refl
trim_start-loose (c ∷ cs) h = ground (arith, trim_start-stays cs)

empty_or_words : Bool → Text → Bool
unfolding words
empty_or_words begins [] = true
empty_or_words begins (c ∷ cs) = words begins (c ∷ cs)

unless_last-words :
    (after : Bool) (c : ℕ) (rest : Text)
    → (if is_alnum c
        then empty_or_words false rest
        else (c == hyphen) && not after && empty_or_words true rest)
      ≡ true
    → empty_or_words after (unless_last c rest) ≡ true
unfolding words empty_or_words
unless_last-words after c [] h = ground arith
unless_last-words after c (d ∷ rest) h = ground arith

trim_end-words :
    (after : Bool) (cs : Text) → loose after cs ≡ true → empty_or_words after (trim_end cs) ≡ true
unfolding trim_end loose empty_or_words
trim_end-words after [] h = refl
trim_end-words after (c ∷ cs) h =
    unless_last-words after c (trim_end cs)
      (ground (arith, trim_end-words false cs, trim_end-words true cs))

is_slug-words : (cs : Text) → empty_or_words true cs ≡ is_slug cs
unfolding words empty_or_words
is_slug-words [] = refl
is_slug-words (c ∷ cs) = refl

-- Whatever the name, its slug is empty or is made of words of letters and digits joined by single
-- hyphens.
pub name_to_slug-is_slug :
    (to_lower_case : Text → Text) (name : Text) → is_slug (name_to_slug to_lower_case name) ≡ true
unfolding name_to_slug
name_to_slug-is_slug to_lower_case name =
    let cs = hyphenate false (to_lower_case name) in
    sym (is_slug-words (trim_end (trim_start cs)))
    ∙ trim_end-words true (trim_start cs)
        (trim_start-loose cs (hyphenate-loose false (to_lower_case name)))

-- A slug stays as it is.
hyphenate-words : (begins : Bool) (cs : Text) → words begins cs ≡ true → hyphenate begins cs ≡ cs
unfolding words hyphenate
hyphenate-words begins [] h = refl
hyphenate-words begins (c ∷ cs) h =
    ground (arith, hyphenate-words false cs, hyphenate-words true cs)

words-loose : (begins : Bool) (cs : Text) → words begins cs ≡ true → loose begins cs ≡ true
unfolding words loose
words-loose begins [] h = refl
words-loose begins (c ∷ cs) h = ground (arith, words-loose false cs, words-loose true cs)

words-nonempty : (c : ℕ) (cs : Text) → words true cs ≡ true → unless_last c cs ≡ c ∷ cs
unfolding words
words-nonempty c [] h = ground arith
words-nonempty c (d ∷ cs) h = refl

words-alnum : (c : ℕ) (cs : Text) → is_alnum c ≡ true → unless_last c cs ≡ c ∷ cs
words-alnum c [] h = ground arith
words-alnum c (d ∷ cs) h = refl

trim_end-stays : (begins : Bool) (cs : Text) → words begins cs ≡ true → trim_end cs ≡ cs
unfolding trim_end words
trim_end-stays begins [] h = refl
trim_end-stays begins (c ∷ cs) h =
    ground (
      arith,
      trim_end-stays false cs,
      trim_end-stays true cs,
      words-nonempty c cs,
      words-alnum c cs,
    )

hyphenate-slug :
    (c : ℕ) (cs : Text) → words true (c ∷ cs) ≡ true → hyphenate false (c ∷ cs) ≡ c ∷ cs
unfolding hyphenate words
hyphenate-slug c cs h = ground (arith, hyphenate-words false cs)

slug_stays : (cs : Text) → is_slug cs ≡ true → trim_end (trim_start (hyphenate false cs)) ≡ cs
unfolding trim_start trim_end hyphenate
slug_stays [] h = refl
slug_stays (c ∷ cs) h =
    ap (λ r. trim_end (trim_start r)) (hyphenate-slug c cs h)
    ∙ ap trim_end (trim_start-stays (c ∷ cs) (words-loose true (c ∷ cs) h))
    ∙ trim_end-stays true (c ∷ cs) h

-- Where `toLowerCase` leaves a slug as it is, the slug of a slug is the slug itself.
pub name_to_slug-idempotent :
    (to_lower_case : Text → Text) (name : Text)
    → to_lower_case (name_to_slug to_lower_case name) ≡ name_to_slug to_lower_case name
    → name_to_slug to_lower_case (name_to_slug to_lower_case name) ≡ name_to_slug to_lower_case name
unfolding name_to_slug
name_to_slug-idempotent to_lower_case name lower =
    ap (λ cs. trim_end (trim_start (hyphenate false cs))) lower
    ∙ slug_stays _ (name_to_slug-is_slug to_lower_case name)
