-- ===== src/Admin/Timetables/Tests.antt =====
-- Examples of admin/src/pages/timetables.tsx.
use mansariya.Base.{
  ℕ, zero, suc, ◌<◌, String, false, [], ◌∷◌, ◌≡◌, refl, arith, str_eq, eq_iff, Bool-cases, inl, inr,
  ap, sym, ◌∙◌,
}
use mansariya.Base.Texts.{text_length}
use mansariya.Admin.Timetables.{Form, run, chosen, added, removed, toggled}
use mansariya.Admin.Timetables.Laws.{Keyed, Fresh, run-Keyed}

-- Draws that are told apart by their lengths.
abbrev uuid : ℕ → String
uuid zero = ""
uuid (suc n) = String.◌∷◌ "x" (uuid n)

length-uuid : (n : ℕ) → text_length (uuid n) ≡ n
unfolding text_length
length-uuid zero = refl
length-uuid (suc n) = ap suc (length-uuid n)

uuid-distinct : (m n : ℕ) → m < n → str_eq (uuid m) (uuid n) ≡ false
uuid-distinct m n h = elim (Bool-cases (str_eq (uuid m) (uuid n))) [
  | inl same ↦
      let e =
        sym (length-uuid m) ∙ ap text_length ((eq_iff (uuid m) (uuid n)).0 same) ∙ length-uuid n in
      absurd (omega (arith, e, h))
  | inr other ↦ other
]

abbrev empty : Form
empty = record { selected_route = ""; entries = []; drawn = 0 }

run-Keyed_example :
    Keyed uuid (run uuid (chosen "138" ∷ added ∷ toggled "xk" "SAT" ∷ removed "k" ∷ []) empty)
unfolding Keyed Fresh
run-Keyed_example =
    run-Keyed uuid uuid-distinct (chosen "138" ∷ added ∷ toggled "xk" "SAT" ∷ removed "k" ∷ [])
      empty tt
