-- ===== src/Http/Status/Text.antt =====
-- The text of a status, and the class of a status.

use cppnet.Prelude.{
  ℕ, ◌≡◌, Bool, Bool-cases, List, [], false, if◌then◌else◌, inl, inr, ◌==◌, ◌||◌, ◌∙◌, ◌∷◌, ==_iff,
  arith, refl, sym,
}
use cppnet.Http.Status.{Status, no_status, status_cases, case_text, status_text, parse_status}

-- Whether a status is a case of `status_text`.
abbrev pub has_text : Status → List (Status × List ℕ) → Bool
has_text s [] = false
has_text s (e ∷ cases) = s == e.0 || has_text s cases

-- A list of cases whose texts start with their codes.
abbrev Coded : List (Status × List ℕ) → Type 0
Coded [] = Unit
Coded (e ∷ cases) = (parse_status e.1 ≡ e.0) × Coded cases

coded : Coded status_cases
unfolding parse_status
coded = omega arith

case_text-code :
    (s : Status) (cases : List (Status × List ℕ))
    → Coded cases
    → parse_status (case_text s cases) ≡ (if has_text s cases then s else no_status)
unfolding parse_status
case_text-code s [] h = refl
case_text-code s (e ∷ cases) h = elim (Bool-cases (s == e.0)) [
  | inl same ↦ rw same (h.0 ∙ sym ((==_iff s e.0).0 same))
  | inr other ↦ rw other (case_text-code s cases h.1)
]

-- parse_status reads a status back from its text, and reads the text of an unknown one as none.
pub parse_status-status_text :
    (s : Status) → parse_status (status_text s) ≡ (if has_text s status_cases then s else no_status)
unfolding status_text
parse_status-status_text s = case_text-code s status_cases coded
