-- ===== src/Http/Headers/Map.antt =====
-- The headers as a map from keys without case to lists of values.

use cppnet.Prelude.{
  ℕ, ◌≡◌, Bool-cases, List, Option, [], ap, ap₂, if◌then◌else◌, inl, inr, map, none, refl, some,
  sym, true, ◌&&◌, ◌++◌, ◌==◌, ◌∙◌, ◌∷◌, All, false,
}
use cppnet.Prelude.Strings.{same_string, same_string_refl, same_string_sound}
use cppnet.Util.StringUtil.{equal_ignore_case, to_lower}
use cppnet.Http.Headers.{Headers, set_values, set_value, add_value, get_all}

-- Two keys are compared in lower case.
pub equal_ignore_case-to_lower :
    (s t : List ℕ) → equal_ignore_case s t ≡ same_string (map to_lower s) (map to_lower t)
unfolding equal_ignore_case
equal_ignore_case-to_lower [] [] = refl
equal_ignore_case-to_lower [] (y ∷ t) = refl
equal_ignore_case-to_lower (x ∷ s) [] = refl
equal_ignore_case-to_lower (x ∷ s) (y ∷ t) =
    ap (λ b. (to_lower x == to_lower y) && b) (equal_ignore_case-to_lower s t)

equal_ignore_case-same :
    (s t : List ℕ) → equal_ignore_case s t ≡ true → map to_lower s ≡ map to_lower t
equal_ignore_case-same s t h =
    same_string_sound (map to_lower s) (map to_lower t) (sym (equal_ignore_case-to_lower s t) ∙ h)

-- What is equal to one of two equal keys is equal to the other.
pub equal_ignore_case-right :
    (key s t : List ℕ)
    → equal_ignore_case s t ≡ true
    → equal_ignore_case key s ≡ equal_ignore_case key t
equal_ignore_case-right key s t h =
    equal_ignore_case-to_lower key s
    ∙ ap (same_string (map to_lower key)) (equal_ignore_case-same s t h)
    ∙ sym (equal_ignore_case-to_lower key t)

equal_ignore_case-joined :
    (key s t : List ℕ)
    → equal_ignore_case key s ≡ true
    → equal_ignore_case key t ≡ true
    → equal_ignore_case s t ≡ true
equal_ignore_case-joined key s t h k =
    equal_ignore_case-to_lower s t
    ∙ ap₂ same_string (sym (equal_ignore_case-same key s h)) (sym (equal_ignore_case-same key t k))
    ∙ same_string_refl (map to_lower key)

abbrev pub values_or_none : Option (List (List ℕ)) → List (List ℕ)
values_or_none none = []
values_or_none (some vals) = vals

-- After add, a key that is equal to the added one without case has the values of that key and
-- the new value behind them, and any other key has the values it had.
pub get_all-add_value :
    (key key' val : List ℕ) (m : Headers)
    → get_all key' (add_value key val m) ≡ (
        if equal_ignore_case key' key
        then some (values_or_none (get_all key m) ++ (val ∷ []))
        else get_all key' m)
unfolding get_all add_value
get_all-add_value key key' val [] = refl
get_all-add_value key key' val (e ∷ m) = elim (Bool-cases (equal_ignore_case key e.0)) [
  | inl same ↦
      let right = equal_ignore_case-right key' key e.0 same in
      elim (Bool-cases (equal_ignore_case key' e.0)) [
        | inl h ↦ rw (same, right, h) refl
        | inr h ↦ rw (same, right, h) refl
      ]
  | inr other ↦ elim (Bool-cases (equal_ignore_case key' e.0)) [
    | inl h ↦ elim (Bool-cases (equal_ignore_case key' key)) [
      | inl k ↦ absurd (cc (other, equal_ignore_case-joined key' key e.0 k h))
      | inr k ↦ rw (other, h, k) refl
    ]
    | inr h ↦ rw (other, h) (get_all-add_value key key' val m)
  ]
]

-- After set, a key that is equal to the set one without case has the new value only, and any other
-- key has the values it had.
pub get_all-set_value :
    (key key' val : List ℕ) (m : Headers)
    → get_all key' (set_value key val m)
      ≡ (if equal_ignore_case key' key then some (val ∷ []) else get_all key' m)
unfolding get_all set_value set_values
get_all-set_value key key' val [] = refl
get_all-set_value key key' val (e ∷ m) = elim (Bool-cases (equal_ignore_case key e.0)) [
  | inl same ↦
      let right = equal_ignore_case-right key' key e.0 same in
      elim (Bool-cases (equal_ignore_case key' e.0)) [
        | inl h ↦ rw (same, right, h) refl
        | inr h ↦ rw (same, right, h) refl
      ]
  | inr other ↦ elim (Bool-cases (equal_ignore_case key' e.0)) [
    | inl h ↦ elim (Bool-cases (equal_ignore_case key' key)) [
      | inl k ↦ absurd (cc (other, equal_ignore_case-joined key' key e.0 k h))
      | inr k ↦ rw (other, h, k) refl
    ]
    | inr h ↦ rw (other, h) (get_all-set_value key key' val m)
  ]
]

-- No entry has the key.
abbrev pub IsNew : List ℕ → Headers → Type 0
IsNew key headers = All (λ e. equal_ignore_case key e.0 ≡ false) headers

pub add_value-IsNew :
    (key val : List ℕ) (headers : Headers)
    → IsNew key headers
    → add_value key val headers ≡ headers ++ ((key, val ∷ []) ∷ [])
unfolding add_value
add_value-IsNew key val [] h = refl
add_value-IsNew key val (e ∷ headers) h =
    rw h.0 (ap (λ t. e ∷ t) (add_value-IsNew key val headers h.1))
