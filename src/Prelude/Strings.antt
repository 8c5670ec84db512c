-- ===== src/Prelude/Strings.antt =====
-- The searches of `std::string_view` on lists of chars: `find`, `find_first_of`, `starts_with`.
use Prim.Native.Nat.{ℕ, suc, ◌+◌, ◌≤◌}
use mathlib.Core.Path.{◌≡◌, refl, ap, ap₂, ◌∙◌}
use mathlib.Core.Bool.{Bool, true, false, not, ◌||◌, ◌&&◌}
use mathlib.Core.Logic.{◌⊎◌, inl, inr}
use mathlib.Core.List.{List, [], ◌∷◌, ◌++◌}
use mathlib.Core.Option.{Option, none, some}
use native.Mathlib.Omega.{arith}
use cppnet.Prelude.Lists.{length, drop, All, drop-append}
use cppnet.Prelude.Tests.{if◌then◌else◌, ◌==◌, ==_refl, ==_iff, Bool-cases}

-- The index of the first char that passes the test.
abbrev pub position {ℓ} : {A : Type ℓ} → (A → Bool) → List A → Option ℕ
position test [] = none
position test (x ∷ xs) =
    let rest = position test xs in
    if test x then some 0 else (elim rest [ some i ↦ some (suc i) | none ↦ none ])

-- The same, from the index `i` on.
abbrev pub find_from {ℓ} : {A : Type ℓ} → (A → Bool) → List A → ℕ → Option ℕ
find_from test xs i = elim (position test (drop i xs)) [ some k ↦ some (i + k) | none ↦ none ]

abbrev pub one_of : List ℕ → ℕ → Bool
one_of [] x = false
one_of (c ∷ cs) x = (x == c) || one_of cs x

abbrev pub starts_with : List ℕ → List ℕ → Bool
starts_with xs [] = true
starts_with [] (p ∷ ps) = false
starts_with (x ∷ xs) (p ∷ ps) = (x == p) && starts_with xs ps

-- No element passes the test.
abbrev pub Misses {ℓ} : {A : Type ℓ} → (A → Bool) → List A → Type 0
Misses test xs = All (λ x. test x ≡ false) xs

module _ {ℓ} {A : Type ℓ} (test : A → Bool) where
  pub position-none : (xs : List A) → Misses test xs → position test xs ≡ none
  position-none [] h = refl
  position-none (x ∷ xs) (hx, hs) = rw (hx, position-none xs hs) refl

  pub position-some :
      (xs : List A) (x : A) (ys : List A)
      → Misses test xs
      → test x ≡ true
      → position test (xs ++ (x ∷ ys)) ≡ some (length xs)
  position-some [] x ys h hx = rw hx refl
  position-some (y ∷ xs) x ys (hy, hs) hx = rw (hy, position-some xs x ys hs hx) refl

  -- Where the first element that passes stands, if there is one.
  abbrev pub Found : List A → Type ℓ
  Found xs =
      (before : List A) × (x : A) × (after : List A) × (xs ≡ before ++ (x ∷ after))
      × Misses test before
      × (test x ≡ true)

  pub search_cases : (xs : List A) → Misses test xs ⊎ Found xs
  search_cases [] = inl tt
  search_cases (x ∷ xs) = elim (Bool-cases (test x)) [
    | inl h ↦ inr ([], x, xs, refl, tt, h)
    | inr h ↦ elim (search_cases xs) [
      | inl hs ↦ inl (h, hs)
      | inr (before, y, after, e, hs, hy) ↦
          inr (x ∷ before, y, after, ap (λ t. x ∷ t) e, (h, hs), hy)
    ]
  ]

  -- `find` behind a known prefix.
  pub find_from-none :
      (past xs : List A) (i : ℕ)
      → i ≡ length past
      → Misses test xs
      → find_from test (past ++ xs) i ≡ none
  find_from-none past xs i hi h =
      ap (λ o. elim o [ some k ↦ some (i + k) | none ↦ none ])
        (ap (position test) (drop-append past xs i hi) ∙ position-none xs h)

  pub find_from-some :
      (past xs : List A) (x : A) (ys : List A) (i : ℕ)
      → i ≡ length past
      → Misses test xs
      → test x ≡ true
      → find_from test (past ++ (xs ++ (x ∷ ys))) i ≡ some (i + length xs)
  find_from-some past xs x ys i hi h hx =
      ap (λ o. elim o [ some k ↦ some (i + k) | none ↦ none ])
        (ap (position test) (drop-append past (xs ++ (x ∷ ys)) i hi) ∙ position-some xs x ys h hx)

pub starts_with-append : (ps xs : List ℕ) → starts_with (ps ++ xs) ps ≡ true
starts_with-append [] [] = refl
starts_with-append [] (x ∷ xs) = refl
starts_with-append (p ∷ ps) xs = rw (==_refl p) (starts_with-append ps xs)

module _ where
  head_same : (x p : ℕ) (b : Bool) → ((x == p) && b) ≡ true → (x ≡ p) × (b ≡ true)
  head_same x p b h = elim (Bool-cases (x == p)) [
    | inl e ↦ ((==_iff x p).0 e, (rw e at h))
    | inr e ↦ absurd (ground (arith, rw e at h))
  ]

pub starts_with_split : (xs ps : List ℕ) → starts_with xs ps ≡ true → xs ≡ ps ++ drop (length ps) xs
starts_with_split [] [] h = refl
starts_with_split (x ∷ xs) [] h = refl
starts_with_split [] (p ∷ ps) h = ground arith
starts_with_split (x ∷ xs) (p ∷ ps) h =
    let same = head_same x p (starts_with xs ps) h in
    ap₂ (λ y t. y ∷ t) same.0 (starts_with_split xs ps same.1)

pub starts_with-length : (xs ps : List ℕ) → starts_with xs ps ≡ true → length ps ≤ length xs
starts_with-length [] [] h = omega arith
starts_with-length (x ∷ xs) [] h = omega arith
starts_with-length [] (p ∷ ps) h = ground arith
starts_with-length (x ∷ xs) (p ∷ ps) h =
    let same = head_same x p (starts_with xs ps) h in omega (arith, starts_with-length xs ps same.1)

-- Equality of two strings.
abbrev pub same_string : List ℕ → List ℕ → Bool
same_string [] [] = true
same_string (x ∷ xs) (y ∷ ys) = (x == y) && same_string xs ys
same_string xs ys = false

pub same_string_refl : (s : List ℕ) → same_string s s ≡ true
same_string_refl [] = refl
same_string_refl (x ∷ s) = rw (==_refl x) (same_string_refl s)

pub same_string_sound : (s t : List ℕ) → same_string s t ≡ true → s ≡ t
same_string_sound [] [] h = refl
same_string_sound [] (y ∷ t) h = cc (h)
same_string_sound (x ∷ s) [] h = cc (h)
same_string_sound (x ∷ s) (y ∷ t) h = elim (Bool-cases (x == y)) [
  | inl e ↦ ap₂ (λ a b. a ∷ b) ((==_iff x y).0 e) (same_string_sound s t (rw e at (h)))
  | inr e ↦ absurd (ground (arith, e, h))
]

-- Whether no char passes the test.
abbrev pub misses : (ℕ → Bool) → List ℕ → Bool
misses test [] = true
misses test (c ∷ cs) = not (test c) && misses test cs

pub misses_sound : (test : ℕ → Bool) (cs : List ℕ) → misses test cs ≡ true → Misses test cs
misses_sound test [] h = tt
misses_sound test (c ∷ cs) h = elim (Bool-cases (test c)) [
  | inl e ↦ absurd (ground (arith, e, h))
  | inr e ↦ (e, misses_sound test cs (rw e at (h)))
]
