-- ===== src/Prelude/Memory.antt =====
-- Computations that read and write memory: `fault` stands for an access outside the bytes that the
-- caller owns, which C++ leaves undefined.
use Prim.Native.Nat.{ℕ, zero, suc, ◌+◌, ◌<◌}
use mathlib.Core.Path.{◌≡◌, refl, ap}
use mathlib.Core.Logic.{◌≢◌}
use mathlib.Core.Option.{Option, none, some}
use mathlib.Core.List.{List, [], ◌∷◌, ◌++◌}
use native.Mathlib.Omega.{arith}
use cppnet.Prelude.Lists.{
  length, get_elem?, set, get_elem?-append, set-append, length-append, get_elem?-set_self,
  get_elem?-set_ne,
}
use cppnet.Prelude.Tests.{ltb, if◌then◌else◌}

pub data Run {ℓ} (A : Type ℓ) : Type ℓ where
  done : A → Run A
  fault : Run A

infixl 5 ◌>>=◌ ◌>>◌
abbrev pub ◌>>=◌ {ℓ κ} : {A : Type ℓ} {B : Type κ} → Run A → (A → Run B) → Run B
done a >>= f = f a
fault >>= f = fault

abbrev pub ◌>>◌ {ℓ κ} : {A : Type ℓ} {B : Type κ} → Run A → Run B → Run B
m >> k = m >>= λ _. k

-- To go on with what a loop or a call has ended with.
infixl 5 ◌>>?◌
abbrev pub ◌>>?◌ {ℓ κ} :
    {A : Type ℓ} {B : Type κ} → Run (Option A) → (A → Run (Option B)) → Run (Option B)
m >>? f = m >>= λ o. elim o [ none ↦ done none | some a ↦ f a ]

pub done-injective {ℓ} : {A : Type ℓ} (a b : A) → done a ≡ done b → a ≡ b
done-injective a b h = cc

pub >>=-done {ℓ κ ι} :
    {A : Type ℓ} {B : Type κ} {C : Type ι} (r : Run A) (b : B) (f : B → Run C)
    → ((r >>= λ _. done b) >>= f) ≡ (r >>= λ _. f b)
>>=-done (done x) b f = refl
>>=-done fault b f = refl

module _ {ℓ} {A : Type ℓ} where
  -- `xs[i]`
  abbrev pub read : List A → ℕ → Run A
  read xs i = elim (get_elem? xs i) [ some x ↦ done x | none ↦ fault ]

  -- `xs[i] = v`
  abbrev pub write : List A → ℕ → A → Run (List A)
  write xs i v = if ltb i (length xs) then done (set xs i v) else fault

  -- A read behind a known prefix.
  pub read-behind : (xs ys : List A) (i j : ℕ) → i ≡ length xs + j → read (xs ++ ys) i ≡ read ys j
  read-behind xs ys i j h =
      ap (λ o. elim o [ some x ↦ done x | none ↦ fault ]) (get_elem?-append xs ys i j h)

  -- A read of the element that a known prefix ends before.
  pub read-append :
      (xs : List A) (y : A) (ys : List A) (i : ℕ) → i ≡ length xs → read (xs ++ (y ∷ ys)) i ≡ done y
  read-append xs y ys i h =
      ap (λ o. elim o [ some x ↦ done x | none ↦ fault ])
        (get_elem?-append xs (y ∷ ys) i 0 (omega arith))

  -- A write behind a known prefix.
  pub write-append :
      (xs ys : List A) (i j : ℕ) (v : A)
      → i ≡ length xs + j
      → j < length ys
      → write (xs ++ ys) i v ≡ done (xs ++ set ys j v)
  write-append xs ys i j v e h = ground (arith, length-append xs ys, set-append xs ys i j v e)

  pub read-set_self : (xs : List A) (i : ℕ) (v : A) → i < length xs → read (set xs i v) i ≡ done v
  read-set_self xs i v h = ground (arith, get_elem?-set_self xs i v h)

  pub read-set_ne : (xs : List A) (i j : ℕ) (v : A) → i ≢ j → read (set xs i v) j ≡ read xs j
  read-set_ne xs i j v h = ground (arith, get_elem?-set_ne xs i j v h)

  -- A read inside the bounds succeeds.
  pub read_total : (xs : List A) (i : ℕ) → i < length xs → (x : A) × (read xs i ≡ done x)
  read_total [] i h = absurd (omega arith)
  read_total (x ∷ xs) zero h = (x, refl)
  read_total (x ∷ xs) (suc i) h = read_total xs i (omega arith)
