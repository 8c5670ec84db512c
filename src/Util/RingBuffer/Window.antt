-- ===== src/Util/RingBuffer/Window.antt =====
-- The elements of a ring as a list, oldest first, and what a write or a new start does to them.
use cppnet.Prelude.{
  ℕ, List, [], length, ◌%◌, ◌+◌, ◌<◌, ◌∷◌, ◌≡◌, ◌≤◌, ap, arith, set, sym, ◌-◌, ◌∙◌, ◌≢◌, length-set,
  ◌++◌,
}
use cppnet.Prelude.Memory.{read, done, read-set_ne}
use native.Mathlib.Nat.{mod-eq_of_lt, mod-eq-sub-mod, mod-add-mod, mod-lt}
use native.Mathlib.Decide.{dec_lt}
use cppnet.Util.RingBuffer.{RingBuffer}

pub record IsValid {ℓ} {T : Type ℓ} (r : RingBuffer T) : Type 0 where
  pub room : 0 < length r.values
  pub begin_in : r.begin < length r.values
  pub size_in : r.current_size ≤ length r.values

-- `Holds r q`: the elements of `r`, oldest first, are `q`.
abbrev pub HoldsFrom {ℓ} : {T : Type ℓ} → List T → ℕ → List T → Type ℓ
HoldsFrom vs i [] = Unit
HoldsFrom vs i (x ∷ q) = (read vs (i % length vs) ≡ done x) × HoldsFrom vs (i + 1) q

pub record Holds {ℓ} {T : Type ℓ} (r : RingBuffer T) (q : List T) : Type ℓ where
  pub valid : IsValid r
  pub count : length q ≡ r.current_size
  pub elements : HoldsFrom r.values r.begin q

-- Two positions less than one round apart are different places.
pub mod-ne : (N i k : ℕ) → 0 < N → i < k → k < i + N → i % N ≢ k % N
mod-ne N i k pos lo hi =
    let r = i % N in
    let d = k - i in
    let shifted : k % N ≡ (r + d) % N = ap (λ t. t % N) (omega arith) ∙ sym (mod-add-mod i N d) in
    let small : r < N = mod-lt i pos in
    elim (dec_lt (r + d) N) [
      | yes p ↦ omega (arith, shifted, mod-eq_of_lt p)
      | no p ↦ omega (
        arith,
        shifted,
        small,
        mod-eq-sub-mod {n = r + d} {m = N} (omega arith),
        mod-eq_of_lt {n = r + d - N} {m = N} (omega arith),
      )
    ]

module _ {ℓ} {T : Type ℓ} where
  pub HoldsFrom-mod :
      (vs : List T) (i j : ℕ) (q : List T)
      → i % length vs ≡ j % length vs
      → HoldsFrom vs i q
      → HoldsFrom vs j q
  HoldsFrom-mod vs i j [] e h = tt
  HoldsFrom-mod vs i j (x ∷ q) e (h, hs) = (rw (← e) h, HoldsFrom-mod vs (i + 1) (j + 1) q next hs)
    where
      next : (i + 1) % length vs ≡ (j + 1) % length vs
      next =
          sym (mod-add-mod i (length vs) 1)
          ∙ ap (λ t. (t + 1) % length vs) e
          ∙ mod-add-mod j (length vs) 1

  -- A write outside the window keeps it.
  pub HoldsFrom-set :
      (vs : List T) (i k : ℕ) (v : T) (q : List T)
      → i + length q ≤ k
      → k < i + length vs
      → HoldsFrom vs i q
      → HoldsFrom (set vs (k % length vs) v) i q
  HoldsFrom-set vs i k v [] lo hi h = tt
  HoldsFrom-set vs i k v (x ∷ q) lo hi (h, hs) = (
    rw (length-set vs (k % length vs) v)
        (read-set_ne vs (k % length vs) (i % length vs) v apart ∙ h),
    HoldsFrom-set vs (i + 1) k v q (omega arith) (omega arith) hs,
  )
    where
      apart : k % length vs ≢ i % length vs
      apart e = mod-ne (length vs) i k (omega arith) (omega arith) hi (sym e)

  pub HoldsFrom-snoc :
      (vs : List T) (i k : ℕ) (q : List T) (v : T)
      → k ≡ i + length q
      → HoldsFrom vs i q
      → read vs (k % length vs) ≡ done v
      → HoldsFrom vs i (q ++ (v ∷ []))
  HoldsFrom-snoc vs i k [] v e h hv = (rw (← same) hv, tt)
    where
      same : k ≡ i
      same = omega arith
  HoldsFrom-snoc vs i k (x ∷ q) v e (h, hs) hv =
      (h, HoldsFrom-snoc vs (i + 1) k q v (omega arith) hs hv)
