-- ===== src/Instrument/Prometheus/Histogram/Observe.antt =====
-- What `observe` counts.

use cppnet.Prelude.{
  sym, ℕ, List, Bool, [], ◌∷◌, ◌+◌, ◌%◌, ◌^◌, ◌≡◌, if◌then◌else◌, map, true, false, ◌||◌, ◌&&◌, not,
  refl, ap, Bool-cases, inl, inr, ◌∙◌,
}
use cppnet.Instrument.Prometheus.Histogram.{Histogram, observe, Doubles, add_from, add_behind}

-- The laws of `<` without `NaN`.
pub record IsOrder {D : Type 0} (doubles : Doubles D) : Type 0 where
  pub less_trans :
      (a b c : D) → doubles.less a b ≡ true → doubles.less b c ≡ true → doubles.less a c ≡ true
  pub less_asym : (a b : D) → doubles.less a b ≡ true → doubles.less b a ≡ false

module _ {D : Type 0} (doubles : Doubles D) where
  -- The bounds rise.
  abbrev pub IsRising : List (D × ℕ) → Type 0
  IsRising [] = Unit
  IsRising (b ∷ []) = Unit
  IsRising (b ∷ c ∷ buckets) = (doubles.less b.0 c.0 ≡ true) × IsRising (c ∷ buckets)

  -- Whether a value is neither below nor above a bound.
  abbrev pub at_bound : D → List (D × ℕ) → Bool
  at_bound v [] = false
  at_bound v (b ∷ buckets) =
      (not (doubles.less v b.0) && not (doubles.less b.0 v)) || at_bound v buckets

  -- One more in a bucket whose bound is above the value.
  abbrev pub one_more_above : D → D × ℕ → D × ℕ
  one_more_above v b = if doubles.less v b.0 then (b.0, (b.1 + 1) % 2 ^ 64) else b

  module _ (order : IsOrder doubles) where
    add_from-above :
        (v : D) (b : D × ℕ) (buckets : List (D × ℕ))
        → IsRising (b ∷ buckets)
        → doubles.less v b.0 ≡ true
        → (add_from doubles v (b ∷ buckets) ≡ map (one_more_above v) (b ∷ buckets))
          × (at_bound v (b ∷ buckets) ≡ false)
    add_from-above v b [] rising h = (rw h refl, rw h refl)
    add_from-above v b (c ∷ buckets) rising h =
        let later = add_from-above v c buckets rising.1 (order.less_trans v b.0 c.0 h rising.0) in
        (rw h (ap (λ bs. (b.0, (b.1 + 1) % 2 ^ 64) ∷ bs) later.0), rw h later.1)

    cons_if :
        (b : D × ℕ) (t : Bool) (xs ys : List (D × ℕ))
        → b ∷ (if t then xs else ys) ≡ (if t then b ∷ xs else b ∷ ys)
    cons_if b true xs ys = refl
    cons_if b false xs ys = refl

    IsRising-rest : (b : D × ℕ) (buckets : List (D × ℕ)) → IsRising (b ∷ buckets) → IsRising buckets
    IsRising-rest b [] rising = tt
    IsRising-rest b (c ∷ buckets) rising = rising.1

    add_behind-counts :
        (v : D) (buckets : List (D × ℕ))
        → IsRising buckets
        → add_behind doubles v buckets
          ≡ (if at_bound v buckets then buckets else map (one_more_above v) buckets)
    add_behind-counts v [] rising = refl
    add_behind-counts v (b ∷ buckets) rising = elim (Bool-cases (doubles.less b.0 v)) [
      | inl below ↦
          rw (below, order.less_asym b.0 v below)
            (ap (λ bs. b ∷ bs) (add_behind-counts v buckets (IsRising-rest b buckets rising))
              ∙ cons_if b (at_bound v buckets) buckets (map (one_more_above v) buckets))
      | inr other ↦ elim (Bool-cases (doubles.less v b.0)) [
        | inl above ↦
            let all = add_from-above v b buckets rising above in
            ap
              (λ (t : Bool).
                if t then b ∷ add_behind doubles v buckets else add_from doubles v (b ∷ buckets))
              other
            ∙ all.0
            ∙ sym (
                ap (λ (t : Bool). if t then b ∷ buckets else map (one_more_above v) (b ∷ buckets))
                  all.1)
        | inr same ↦ rw (other, same) refl
      ]
    ]

    -- With bounds that rise, observe of a value that is at a bound counts it in no bucket, and of
    -- any other value in each bucket whose bound is above it; the value is added to the sum, and
    -- one to the count.
    pub observe-counts :
        (v : D) (h : Histogram D)
        → IsRising h.buckets
        → ((observe doubles v h).buckets
            ≡ (if at_bound v h.buckets then h.buckets else map (one_more_above v) h.buckets))
          × ((observe doubles v h).sum ≡ doubles.plus h.sum v)
          × ((observe doubles v h).count ≡ (h.count + 1) % 2 ^ 64)
    unfolding observe
    observe-counts v h rising = (add_behind-counts v h.buckets rising, refl, refl)
