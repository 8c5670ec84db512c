-- ===== src/Instrument/Prometheus/Histogram.antt =====
-- src/instrument/prometheus/histogram.cpp. The two vectors of a histogram, which the constructor
-- and the copies keep at one size, are one list of pairs. The operations on `double` are a parameter.
pub mod Observe
use cppnet.Prelude.{ℕ, List, Bool, [], ◌∷◌, ◌+◌, ◌%◌, ◌^◌, ◌++◌, if◌then◌else◌, map}
use cppnet.Prelude.Memory.{Run, done, fault}
use cppnet.Instrument.Prometheus.Metric.{BaseMetric}

-- What the code uses of `double`: `<`, `==`, `+` and the constants.
pub record Doubles (D : Type 0) : Type 0 where
  pub less : D → D → Bool
  pub equal : D → D → Bool
  pub plus : D → D → D
  pub nought : D
  pub infinity : D

pub record Histogram (D : Type 0) : Type 0 where
  pub base : BaseMetric
  pub buckets : List (D × ℕ)
  pub count : ℕ
  pub sum : D

module _ {D : Type 0} (doubles : Doubles D) where
  abbrev last_of : D → List D → D
  last_of b [] = b
  last_of b (c ∷ bounds) = last_of c bounds

  abbrev ensure_infinity : D → List D → List D
  ensure_infinity b bounds =
      if doubles.equal (last_of b bounds) doubles.infinity
      then b ∷ bounds
      else b ∷ (bounds ++ (doubles.infinity ∷ []))

  -- The constructor, which asks for the last of the bounds.
  pub new_histogram : BaseMetric → List D → Run (Histogram D)
  new_histogram base [] = fault
  new_histogram base (b ∷ bounds) = done (record {
    base = base;
    buckets = map (λ c. (c, 0)) (ensure_infinity b bounds);
    count = 0;
    sum = doubles.nought;
  })

  -- The second loop of `observe`.
  abbrev pub add_from : D → List (D × ℕ) → List (D × ℕ)
  add_from v [] = []
  add_from v (b ∷ buckets) =
      if doubles.less v b.0 then (b.0, (b.1 + 1) % 2 ^ 64) ∷ add_from v buckets else b ∷ buckets

  -- Its first loop, and the second one behind it.
  abbrev pub add_behind : D → List (D × ℕ) → List (D × ℕ)
  add_behind v [] = []
  add_behind v (b ∷ buckets) =
      if doubles.less b.0 v then b ∷ add_behind v buckets else add_from v (b ∷ buckets)

  pub observe : D → Histogram D → Histogram D
  observe v h = record h {
    sum = doubles.plus h.sum v;
    count = (h.count + 1) % 2 ^ 64;
    buckets = add_behind v h.buckets;
  }
