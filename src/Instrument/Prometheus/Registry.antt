-- ===== src/Instrument/Prometheus/Registry.antt =====
-- src/instrument/prometheus/registry.cpp. A reference to a metric is its index in the deque, which
-- never loses an element. The templates that ask for one type of metric are left out.
pub mod Lookup
use cppnet.Prelude.{
  ℕ, List, Bool, Option, [], ◌∷◌, ◌++◌, ◌&&◌, if◌then◌else◌, length, none, some, true, false,
}
use cppnet.Prelude.Strings.{same_string}
use cppnet.Instrument.Prometheus.Metric.{Labels}

-- `==` of two vectors of labels.
abbrev pub same_labels : Labels → Labels → Bool
same_labels [] [] = true
same_labels [] (l ∷ ls) = false
same_labels (k ∷ ks) [] = false
same_labels (k ∷ ks) (l ∷ ls) = same_string k.0 l.0 && (same_string k.1 l.1 && same_labels ks ls)

-- The class `registry`: the metrics, and the table of each name.
pub record Registry (M : Type 0) : Type 0 where
  pub metrics : List M
  pub lookup : List (List ℕ × List (Labels × ℕ))

abbrev pub find_labels : Labels → List (Labels × ℕ) → Option ℕ
find_labels labels [] = none
find_labels labels (e ∷ table) =
    if same_labels labels e.0 then some e.1 else find_labels labels table

abbrev pub find_name : List ℕ → Labels → List (List ℕ × List (Labels × ℕ)) → Option ℕ
find_name name labels [] = none
find_name name labels (e ∷ lookup) =
    if same_string name e.0 then find_labels labels e.1 else find_name name labels lookup

-- `lookup[name].emplace(labels, ref)`: labels that are there keep their reference.
abbrev pub emplace_labels : Labels → ℕ → List (Labels × ℕ) → List (Labels × ℕ)
emplace_labels labels ref [] = (labels, ref) ∷ []
emplace_labels labels ref (e ∷ table) =
    if same_labels labels e.0 then e ∷ table else e ∷ emplace_labels labels ref table

abbrev pub emplace_name :
    List ℕ → Labels → ℕ → List (List ℕ × List (Labels × ℕ)) → List (List ℕ × List (Labels × ℕ))
emplace_name name labels ref [] = (name, (labels, ref) ∷ []) ∷ []
emplace_name name labels ref (e ∷ lookup) =
    if same_string name e.0
    then (e.0, emplace_labels labels ref e.1) ∷ lookup
    else e ∷ emplace_name name labels ref lookup

module _ {M : Type 0} where
  pub get_metric : List ℕ → Labels → Registry M → Option ℕ
  get_metric name labels r = find_name name labels r.lookup

  pub register_metric : List ℕ → Labels → M → Registry M → ℕ × Registry M
  unfolding get_metric
  register_metric name labels m r = elim (get_metric name labels r) [
    | some ref ↦ (ref, r)
    | none ↦ (
      length r.metrics,
      record r {
        metrics = r.metrics ++ (m ∷ []);
        lookup = emplace_name name labels (length r.metrics) r.lookup;
      },
    )
  ]
