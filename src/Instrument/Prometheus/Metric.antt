-- ===== src/Instrument/Prometheus/Metric.antt =====
-- include/instrument/prometheus/metric.hpp and metric.cpp: what all metrics have in common.

use cppnet.Prelude.{ℕ, List, [], ◌∷◌, codes}

pub data MetricType : Type 0 where
  counter gauge histogram untyped : MetricType

abbrev pub metric_type_string : MetricType → List ℕ
metric_type_string counter = codes "counter"
metric_type_string gauge = codes "gauge"
metric_type_string histogram = codes "histogram"
metric_type_string untyped = codes "untyped"

abbrev pub Labels : Type 0
Labels = List (List ℕ × List ℕ)

-- The class `base_metric`, without the time of its last change.
pub record BaseMetric : Type 0 where
  pub name : List ℕ
  pub help : List ℕ
  pub labels : Labels

-- A backslash, a quote and a newline, with what is written for them.
abbrev pub escapes : List (List ℕ × List ℕ)
escapes = (92 ∷ [], 92 ∷ 92 ∷ []) ∷ (34 ∷ [], 92 ∷ 34 ∷ []) ∷ (10 ∷ [], 92 ∷ b'n' ∷ []) ∷ []
