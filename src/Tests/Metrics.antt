-- ===== src/Tests/Metrics.antt =====
-- A histogram of whole numbers, with bounds 5 and 10, a registry of numbers, and texts that are
-- written to a string.

use cppnet.Prelude.{
  ℕ, [], ◌∷◌, ◌≡◌, ◌+◌, ◌^◌, ◌%◌, ◌==◌, ltb, arith, refl, codes, some, map, if◌then◌else◌,
}
use cppnet.Io.{Writer}
use cppnet.Io.WriteAll.{
  Appends, write_all, write_text, one_more, no_more, write_all-Appends, write_text-Appends,
}
use cppnet.Io.StringWriter.{StringWriter, string_write, build_string, string_write-IsSink}
use cppnet.Util.StringUtil.Replace.{replace_all-chars}
use cppnet.Util.StringUtil.ReplaceTo.{replace_all_to, replace_all_to-replace_all}
use cppnet.Instrument.Prometheus.Metric.{escapes}
use cppnet.Instrument.Prometheus.Histogram.{Doubles, Histogram, observe}
use cppnet.Instrument.Prometheus.Histogram.Observe.{
  IsOrder, at_bound, one_more_above, observe-counts,
}
use cppnet.Instrument.Prometheus.Registry.{Registry, get_metric, register_metric}
use cppnet.Instrument.Prometheus.Registry.Lookup.{get_metric-register_metric}

abbrev whole : Doubles ℕ
whole = record {
  less = ltb;
  equal = λ a b. a == b;
  plus = λ a b. a + b;
  nought = 0;
  infinity = 1000;
}

whole-IsOrder : IsOrder whole
whole-IsOrder = record {
  less_trans = λ a b c h k. ground (arith, h, k);
  less_asym = λ a b h. ground (arith, h);
}

abbrev times : Histogram ℕ
times = record {
  base = record { name = codes "t"; help = codes "Times"; labels = (codes "k", codes "a\"b") ∷ [] };
  buckets = (5, 0) ∷ (10, 2) ∷ (1000, 3) ∷ [];
  count = 3;
  sum = 24;
}

observe-counts_example :
    ((observe whole 7 times).buckets ≡ (
      if at_bound whole 7 times.buckets
      then times.buckets
      else map (one_more_above whole 7) times.buckets))
    × ((observe whole 7 times).sum ≡ 24 + 7)
    × ((observe whole 7 times).count ≡ (3 + 1) % 2 ^ 64)
observe-counts_example = observe-counts whole whole-IsOrder 7 times (refl, (refl, tt))

abbrev strings : Writer StringWriter
strings = record { write_some = string_write }

abbrev empty_writer : StringWriter
empty_writer = []

replace_all_to-replace_all_example :
    Appends build_string
      (replace_all_to (λ c. c) strings (codes "a\"b") escapes)
      (codes "a\\\"b")
      empty_writer
replace_all_to-replace_all_example =
    replace_all_to-replace_all (λ c. c) strings (λ c. refl) build_string string_write-IsSink
      (codes "a\"b") escapes (codes "a\\\"b")
      (replace_all-chars (codes "a\"b")
        ((92, 92 ∷ 92 ∷ []) ∷ (34, 92 ∷ 34 ∷ []) ∷ (10, 92 ∷ b'n' ∷ []) ∷ []))
      empty_writer

write_all-Appends_example :
    Appends build_string
      (write_all (write_text strings (codes "ab") ∷ write_text strings (codes "c") ∷ []))
      (codes "abc")
      empty_writer
write_all-Appends_example =
    write_all-Appends build_string
      (one_more (write_text-Appends strings build_string string_write-IsSink (codes "ab")) (
        one_more (write_text-Appends strings build_string string_write-IsSink (codes "c")) no_more))
      empty_writer

abbrev one_metric : Registry ℕ
one_metric = record { metrics = 70 ∷ []; lookup = (codes "t", ([], 0) ∷ []) ∷ [] }

get_metric-register_metric_example :
    get_metric
      (codes "t")
      ((codes "k", codes "v") ∷ [])
      (register_metric (codes "t") ((codes "k", codes "v") ∷ []) 80 one_metric).1
    ≡ some (register_metric (codes "t") ((codes "k", codes "v") ∷ []) 80 one_metric).0
get_metric-register_metric_example =
    get_metric-register_metric (codes "t") (codes "t") ((codes "k", codes "v") ∷ [])
      ((codes "k", codes "v") ∷ []) 80 one_metric
