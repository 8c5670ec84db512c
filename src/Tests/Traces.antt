-- ===== src/Tests/Traces.antt =====
-- The header of a trace.

use cppnet.Prelude.{ℕ, List, [], ◌∷◌, ◌≡◌, ◌++◌, arith, refl, codes, some}
use cppnet.Prelude.Memory.{done, fault}
use cppnet.Util.StringUtil.{equal_ignore_case}
use cppnet.Http.Headers.{Headers, get_value}
use cppnet.Instrument.TraceContext.{Span, span_with, parse_context, server, inject}
use cppnet.Instrument.TraceContext.Text.{ids_text, parse_context-ids_text, inject-fault}

abbrev trace_id : List ℕ
trace_id = 0 ∷ 1 ∷ 2 ∷ 3 ∷ 4 ∷ 5 ∷ 6 ∷ 7 ∷ 248 ∷ 249 ∷ 250 ∷ 251 ∷ 252 ∷ 253 ∷ 254 ∷ 255 ∷ []

abbrev parent_id : List ℕ
parent_id = 7 ∷ 6 ∷ 5 ∷ 4 ∷ 3 ∷ 2 ∷ 1 ∷ 0 ∷ []

abbrev headers : Headers
headers =
    (codes "Traceparent", (codes "00-" ++ ids_text trace_id parent_id 1) ∷ [])
    ∷ (codes "tracestate", codes "a=b" ∷ [])
    ∷ []

abbrev span : Span
span = record (span_with 1 trace_id parent_id) { kind = server; trace_state = codes "a=b" }

parse_context-ids_text_example : parse_context headers ≡ done (some span)
unfolding get_value equal_ignore_case
parse_context-ids_text_example =
    parse_context-ids_text trace_id parent_id 1 (omega arith) refl (omega arith) refl (omega arith)
      headers refl

inject-fault_example : inject span headers ≡ fault
inject-fault_example = inject-fault span headers refl refl
