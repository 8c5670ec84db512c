-- ===== src/Instrument/TraceContext.antt =====
-- src/instrument/opentelemetry/tracecontext.cpp.
pub mod Text
use cppnet.Prelude.{
  ℕ, List, Option, [], codes, drop, if◌then◌else◌, length, none, some, take, not, replicate, ◌==◌,
  ◌+◌,
}
use cppnet.Prelude.Memory.{Run, done, ◌>>=◌, read, write}
use cppnet.Prelude.Strings.{position}
use cppnet.Encoding.Hex.{decode_pair, decode_to, encode_to, encode_byte_to}
use cppnet.Http.Headers.{Headers, get_value, set_value}

pub data SpanKind : Type 0 where
  unspecified internal server client producer consumer : SpanKind

-- The struct `span`, as far as the context of a trace says what it holds.
pub record Span : Type 0 where
  pub version : ℕ
  pub trace_id : List ℕ
  pub parent_span_id : Option (List ℕ)
  pub span_id : List ℕ
  pub trace_state : List ℕ
  pub flags : ℕ
  pub kind : SpanKind

-- `substr(idx, count)`, of an index within the text.
abbrev pub part : ℕ → ℕ → List ℕ → List ℕ
part idx count text = take count (drop idx text)

abbrev pub span_with : ℕ → List ℕ → List ℕ → Span
span_with flags trace_id parent_span_id = record {
  version = 0;
  trace_id = trace_id;
  parent_span_id = some parent_span_id;
  span_id = replicate 8 0;
  trace_state = [];
  flags = flags;
  kind = unspecified;
}

-- `parse_version_00` behind its tests.
unfoldable pub parse_ids : List ℕ → Run (Option Span)
parse_ids traceparent = do
  hi ← read (part 50 2 traceparent) 0
  lo ← read (part 50 2 traceparent) 1
  trace_id ← decode_to (part 0 32 traceparent) (replicate 16 0)
  if not trace_id.0 then done none else (do
    parent_id ← decode_to (part 33 16 traceparent) (replicate 8 0)
    done
        (if parent_id.0 then some (span_with (decode_pair hi lo) trace_id.1 parent_id.1) else none))

unfoldable pub parse_version_00 : List ℕ → Run (Option Span)
unfolding parse_ids
parse_version_00 traceparent = if not (length traceparent == 52) then done none else (do
  c ← read traceparent 32
  if not (c == b'-') then done none else (do
    d ← read traceparent 49
    if not (d == b'-') then done none else parse_ids traceparent))

unfoldable pub parse_traceparent : List ℕ → Run (Option Span)
unfolding parse_version_00
parse_traceparent tp = elim (position (λ c. c == b'-') tp) [
  | none ↦ done none
  | some version_end ↦
      let version_raw = take version_end tp in
      if not (length version_raw == 2) then done none else (do
        hi ← read version_raw 0
        lo ← read version_raw 1
        if decode_pair hi lo == 0 then parse_version_00 (drop (version_end + 1) tp) else done none)
]

abbrev pub or_empty : Option (List ℕ) → List ℕ
or_empty none = []
or_empty (some text) = text

abbrev pub with_state : Headers → Option Span → Option Span
with_state headers none = none
with_state headers (some s) =
    some
      (record s { kind = server; trace_state = or_empty (get_value (codes "tracestate") headers) })

unfoldable pub parse_context : Headers → Run (Option Span)
unfolding parse_traceparent
parse_context headers = elim (get_value (codes "traceparent") headers) [
  | none ↦ done none
  | some tp ↦ parse_traceparent tp >>= λ s. done (with_state headers s)
]

-- The text that `inject_version_00` puts together.
pub traceparent_of : Span → Run (List ℕ)
traceparent_of span = do
  out₁ ← encode_byte_to span.version (replicate 55 b'0') 0
  out₂ ← write out₁ 2 b'-'
  out₃ ← encode_to span.trace_id out₂ 3
  out₄ ← write out₃ (2 + 1 + 55) b'-'
  out₅ ← encode_to span.span_id out₄ (2 + 1 + 55 + 1)
  out₆ ← write out₅ (2 + 1 + 55 + 1 + 16) b'-'
  encode_byte_to span.flags out₆ (2 + 1 + 55 + 1 + 16 + 1)

pub inject_version_00 : Span → Headers → Run Headers
unfolding traceparent_of
inject_version_00 span headers = do
  traceparent ← traceparent_of span
  let headers' = set_value (codes "traceparent") traceparent headers
  done (
      if not (length span.trace_state == 0)
      then set_value (codes "tracestate") span.trace_state headers'
      else headers')

pub inject : Span → Headers → Run Headers
unfolding inject_version_00
inject span headers = if span.version == 0 then inject_version_00 span headers else done headers
