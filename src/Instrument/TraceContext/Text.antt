-- ===== src/Instrument/TraceContext/Text.antt =====
-- The header that carries a trace.

use cppnet.Prelude.Memory.{read, read-append, done, fault, write}
use cppnet.Prelude.{
  ℕ, List, [], drop, length, ◌∷◌, ◌++◌, All, IsByte, ◌≡◌, arith, length-append, drop-append_cons,
  ap, append_assoc, refl, replicate, some, sym, take, take-append, ◌∙◌, codes, ◌≤◌,
}
use cppnet.Encoding.Hex.RoundTrip.{decode_to-hex_text, decode_pair-encode_byte}
use cppnet.Http.Headers.{Headers, get_value}
use cppnet.Instrument.TraceContext.{
  part, parse_ids, span_with, parse_version_00, parse_traceparent, parse_context, server, or_empty,
  Span, inject, inject_version_00, traceparent_of,
}
use cppnet.Encoding.Hex.{hex_digit, decode_pair, encode_byte_to, encode_byte}
use cppnet.Encoding.Hex.Encode.{encode_to-hex_text, hex_text, length-hex_text}

-- The text behind the version.
abbrev pub ids_text : List ℕ → List ℕ → ℕ → List ℕ
ids_text trace_id parent_id flags =
    hex_text trace_id ++ (b'-' ∷ (hex_text parent_id ++ (b'-' ∷ hex_text (flags ∷ []))))

module _ (trace_id parent_id : List ℕ) (flags : ℕ) (trace_bytes : All IsByte trace_id)
    (trace_size : length trace_id ≡ 16) (parent_bytes : All IsByte parent_id)
    (parent_size : length parent_id ≡ 8) (flags_byte : IsByte flags) where
  abbrev rest : List ℕ
  rest = hex_text parent_id ++ (b'-' ∷ hex_text (flags ∷ []))

  size_of_trace : length (hex_text trace_id) ≡ 32
  size_of_trace = omega (arith, length-hex_text trace_id, trace_size)

  size_of_parent : length (hex_text parent_id) ≡ 16
  size_of_parent = omega (arith, length-hex_text parent_id, parent_size)

  length_of_ids : length (ids_text trace_id parent_id flags) ≡ 52
  length_of_ids = omega (
    arith,
    length-append (hex_text trace_id) (b'-' ∷ rest),
    length-append (hex_text parent_id) (b'-' ∷ hex_text (flags ∷ [])),
    size_of_trace,
    size_of_parent,
  )

  behind_trace : drop 33 (ids_text trace_id parent_id flags) ≡ rest
  behind_trace = drop-append_cons (hex_text trace_id) b'-' rest 33 (omega (arith, size_of_trace))

  behind_parent : drop 50 (ids_text trace_id parent_id flags) ≡ hex_text (flags ∷ [])
  behind_parent =
      ap (drop 50) (
        sym (
          append_assoc (hex_text trace_id) (b'-' ∷ hex_text parent_id)
            (b'-' ∷ hex_text (flags ∷ []))))
      ∙ drop-append_cons (hex_text trace_id ++ (b'-' ∷ hex_text parent_id)) b'-'
          (hex_text (flags ∷ [])) 50
          (omega (
            arith,
            size_of_trace,
            size_of_parent,
            length-append (hex_text trace_id) (b'-' ∷ hex_text parent_id),
          ))

  trace_part : part 0 32 (ids_text trace_id parent_id flags) ≡ hex_text trace_id
  trace_part = take-append (hex_text trace_id) (b'-' ∷ rest) 32 (omega (arith, size_of_trace))

  parent_part : part 33 16 (ids_text trace_id parent_id flags) ≡ hex_text parent_id
  parent_part =
      ap (take 16) behind_trace
      ∙ take-append (hex_text parent_id) (b'-' ∷ hex_text (flags ∷ [])) 16
          (omega (arith, size_of_parent))

  flags_part : part 50 2 (ids_text trace_id parent_id flags) ≡ hex_text (flags ∷ [])
  flags_part = ap (take 2) behind_parent

  trace_dash : read (ids_text trace_id parent_id flags) 32 ≡ done b'-'
  trace_dash = read-append (hex_text trace_id) b'-' rest 32 (omega (arith, size_of_trace))

  parent_dash : read (ids_text trace_id parent_id flags) 49 ≡ done b'-'
  parent_dash =
      ap (λ t. read t 49)
        (sym (
          append_assoc (hex_text trace_id) (b'-' ∷ hex_text parent_id)
            (b'-' ∷ hex_text (flags ∷ []))))
      ∙ read-append (hex_text trace_id ++ (b'-' ∷ hex_text parent_id)) b'-' (hex_text (flags ∷ []))
          49
          (omega (
            arith,
            size_of_trace,
            size_of_parent,
            length-append (hex_text trace_id) (b'-' ∷ hex_text parent_id),
          ))

  parse_ids_lem :
      parse_ids (ids_text trace_id parent_id flags)
      ≡ done (some (span_with flags trace_id parent_id))
  unfolding parse_ids
  parse_ids_lem =
      rw (flags_part, trace_part, parent_part)
        (rw
          (
            decode_to-hex_text trace_id (replicate 16 0) trace_bytes (omega (arith, trace_size)),
            decode_to-hex_text parent_id (replicate 8 0) parent_bytes (omega (arith, parent_size)),
            decode_pair-encode_byte flags flags_byte,
          )
          refl)

  parse_version_00_lem :
      parse_version_00 (ids_text trace_id parent_id flags)
      ≡ done (some (span_with flags trace_id parent_id))
  unfolding parse_version_00
  parse_version_00_lem = rw (length_of_ids, trace_dash, parent_dash) parse_ids_lem

  parse_traceparent_lem :
      parse_traceparent (codes "00-" ++ ids_text trace_id parent_id flags)
      ≡ done (some (span_with flags trace_id parent_id))
  unfolding parse_traceparent decode_pair
  parse_traceparent_lem = parse_version_00_lem

  -- For headers with a traceparent of version 00, the hex texts of a trace id of 16 bytes, of a span
  -- id of 8 bytes and of the flags: parse returns a span of the server with these ids and flags, the
  -- span id as its parent, and the tracestate of the headers.
  pub parse_context-ids_text :
      (headers : Headers)
      → get_value (codes "traceparent") headers
        ≡ some (codes "00-" ++ ids_text trace_id parent_id flags)
      → parse_context headers
        ≡ done (
            some (record (span_with flags trace_id parent_id) {
              kind = server;
              trace_state = or_empty (get_value (codes "tracestate") headers);
            }))
  unfolding parse_context
  parse_context-ids_text headers h = rw (parse_context, h, parse_traceparent_lem) refl

write_behind : (xs : List ℕ) (i v : ℕ) → length xs ≤ i → write xs i v ≡ fault
write_behind xs i v h = ground arith

-- inject of a span of version 0 with a trace id of 16 bytes writes behind its text.
pub inject-fault :
    (span : Span) (headers : Headers)
    → span.version ≡ 0
    → length span.trace_id ≡ 16
    → inject span headers ≡ fault
unfolding inject inject_version_00 traceparent_of encode_byte_to encode_byte hex_digit
inject-fault span headers zero_version size =
    let old : List ℕ = replicate 32 b'0' in
    let after : List ℕ = replicate 20 b'0' in
    let text = encode_to-hex_text span.trace_id (codes "00-") old after (omega (arith, size)) in
    let behind = write_behind (codes "00-" ++ (hex_text span.trace_id ++ after)) 58 b'-' (
      omega (
        arith,
        length-append (hex_text span.trace_id) after,
        length-hex_text span.trace_id,
        size,
      )) in
    rw (zero_version) (rw (text, behind) refl)
