-- ===== src/Io/BufferedWriter/Flush.antt =====
-- `flush` of a `buffered_writer`.

use cppnet.Prelude.{
  Bool-cases, List, [], ap, append-nil, arith, drop, drop_long, false, inl, inr, length,
  length-drop, ltb, none, refl, some, suc, sym, take_long, zero, ℕ, ◌++◌, ◌+◌, ◌<◌, ◌∙◌, ◌≡◌, ◌≤◌,
}
use cppnet.Io.{Writer, Result, IsSink}
use cppnet.Io.BufferedReader.{failed}
use cppnet.Io.BufferedReader.Deliver.{clash, no_error}
use cppnet.Io.BufferedWriter.{BufferedWriter, flush_loop, flush}

module _ {S : Type 0} (wr : Writer S) (written : S → List ℕ) (sink : IsSink wr written) where
  flush_loop_lem :
      (fuel total : ℕ) (s : BufferedWriter S)
      → total ≤ length s.buf
      → length s.buf ≤ total + fuel
      → (o : Result × BufferedWriter S) × (flush_loop wr fuel total s ≡ some o)
        × (failed o.0.err ≡ false
            → (written o.1.impl ≡ written s.impl ++ drop total s.buf)
              × (o.1.buf ≡ [])
              × (o.0.count ≡ length s.buf))
  unfolding flush_loop
  flush_loop_lem zero total s hl hf =
      let ends : ltb total (length s.buf) ≡ false = ground arith in
      let left : drop total s.buf ≡ [] = drop_long total s.buf (omega arith) in
      (
        (
          record { count = total; err = none },
          record { impl = s.impl; buf = []; capacity = s.capacity },
        ),
        rw ends refl,
        λ _. (rw left (sym (append-nil (written s.impl))), refl, omega arith),
      )
  flush_loop_lem (suc fuel) total s hl hf = elim (Bool-cases (ltb total (length s.buf))) [
    | inr e ↦
        let left : drop total s.buf ≡ [] = drop_long total s.buf (ground (arith, e)) in
        (
          (
            record { count = total; err = none },
            record { impl = s.impl; buf = []; capacity = s.capacity },
          ),
          rw e refl,
          λ _. (rw left (sym (append-nil (written s.impl))), refl, ground (arith, e)),
        )
    | inl e ↦
        let more : total < length s.buf = ground (arith, e) in
        let piece = drop total s.buf in
        let r = wr.write_some piece s.impl in
        let s' : BufferedWriter S = record { impl = r.1; buf = s.buf; capacity = s.capacity } in
        elim (Bool-cases (failed r.0.err)) [
          | inl bad ↦ (
            (record { count = total + r.0.count; err = r.0.err }, s'),
            rw (e, bad) refl,
            λ good. absurd (clash r.0.err bad good),
          )
          | inr good ↦
              let all = sink.all_or_error piece s.impl (no_error r.0.err good) in
              let size = length-drop total s.buf in
              let next = flush_loop_lem fuel (total + r.0.count) s' (omega arith) (omega arith) in
              let left : drop (total + r.0.count) s.buf ≡ [] =
                drop_long (total + r.0.count) s.buf (omega arith) in
              (
                next.0,
                rw (e, good) next.1,
                λ fine.
                    let told = next.2 fine in
                    (
                      told.0
                          ∙ ap (λ t. written r.1 ++ t) left
                          ∙ append-nil (written r.1)
                          ∙ sink.appends piece s.impl
                          ∙ ap (λ t. written s.impl ++ t) (take_long r.0.count piece (omega arith)),
                      told.1,
                      told.2,
                    ),
              )
        ]
  ]

  -- A writer over one that appends what it counts, and that counts all of the data or reports an
  -- error: `flush` returns, and without an error the buffer has been appended to what was written
  -- below, and is empty.
  flush-Appends :
      (s : BufferedWriter S)
      → (o : Result × BufferedWriter S) × (flush wr s ≡ some o)
        × (failed o.0.err ≡ false
            → (written o.1.impl ≡ written s.impl ++ s.buf)
              × (o.1.buf ≡ [])
              × (o.0.count ≡ length s.buf))
  unfolding flush
  flush-Appends s = flush_loop_lem (suc (length s.buf)) 0 s (omega arith) (omega arith)
