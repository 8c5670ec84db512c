-- ===== src/Io/BufferedWriter/Append.antt =====
-- `write` and `flush` of a `buffered_writer` append to what is written below and buffered.

use cppnet.Prelude.{
  Bool-cases, List, arith, drop, false, inl, inr, length, length-drop, length-take, ltb, none, refl,
  some, suc, take, zero, ℕ, ◌++◌, ◌+◌, ◌-◌, ◌<◌, ◌≡◌, ◌≤◌, ap, append_assoc, ap₂, sym, take-take,
  take_plus, ◌∙◌,
}
use cppnet.Io.{Writer, Result, IsSink}
use cppnet.Io.BufferedReader.{failed}
use cppnet.Io.BufferedReader.Deliver.{clash, no_error}
use cppnet.Io.BufferedWriter.{BufferedWriter, write_past}

module _ {S : Type 0} (wr : Writer S) (written : S → List ℕ) (sink : IsSink wr written) where
  -- What is written below, and then what is buffered.
  abbrev pub appended : BufferedWriter S → List ℕ
  appended s = written s.impl ++ s.buf

  pub write_past_lem :
      (fuel capacity : ℕ) (bytes : List ℕ) (total : ℕ) (i : S)
      → 0 < capacity
      → total ≤ length bytes
      → length bytes ≤ total + fuel
      → (r : Result) × (i' : S) × (write_past wr fuel capacity bytes total i ≡ some (r, i'))
        × ((before : List ℕ)
            → written i ≡ before ++ take total bytes
            → written i' ≡ before ++ take r.count bytes)
        × (failed r.err ≡ false → (r.count ≤ length bytes) × (length bytes ≤ r.count + capacity))
  unfolding write_past
  write_past_lem zero capacity bytes total i hc hl hf =
      let small : ltb capacity (length bytes - total) ≡ false = ground arith in
      (
        record { count = total; err = none },
        i,
        rw small refl,
        (λ before h. h),
        λ _. (hl, omega arith),
      )
  write_past_lem (suc fuel) capacity bytes total i hc hl hf =
      elim (Bool-cases (ltb capacity (length bytes - total))) [
        | inr e ↦ (
          record { count = total; err = none },
          i,
          rw e refl,
          (λ before h. h),
          λ _. (hl, ground (arith, e)),
        )
        | inl e ↦
            let more : capacity < length bytes - total = ground (arith, e) in
            let piece = take capacity (drop total bytes) in
            let r = wr.write_some piece i in
            let part = sink.counts piece i in
            let grown : (before : List ℕ)
                → written i ≡ before ++ take total bytes
                → written r.1 ≡ before ++ take (total + r.0.count) bytes =
              λ before h.
                sink.appends piece i
                ∙ ap₂ (λ t u. t ++ u) h
                    (take-take r.0.count capacity (drop total bytes)
                      (omega (arith, length-take capacity (drop total bytes))))
                ∙ append_assoc before (take total bytes) (take r.0.count (drop total bytes))
                ∙ ap (λ t. before ++ t) (sym (take_plus total r.0.count bytes)) in
            elim (Bool-cases (failed r.0.err)) [
              | inl bad ↦ (
                record { count = total + r.0.count; err = r.0.err },
                r.1,
                rw (e, bad) refl,
                grown,
                λ good. absurd (clash r.0.err bad good),
              )
              | inr good ↦
                  let full = sink.all_or_error piece i (no_error r.0.err good) in
                  let size = length-take capacity (drop total bytes) in
                  let size' = length-drop total bytes in
                  let next =
                    write_past_lem fuel capacity bytes (total + r.0.count) r.1 hc (omega arith)
                      (omega arith) in
                  (
                    next.0,
                    next.1,
                    rw (e, good) next.2,
                    (λ before h. next.3 before (grown before h)),
                    next.4,
                  )
            ]
      ]
