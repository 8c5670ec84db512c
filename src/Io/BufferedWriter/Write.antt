-- ===== src/Io/BufferedWriter/Write.antt =====
-- `write` of a `buffered_writer`, all its branches.

use cppnet.Prelude.{
  Bool-cases, List, [], ap, append-nil, append_assoc, arith, drop, false, inl, inr, length, ltb,
  refl, sym, take, take-append-drop, take_long, ℕ, ◌++◌, ◌-◌, ◌∙◌, ◌≡◌, ◌≤◌, if◌then◌else◌,
  length-append, length-take, min, none, some, suc, true, ◌<◌, ◌==◌,
}
use cppnet.Prelude.Memory.{Run, done}
use cppnet.Io.{Writer, Result, IsSink}
use cppnet.Io.BufferedReader.{failed}
use cppnet.Io.BufferedReader.Deliver.{clash, no_error}
use cppnet.Io.BufferedReader.Read.{shift_back-drop}
use cppnet.Io.BufferedWriter.{
  BufferedWriter, flush_available, write_end, write_rest, buffered_write,
}
use cppnet.Io.BufferedWriter.Append.{appended, write_past_lem}

module _ {S : Type 0} (wr : Writer S) (written : S → List ℕ) (sink : IsSink wr written) where
  -- Some first part of the data is behind what was written before, and all of it if there is no
  -- error.
  abbrev pub Appends : List ℕ → List ℕ → Result × BufferedWriter S → Type 0
  Appends bytes before o =
      (k : ℕ) × (appended wr written sink o.1 ≡ before ++ take k bytes)
      × (failed o.0.err ≡ false → (o.0.count ≡ length bytes) × (length bytes ≤ k))

  write_end-Appends :
      (bytes before : List ℕ) (s : BufferedWriter S) (r : Result) (i : S)
      → s.buf ≡ []
      → written i ≡ before ++ take r.count bytes
      → (failed r.err ≡ false → (r.count ≤ length bytes))
      → Appends bytes before (write_end wr bytes s (r, i))
  unfolding write_end
  write_end-Appends bytes before s r i empty h left =
      let same : written i ++ s.buf ≡ before ++ take r.count bytes =
        ap (λ t. written i ++ t) empty ∙ append-nil (written i) ∙ h in
      elim (Bool-cases (failed r.err)) [
        | inl bad ↦ rw bad (r.count, same, λ good. absurd (clash r.err bad good))
        | inr good ↦ elim (Bool-cases (ltb 0 (length bytes - r.count))) [
          | inl e ↦
              rw (good, e)
                (
                  length bytes,
                  ap (λ t. t ++ drop r.count bytes) h
                      ∙ append_assoc before (take r.count bytes) (drop r.count bytes)
                      ∙ ap (λ t. before ++ t)
                          (take-append-drop r.count bytes
                            ∙ sym (take_long (length bytes) bytes (omega arith))),
                  λ _. (refl, omega arith),
                )
          | inr e ↦
              let fits = left good in
              rw (good, e) (r.count, same, λ _. (ground (arith, e), ground (arith, e)))
        ]
      ]

  flush_available_lem :
      (overlapping : List ℕ → ℕ → Run (List ℕ)) (s : BufferedWriter S)
      → ((b : List ℕ) (k : ℕ) → overlapping b k ≡ done (drop k b))
      → (f : Result × BufferedWriter S) × (flush_available wr overlapping s ≡ done f)
        × (appended wr written sink f.1 ≡ appended wr written sink s)
        × (failed f.0.err ≡ false → f.1.buf ≡ [])
        × (f.1.capacity ≡ s.capacity)
  unfolding flush_available
  flush_available_lem overlapping s moves =
      let r = wr.write_some s.buf s.impl in
      let told = sink.appends s.buf s.impl in
      elim (Bool-cases (ltb r.0.count (length s.buf))) [
        | inl e ↦ (
          (r.0, record { impl = r.1; buf = drop r.0.count s.buf; capacity = s.capacity }),
          rw (e, shift_back-drop overlapping s.buf r.0.count moves) refl,
          ap (λ t. t ++ drop r.0.count s.buf) told
              ∙ append_assoc (written s.impl) (take r.0.count s.buf) (drop r.0.count s.buf)
              ∙ ap (λ t. written s.impl ++ t) (take-append-drop r.0.count s.buf),
          (λ good.
              absurd (ground (arith, e, sink.all_or_error s.buf s.impl (no_error r.0.err good)))),
          refl,
        )
        | inr e ↦
            let all = take_long r.0.count s.buf (ground (arith, e)) in
            (
              (r.0, record { impl = r.1; buf = []; capacity = s.capacity }),
              rw e refl,
              append-nil (written r.1) ∙ told ∙ ap (λ t. written s.impl ++ t) all,
              (λ good. refl),
              refl,
            )
      ]

  write_rest-Appends :
      (bytes before : List ℕ) (total : ℕ) (f : Result × BufferedWriter S)
      → appended wr written sink f.1 ≡ before ++ take total bytes
      → (failed f.0.err ≡ false → f.1.buf ≡ [])
      → 0 < f.1.capacity
      → total ≤ length bytes
      → (o : Result × BufferedWriter S) × (write_rest wr bytes total f ≡ some o)
        × Appends bytes before o
  unfolding write_rest
  write_rest-Appends bytes before total f same empty hc hl = elim (Bool-cases (failed f.0.err)) [
    | inl bad ↦ (f, rw bad refl, (total, same, λ good. absurd (clash f.0.err bad good)))
    | inr good ↦
        let below : written f.1.impl ≡ before ++ take total bytes =
          sym (append-nil (written f.1.impl))
          ∙ ap (λ t. written f.1.impl ++ t) (sym (empty good))
          ∙ same in
        let past =
          write_past_lem wr written sink (suc (length bytes)) f.1.capacity bytes total f.1.impl hc
            hl (omega arith) in
        (
          write_end wr bytes f.1 (past.0, past.1),
          rw (good, past.2) refl,
          write_end-Appends bytes before f.1 past.0 past.1 (empty good) (past.3 before below)
              (λ fine. (past.4 fine).0),
        )
  ]

  -- A writer over one that appends what it counts, and that counts all of the data or reports an
  -- error, if `std::copy_backward` moves bytes the way that `std::copy` would: `write` returns,
  -- and the data, or a first part of it if there is an error, is behind what was written before.
  pub buffered_write-Appends :
      (overlapping : List ℕ → ℕ → Run (List ℕ)) (bytes : List ℕ) (s : BufferedWriter S)
      → ((b : List ℕ) (k : ℕ) → overlapping b k ≡ done (drop k b))
      → length s.buf ≤ s.capacity
      → 0 < s.capacity
      → (o : Result × BufferedWriter S) × (buffered_write wr overlapping bytes s ≡ done (some o))
        × Appends bytes (appended wr written sink s) o
  unfolding buffered_write
  buffered_write-Appends overlapping bytes s moves room hc =
      let total : ℕ =
        if ltb (length s.buf) s.capacity
        then min (s.capacity - length s.buf) (length bytes)
        else 0 in
      let s' : BufferedWriter S = record {
        impl = s.impl;
        buf = s.buf ++ take total bytes;
        capacity = s.capacity;
      } in
      let same : appended wr written sink s' ≡ appended wr written sink s ++ take total bytes =
        sym (append_assoc (written s.impl) s.buf (take total bytes)) in
      let bound : total ≤ length bytes = ground arith in
      elim (Bool-cases (length bytes == 0)) [
        | inl e ↦ (
          (record { count = 0; err = none }, s),
          rw e refl,
          (
            0,
            sym (append-nil (appended wr written sink s)),
            λ _. (ground (arith, e), ground (arith, e)),
          ),
        )
        | inr e ↦ elim (Bool-cases (total == length bytes)) [
          | inl h ↦ (
            (record { count = length bytes; err = none }, s'),
            rw (e, h) refl,
            (total, same, λ _. (refl, ground (arith, h))),
          )
          | inr h ↦
              let full : (length s'.buf == s'.capacity) ≡ true =
                ground
                  (arith, h, length-append s.buf (take total bytes), length-take total bytes) in
              let f = flush_available_lem overlapping s' moves in
              let rest =
                write_rest-Appends bytes (appended wr written sink s) total f.0 (f.2 ∙ same) f.3
                  (omega (arith, f.4)) bound in
              (rest.0, rw (e, h, full, f.1, rest.1) refl, rest.2)
        ]
      ]
