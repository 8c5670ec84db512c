-- ===== src/Io/BufferedReader/Read.antt =====
-- `read` of a `buffered_reader`, all its branches.

use cppnet.Prelude.{
  Bool-cases, List, arith, drop, false, inl, inr, leb, length, length-append, length-drop,
  length-take, ltb, min, refl, some, take, ℕ, ◌++◌, ◌-◌, ◌<◌, ◌==◌, ◌≡◌, ◌≤◌, [], ap, append_assoc,
  none, sym, take-append-drop, ◌∙◌, suc, ◌+◌,
}
use cppnet.Prelude.Memory.{Run, done}
use cppnet.Io.{Reader, ReadResult, IsSource, Progresses}
use cppnet.Io.BufferedReader.{
  shift_back, read_end, failed, buffered_read, BufferedReader, fill, read_rest,
}
use cppnet.Io.BufferedReader.Deliver.{read_past_lem, fill-IsValid, fill-whole, IsValid, whole}

pub shift_back-drop :
    (overlapping : List ℕ → ℕ → Run (List ℕ)) (buf : List ℕ) (n : ℕ)
    → ((b : List ℕ) (k : ℕ) → overlapping b k ≡ done (drop k b))
    → shift_back overlapping buf n ≡ done (drop n buf)
unfolding shift_back
shift_back-drop overlapping buf n moves = elim (Bool-cases (ltb n (length buf - n))) [
  | inl e ↦ rw e (moves buf n)
  | inr e ↦ rw e refl
]

module _ {S : Type 0} (rd : Reader S) (Ok : S → Type 0) (held : S → List ℕ) where
  abbrev pub Delivers : ℕ → List ℕ → ReadResult × BufferedReader S → Type 0
  Delivers n before o =
      (o.0.bytes ++ whole rd Ok held o.1 ≡ before) × (length o.0.bytes ≤ n) × IsValid rd Ok held o.1

  module _ (src : IsSource rd Ok held) where
    read_rest-Delivers :
        (n : ℕ) (got : List ℕ) (s : BufferedReader S)
        → IsValid rd Ok held s
        → length got ≤ n
        → Delivers n (got ++ whole rd Ok held s) (read_rest rd n got s)
    unfolding read_rest
    read_rest-Delivers n got s valid hg = elim (Bool-cases (ltb 0 (n - length got))) [
      | inr e ↦ rw e (refl, hg, valid)
      | inl e ↦
          let filled = fill rd s in
          let k = min (n - length got) (length filled.buf) in
          let valid' = fill-IsValid rd Ok held src s valid in
          rw e (
            append_assoc got (take k filled.buf) (drop k filled.buf ++ held filled.impl)
                ∙ ap (λ t. got ++ t)
                    (sym (append_assoc (take k filled.buf) (drop k filled.buf) (held filled.impl))
                      ∙ ap (λ t. t ++ held filled.impl) (take-append-drop k filled.buf)
                      ∙ fill-whole rd Ok held src s valid),
            omega (arith, length-append got (take k filled.buf), length-take k filled.buf),
            (valid'.0, omega (arith, length-drop k filled.buf), valid'.2),
          )
    ]

    read_end-Delivers :
        (n : ℕ) (s : BufferedReader S) (r : ReadResult × S) (before : List ℕ)
        → r.0.bytes ++ held r.1 ≡ before
        → length r.0.bytes ≤ n
        → Ok r.1 × (0 < s.capacity)
        → (failed r.0.err ≡ false → n ≤ length r.0.bytes + s.capacity)
        → Delivers n before (read_end rd n s r)
    unfolding read_end
    read_end-Delivers n s r before same short valid left = elim (Bool-cases (failed r.0.err)) [
      | inl e ↦ rw e (same, short, (valid.0, omega arith, valid.1))
      | inr e ↦
          let s' : BufferedReader S = record {
            impl = r.1;
            buf = [];
            capacity = s.capacity;
            err = s.err;
          } in
          let rest = read_rest-Delivers n r.0.bytes s' (valid.0, omega arith, valid.1) short in
          rw e (rest.0 ∙ same, rest.1, rest.2)
    ]

    -- A reader over one that hands out what it holds, and that gives a byte or an error to each
    -- read: `read` returns, and hands out the buffer and then what the reader below holds, if
    -- `std::copy_backward` moves bytes the way that `std::copy` would.
    pub buffered_read-Delivers :
        (overlapping : List ℕ → ℕ → Run (List ℕ)) (n : ℕ) (s : BufferedReader S)
        → ((buf : List ℕ) (k : ℕ) → overlapping buf k ≡ done (drop k buf))
        → Progresses rd Ok
        → IsValid rd Ok held s
        → (o : ReadResult × BufferedReader S) × (buffered_read rd overlapping n s ≡ done (some o))
          × Delivers n (whole rd Ok held s) o
    unfolding buffered_read
    buffered_read-Delivers overlapping n s moves prog valid = elim (Bool-cases (n == 0)) [
      | inl e ↦ ((record { bytes = []; err = none }, s), rw e refl, (refl, omega arith, valid))
      | inr e ↦ elim (Bool-cases (leb n (length s.buf))) [
        | inl h ↦
            let shifted = shift_back-drop overlapping s.buf n moves in
            (
              (
                record { bytes = take n s.buf; err = none },
                record { impl = s.impl; buf = drop n s.buf; capacity = s.capacity; err = s.err },
              ),
              rw (e, h, shifted) refl,
              (
                sym (append_assoc (take n s.buf) (drop n s.buf) (held s.impl))
                    ∙ ap (λ t. t ++ held s.impl) (take-append-drop n s.buf),
                omega (arith, length-take n s.buf),
                (valid.0, omega (arith, length-drop n s.buf), valid.2),
              ),
            )
        | inr h ↦
            let more : length s.buf < n = ground (arith, h) in
            let past =
              read_past_lem rd Ok held src (suc n) s.capacity n s.buf s.impl prog valid.2 valid.0
                (omega arith) (omega arith) in
            (
              read_end rd n s (past.0, past.1),
              rw (e, h, past.2) refl,
              read_end-Delivers n s (past.0, past.1) (whole rd Ok held s) past.3 past.4
                  (past.5, valid.2) past.6,
            )
      ]
    ]
