-- ===== src/Io/BufferedReader/Deliver.antt =====
-- `read` of a `buffered_reader` hands out what the buffer and the reader below hold.

use cppnet.Io.BufferedReader.{BufferedReader, failed, fill, read_past}
use cppnet.Prelude.{
  Bool-cases, List, Option, ap, append_assoc, arith, false, inl, inr, length, length-append, ltb,
  none, refl, some, suc, zero, ℕ, ◌++◌, ◌+◌, ◌-◌, ◌<◌, ◌==◌, ◌∙◌, ◌≡◌, ◌≤◌, true,
}
use cppnet.Io.{Reader, ReadResult, IsSource, Progresses, ErrorCondition}
use cppnet.Io.BufferedReader.{BufferedReader, failed, fill, read_past}

pub clash : (e : Option ErrorCondition) → failed e ≡ true → failed e ≡ false → ⊥
clash e h k = ground (arith, h, k)

pub no_error : (e : Option ErrorCondition) → failed e ≡ false → e ≡ none
no_error none h = refl
no_error (some e) h = absurd (ground (arith, h))

module _ {S : Type 0} (rd : Reader S) (Ok : S → Type 0) (held : S → List ℕ) where
  abbrev pub IsValid : BufferedReader S → Type 0
  IsValid s = Ok s.impl × (length s.buf ≤ s.capacity) × (0 < s.capacity)

  -- What the reader still hands out: its buffer, and then what the reader below holds.
  abbrev pub whole : BufferedReader S → List ℕ
  whole s = s.buf ++ held s.impl

  module _ (src : IsSource rd Ok held) where
    pub fill-IsValid : (s : BufferedReader S) → IsValid s → IsValid (fill rd s)
    unfolding fill
    fill-IsValid s (ok, room, some_room) = elim (Bool-cases (length s.buf == s.capacity)) [
      | inl e ↦ rw e (ok, room, some_room)
      | inr e ↦
          let k = s.capacity - length s.buf in
          rw e (
            src.keeps k s.impl ok,
            omega
                (arith, src.fits k s.impl ok, length-append s.buf (rd.read_some k s.impl).0.bytes),
            some_room,
          )
    ]

    pub fill-whole : (s : BufferedReader S) → IsValid s → whole (fill rd s) ≡ whole s
    unfolding fill
    fill-whole s (ok, room, some_room) = elim (Bool-cases (length s.buf == s.capacity)) [
      | inl e ↦ rw e refl
      | inr e ↦
          let k = s.capacity - length s.buf in
          let r = rd.read_some k s.impl in
          rw e (
            append_assoc s.buf r.0.bytes (held r.1)
            ∙ ap (λ t. s.buf ++ t) (src.delivers k s.impl ok))
    ]

    abbrev pub Past : ℕ → ℕ → List ℕ → S → Option (ReadResult × S) → Type 0
    Past capacity n got i o =
        (r : ReadResult) × (i' : S) × (o ≡ some (r, i'))
        × (r.bytes ++ held i' ≡ got ++ held i)
        × (length r.bytes ≤ n)
        × Ok i'
        × (failed r.err ≡ false → n ≤ length r.bytes + capacity)

    pub read_past_lem :
        (fuel capacity n : ℕ) (got : List ℕ) (i : S)
        → Progresses rd Ok
        → 0 < capacity
        → Ok i
        → length got ≤ n
        → n ≤ length got + fuel
        → Past capacity n got i (read_past rd fuel capacity n got i)
    unfolding read_past
    read_past_lem zero capacity n got i prog hc ok hg hf =
        let small : ltb capacity (n - length got) ≡ false = ground arith in
        (record { bytes = got; err = none }, i, rw small refl, refl, hg, ok, λ _. omega arith)
    read_past_lem (suc fuel) capacity n got i prog hc ok hg hf =
        let r = rd.read_some capacity i in
        let fits = src.fits capacity i ok in
        let read_on = length-append got r.0.bytes in
        let same : (got ++ r.0.bytes) ++ held r.1 ≡ got ++ held i =
          append_assoc got r.0.bytes (held r.1) ∙ ap (λ t. got ++ t) (src.delivers capacity i ok) in
        elim (Bool-cases (ltb capacity (n - length got))) [
          | inr e ↦ (
            record { bytes = got; err = none },
            i,
            rw e refl,
            refl,
            hg,
            ok,
            λ _. ground (arith, e),
          )
          | inl e ↦
              let more : capacity < n - length got = ground (arith, e) in
              elim (Bool-cases (failed r.0.err)) [
                | inl bad ↦ (
                  record { bytes = got ++ r.0.bytes; err = r.0.err },
                  r.1,
                  rw (e, bad) refl,
                  same,
                  omega arith,
                  src.keeps capacity i ok,
                  λ good. absurd (clash r.0.err bad good),
                )
                | inr good ↦
                    let next =
                      read_past_lem fuel capacity n (got ++ r.0.bytes) r.1 prog hc
                        (src.keeps capacity i ok) (omega arith)
                        (omega (arith, prog capacity i ok hc (no_error r.0.err good))) in
                    (next.0, next.1, rw (e, good) next.2, next.3 ∙ same, next.4, next.5, next.6)
              ]
        ]
