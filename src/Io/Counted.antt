-- ===== src/Io/Counted.antt =====
-- Loops that write, and count the bytes that they have written.

use cppnet.Prelude.{
  ℕ, List, Option, [], ◌++◌, ◌≡◌, ◌%◌, ◌^◌, ◌+◌, length, none, some, ap, sym, ◌∙◌, arith, refl,
  length-append, append_assoc, append-nil, Option-cases, inl, inr,
}
use cppnet.Io.{Result, ErrorCondition}
use cppnet.Io.WriteAll.{Call, Appends}

module _ {S : Type 0} where
  -- What is done behind a call, with the bytes counted so far.
  abbrev pub after_call : ℕ → S → Option ErrorCondition → (ℕ → Call S) → Option (Result × S)
  after_call total s (some e) next = some (record { count = total; err = some e }, s)
  after_call total s none next = next total s

  -- A round of such a loop, whose other rounds are `next`.
  abbrev pub counted_round : ℕ → Call S → (ℕ → Call S) → Call S
  counted_round total call next s = elim (call s) [
    | none ↦ none
    | some r ↦ after_call ((total + r.0.count) % 2 ^ 64) r.1 r.0.err next
  ]

  module _ (written : S → List ℕ) where
    -- A call that ends, and that without an error has appended a text and counted it behind `total`.
    abbrev pub AppendsFrom : ℕ → (ℕ → Call S) → List ℕ → Type 0
    AppendsFrom total call text =
        (s : S)
        → (r : Result) × (t : S) × (call total s ≡ some (r, t))
          × (r.err ≡ none
              → (written t ≡ written s ++ text)
                × (r.count % 2 ^ 64 ≡ (total + length text) % 2 ^ 64))

    pub nothing-AppendsFrom :
        (total : ℕ) → AppendsFrom total (λ n s. some (record { count = n; err = none }, s)) []
    nothing-AppendsFrom total s = (
      record { count = total; err = none },
      s,
      refl,
      λ good. (sym (append-nil (written s)), omega arith),
    )

    pub AppendsFrom-Appends :
        (call : ℕ → Call S) (text : List ℕ)
        → AppendsFrom 0 call text
        → (s : S) → Appends written (call 0) text s
    AppendsFrom-Appends call text h s =
        let r = h s in
        record {
          result = r.0;
          after = r.1;
          ends = r.2;
          appends = λ good. (r.3 good).0;
          counts = λ good. omega (arith, (r.3 good).1);
        }

    counted_round-call :
        (total : ℕ) (call : Call S) (next : ℕ → Call S) (s t : S) (r : Result)
        (e : Option ErrorCondition)
        → call s ≡ some (r, t)
        → r.err ≡ e
        → counted_round total call next s ≡ after_call ((total + r.count) % 2 ^ 64) t e next
    counted_round-call total call next s t r e h k =
        ap
          (λ (o : Option (Result × S)). elim o [
            | none ↦ none
            | some r ↦ after_call ((total + r.0.count) % 2 ^ 64) r.1 r.0.err next
          ])
          h
        ∙ ap (λ e. after_call ((total + r.count) % 2 ^ 64) t e next) k

    -- A loop whose first round appends `front`, and whose other rounds append `rest`.
    pub counted_round-AppendsFrom :
        (total : ℕ) (front rest text : List ℕ) (call : Call S) (next loop : ℕ → Call S)
        → front ++ rest ≡ text
        → ((s : S) → Appends written call front s)
        → ((n : ℕ) → AppendsFrom n next rest)
        → ((s : S) → loop total s ≡ counted_round total call next s)
        → AppendsFrom total loop text
    counted_round-AppendsFrom total front rest text call next loop e first h same s =
        let one = first s in
        let total' = (total + one.result.count) % 2 ^ 64 in
        elim (Option-cases one.result.err) [
          | inr (err, bad) ↦ (
            record { count = total'; err = some err },
            one.after,
            same s
                ∙ counted_round-call total call next s one.after one.result (some err) one.ends bad,
            λ good. absurd (cc (good)),
          )
          | inl good ↦
              let later = h total' one.after in
              (
                later.0,
                later.1,
                same s
                    ∙ counted_round-call total call next s one.after one.result none one.ends good
                    ∙ later.2,
                λ well. (
                  (later.3 well).0
                      ∙ ap (λ t. t ++ rest) (one.appends good)
                      ∙ append_assoc (written s) front rest
                      ∙ ap (λ t. written s ++ t) e,
                  omega (
                    arith,
                    (later.3 well).1,
                    one.counts good,
                    length-append front rest,
                    ap length e,
                  ),
                ),
              )
        ]
