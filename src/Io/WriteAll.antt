-- ===== src/Io/WriteAll.antt =====
-- `write_all` of include/io/writer.hpp: one write after the other, up to the first error.

use cppnet.Prelude.{
  ℕ, List, Option, [], ◌∷◌, ◌++◌, ◌≡◌, ◌%◌, ◌^◌, ◌+◌, length, none, some, Option-cases, ap,
  append-nil, append_assoc, arith, concat, inl, inr, length-append, refl, sym, take_long, ◌∙◌,
}
use mathlib.Core.Path.{subst}
use cppnet.Io.{Writer, Result, ErrorCondition, IsSink}

-- A call of a function that writes, on the state of the writer. `none` is a call that has not ended.
abbrev pub Call : Type 0 → Type 0
Call S = S → Option (Result × S)

abbrev pub counted : ℕ → Result → Result
counted total res = record { count = (total + res.count) % 2 ^ 64; err = res.err }

module _ {S : Type 0} where
  -- `write`, as a call.
  abbrev pub write_text : Writer S → List ℕ → Call S
  write_text out bytes s = some (out.write_some bytes s)

  -- `write` of a char, whose task reads the parameter behind the return of `write`. Whether it is still
  -- there is up to the implementation: `stale` is what the task finds in the place of the char.
  abbrev pub write_char : (ℕ → ℕ) → Writer S → ℕ → Call S
  write_char stale out c = write_text out (stale c ∷ [])

  -- What is done behind a call: nothing after an error.
  abbrev pub unless_failed :
      Result → S → Option ErrorCondition → Option (Result × S) → Option (Result × S)
  unless_failed res s (some e) rest = some (res, s)
  unless_failed res s none none = none
  unless_failed res s none (some r) = some (counted res.count r.0, r.1)

  pub write_all : List (Call S) → Call S
  write_all [] s = some (record { count = 0; err = none }, s)
  write_all (call ∷ writes) s = elim (call s) [
    | none ↦ none
    | some r ↦ unless_failed r.0 r.1 r.0.err (write_all writes r.1)
  ]

  -- A call that ends, and that without an error has appended a text and counted its bytes.
  pub record Appends (written : S → List ℕ) (call : Call S) (text : List ℕ) (s : S) : Type 0 where
    pub result : Result
    pub after : S
    pub ends : call s ≡ some (result, after)
    pub appends : result.err ≡ none → written after ≡ written s ++ text
    pub counts : result.err ≡ none → result.count % 2 ^ 64 ≡ length text % 2 ^ 64

  -- Calls, each with the text that it appends to whatever was written.
  pub data AllAppend (written : S → List ℕ) : List (Call S) → List (List ℕ) → Type 0 where
    no_more : AllAppend written [] []
    one_more :
        {call : Call S} {text : List ℕ} {calls : List (Call S)} {texts : List (List ℕ)}
        → ((s : S) → Appends written call text s)
        → AllAppend written calls texts
        → AllAppend written (call ∷ calls) (text ∷ texts)

  -- Over a sink, `write` appends its data.
  pub write_text-Appends :
      (out : Writer S) (written : S → List ℕ)
      → IsSink out written
      → (bytes : List ℕ) (s : S) → Appends written (write_text out bytes) bytes s
  write_text-Appends out written sink bytes s =
      let r = out.write_some bytes s in
      record {
        result = r.0;
        after = r.1;
        ends = refl;
        appends = λ good.
            sink.appends bytes s
            ∙ ap (λ t. written s ++ t)
                (take_long r.0.count bytes (omega (arith, sink.all_or_error bytes s good)));
        counts = λ good. ap (λ n. n % 2 ^ 64) (sink.all_or_error bytes s good);
      }

  -- A char that is still in its place is appended.
  pub write_char-Appends :
      (stale : ℕ → ℕ) (out : Writer S) (written : S → List ℕ)
      → IsSink out written
      → (c : ℕ) → stale c ≡ c
      → (s : S) → Appends written (write_char stale out c) (c ∷ []) s
  write_char-Appends stale out written sink c kept s =
      subst (λ d. Appends written (write_text out (d ∷ [])) (c ∷ []) s) (sym kept)
        (write_text-Appends out written sink (c ∷ []) s)

  write_all-cons :
      (call : Call S) (calls : List (Call S)) (s : S) (r : Result) (t : S)
      (e : Option ErrorCondition)
      → call s ≡ some (r, t)
      → r.err ≡ e
      → write_all (call ∷ calls) s ≡ unless_failed r t e (write_all calls t)
  unfolding write_all
  write_all-cons call calls s r t e h k =
      ap
        (λ (o : Option (Result × S)). elim o [
          | none ↦ none
          | some q ↦ unless_failed q.0 q.1 q.0.err (write_all calls q.1)
        ])
        h
      ∙ ap (λ e. unless_failed r t e (write_all calls t)) k

  -- write_all of calls that append texts appends the texts behind one another.
  pub write_all-Appends :
      (written : S → List ℕ) {calls : List (Call S)} {texts : List (List ℕ)}
      → AllAppend written calls texts
      → (s : S) → Appends written (write_all calls) (concat texts) s
  unfolding write_all
  write_all-Appends written no_more s = record {
    result = record { count = 0; err = none };
    after = s;
    ends = refl;
    appends = λ good. sym (append-nil (written s));
    counts = λ good. refl;
  }
  write_all-Appends written
        (one_more {call = call} {text = t} {calls = calls} {texts = texts} first h) s =
      let one = first s in
      elim (Option-cases one.result.err) [
        | inr (e, bad) ↦ record {
          result = one.result;
          after = one.after;
          ends = write_all-cons call calls s one.result one.after (some e) one.ends bad;
          appends = λ good. absurd (cc (bad, good));
          counts = λ good. absurd (cc (bad, good));
        }
        | inl good ↦
            let two = write_all-Appends written h one.after in
            record {
              result = counted one.result.count two.result;
              after = two.after;
              ends =
                  write_all-cons call calls s one.result one.after none one.ends good
                  ∙ ap (unless_failed one.result one.after none) two.ends;
              appends = λ well.
                  two.appends well
                  ∙ ap (λ u. u ++ concat texts) (one.appends good)
                  ∙ append_assoc (written s) t (concat texts);
              counts = λ well.
                  omega (arith, one.counts good, two.counts well, length-append t (concat texts));
            }
      ]
