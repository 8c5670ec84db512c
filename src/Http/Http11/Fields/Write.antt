-- ===== src/Http/Http11/Fields/Write.antt =====
-- What the writes of a message leave in a writer.

use cppnet.Prelude.{
  concat, ℕ, List, Option-cases, [], ap, append-nil, append_assoc, codes, inl, inr, none, refl, sym,
  ◌++◌, ◌∙◌, ◌∷◌, ◌≡◌, Option, arith, some, take_long,
}
use cppnet.Io.{ErrorCondition, Writer, IsSink}
use cppnet.Http.Http11.Fields.{unless_error, write_pieces, header_pieces}
use cppnet.Http.Http11.Fields.RoundTrip.{Field, headers_of, fields_text}

module _ {S : Type 0} (wr : Writer S) (written : S → List ℕ) (sink : IsSink wr written) where
  write_pieces-cons :
      (p : List ℕ) (pieces : List (List ℕ)) (s : S) (e : Option ErrorCondition)
      → (wr.write_some p s).0.err ≡ e
      → write_pieces wr (p ∷ pieces) s
        ≡ unless_error wr e (wr.write_some p s).1 (write_pieces wr pieces (wr.write_some p s).1)
  unfolding write_pieces
  write_pieces-cons p pieces s e h =
      ap
        (λ e.
          unless_error wr e (wr.write_some p s).1 (write_pieces wr pieces (wr.write_some p s).1))
        h

  -- Over a sink, writes without an error have appended all of the texts.
  pub write_pieces-concat :
      (pieces : List (List ℕ)) (s : S)
      → (write_pieces wr pieces s).0 ≡ none
      → written (write_pieces wr pieces s).1 ≡ written s ++ concat pieces
  unfolding write_pieces
  write_pieces-concat [] s h = sym (append-nil (written s))
  write_pieces-concat (p ∷ pieces) s h = elim (Option-cases (wr.write_some p s).0.err) [
    | inl good ↦
        let r = wr.write_some p s in
        let step = write_pieces-cons p pieces s none good in
        let all = take_long r.0.count p (omega (arith, sink.all_or_error p s good)) in
        ap (λ q. written q.1) step
        ∙ write_pieces-concat pieces r.1 (ap (λ q. q.0) (sym step) ∙ h)
        ∙ ap (λ t. t ++ concat pieces) (sink.appends p s ∙ ap (λ t. written s ++ t) all)
        ∙ append_assoc (written s) p (concat pieces)
    | inr (e, bad) ↦
        let step = write_pieces-cons p pieces s (some e) bad in
        let clash : some e ≡ none = ap (λ q. q.0) (sym step) ∙ h in absurd (cc (clash))
  ]

-- The texts of fields with one value each are their lines.
pub concat-header_pieces :
    (fields : List Field) (tail : List ℕ)
    → concat (header_pieces (headers_of fields) ++ (codes "\r\n" ∷ [])) ++ tail
      ≡ fields_text fields tail
concat-header_pieces [] tail = refl
concat-header_pieces (f ∷ fields) tail =
    let rest = concat (header_pieces (headers_of fields) ++ (codes "\r\n" ∷ [])) in
    append_assoc f.0 (b':' ∷ (b' ' ∷ (f.1 ++ (13 ∷ 10 ∷ rest)))) tail
    ∙ ap (λ t. f.0 ++ (b':' ∷ (b' ' ∷ t)))
        (append_assoc f.1 (13 ∷ 10 ∷ rest) tail
          ∙ ap (λ t. f.1 ++ (13 ∷ 10 ∷ t)) (concat-header_pieces fields tail))
    ∙ sym (append_assoc f.0 (b':' ∷ (b' ' ∷ f.1)) (13 ∷ 10 ∷ fields_text fields tail))
