-- ===== src/Io/Sources/Deliver.antt =====
-- The readers hand out what they hold, in order and once.

use cppnet.Prelude.{
  [], false, none, length-drop, ◌∷◌, Bool-cases, List, arith, drop, inl, inr, leb, length,
  length-take, min, refl, take, ℕ, ◌++◌, ◌+◌, ◌-◌, ◌==◌, ◌≡◌, ◌≤◌, ap, drop-drop, sym,
  take-append-drop, take-append_long, ◌∙◌,
}
use cppnet.Io.{Feeds, Reader, IsSource, ReadResult}
use cppnet.Io.Sources.{StringReader, string_read, LimitReader, limit_read, Buffer, buffer_read}

take-drop : (n i : ℕ) (xs : List ℕ) → take n (drop i xs) ++ drop (i + n) xs ≡ drop i xs
take-drop n i xs =
    ap (λ t. take n (drop i xs) ++ t) (sym (drop-drop i n xs)) ∙ take-append-drop n (drop i xs)

abbrev pub StringReaderIsValid : StringReader → Type 0
StringReaderIsValid s = s.idx ≤ length s.view

abbrev pub string_content : StringReader → List ℕ
string_content s = drop s.idx s.view

-- A `string_reader` hands out its view from `idx` on.
pub string_read-IsSource :
    IsSource (record { read_some = string_read }) StringReaderIsValid string_content
unfolding string_read
string_read-IsSource = record {
  delivers = λ n s h. elim (Bool-cases (s.idx == length s.view)) [
    | inl e ↦ rw e refl
    | inr e ↦ rw e (take-drop (min (length s.view - s.idx) n) s.idx s.view)
  ];
  fits = λ n s h. elim (Bool-cases (s.idx == length s.view)) [
    | inl e ↦ rw e (omega arith)
    | inr e ↦ rw e (omega (arith, length-take (min (length s.view - s.idx) n) (drop s.idx s.view)))
  ];
  keeps = λ n s h. elim (Bool-cases (s.idx == length s.view)) [
    | inl e ↦ rw e h
    | inr e ↦ rw e (omega arith)
  ];
}

-- To a span of one byte it gives the next one.
pub string_read-next :
    (s : StringReader) (b : ℕ) (rest : List ℕ)
    → string_content s ≡ b ∷ rest
    → ((string_read 1 s).0 ≡ record { bytes = b ∷ []; err = none })
      × (string_content (string_read 1 s).1 ≡ rest)
unfolding string_read
string_read-next s b rest e =
    let left : length s.view - s.idx ≡ length rest + 1 =
      omega (arith, length-drop s.idx s.view, ap length e) in
    let more : (s.idx == length s.view) ≡ false = ground (arith, left) in
    let one : min (length s.view - s.idx) 1 ≡ 1 = omega (arith, left) in
    let one_byte : List ℕ → ReadResult = λ t. record { bytes = take 1 t; err = none } in
    (
      rw (more, one) (ap one_byte e),
      rw (more, one) (sym (drop-drop s.idx 1 s.view) ∙ ap (λ t. drop 1 t) e),
    )

pub string_read-Feeds :
    Feeds (record { read_some = string_read }) StringReaderIsValid string_content
unfolding string_read
string_read-Feeds n s valid hn hs =
    let left = length-drop s.idx s.view in
    let more : (s.idx == length s.view) ≡ false = ground (arith, left, hs) in
    let size = length-take (min (length s.view - s.idx) n) (drop s.idx s.view) in
    rw more (omega (arith, left, size))

abbrev pub BufferIsValid : Buffer → Type 0
BufferIsValid s = s.read_at ≤ length s.content

abbrev pub buffer_content : Buffer → List ℕ
buffer_content s = drop s.read_at s.content

-- A `buffer` hands out its content from `read_at` on.
buffer_read-IsSource : IsSource (record { read_some = buffer_read }) BufferIsValid buffer_content
unfolding buffer_read
buffer_read-IsSource = record {
  delivers = λ n s h. take-drop (min n (length s.content - s.read_at)) s.read_at s.content;
  fits = λ n s h.
      omega (arith, length-take (min n (length s.content - s.read_at)) (drop s.read_at s.content));
  keeps = λ n s h. omega arith;
}

module _ {S : Type 0} (rd : Reader S) (Ok : S → Type 0) (held : S → List ℕ) where
  abbrev pub LimitReaderIsValid : LimitReader S → Type 0
  LimitReaderIsValid s = Ok s.parent × (s.progress ≤ s.limit)

  abbrev pub limit_content : LimitReader S → List ℕ
  limit_content s = take (s.limit - s.progress) (held s.parent)

  take_more :
      (n : ℕ) (xs ys zs : List ℕ)
      → xs ++ ys ≡ zs
      → length xs ≤ n
      → xs ++ take (n - length xs) ys ≡ take n zs
  take_more n xs ys zs h hn = rw (← h) (sym (take-append_long n xs ys hn))

  -- A `limit_reader` hands out what its parent holds, up to the limit.
  limit_read-IsSource :
      IsSource rd Ok held
      → IsSource (record { read_some = limit_read rd }) LimitReaderIsValid limit_content
  unfolding limit_read
  limit_read-IsSource src = record {
    delivers = λ n s h. elim (Bool-cases (leb s.limit s.progress)) [
      | inl e ↦ rw e refl
      | inr e ↦
          let k = min n (s.limit - s.progress) in
          let r = rd.read_some k s.parent in
          let short = src.fits k s.parent h.0 in
          let left : s.limit - (s.progress + length r.0.bytes)
              ≡ s.limit - s.progress - length r.0.bytes =
            omega arith in
          rw (e, left)
            (take_more (s.limit - s.progress) r.0.bytes (held r.1) (held s.parent)
              (src.delivers k s.parent h.0) (omega arith))
    ];
    fits = λ n s h. elim (Bool-cases (leb s.limit s.progress)) [
      | inl e ↦ rw e (omega arith)
      | inr e ↦ rw e (omega (arith, src.fits (min n (s.limit - s.progress)) s.parent h.0))
    ];
    keeps = λ n s h. elim (Bool-cases (leb s.limit s.progress)) [
      | inl e ↦ rw e h
      | inr e ↦
          let k = min n (s.limit - s.progress) in
          rw e (src.keeps k s.parent h.0, omega (arith, src.fits k s.parent h.0))
    ];
  }
