-- ===== src/Io/BufferedReader/Byte.antt =====
-- A byte at a time: `peek`, and a read of what it has shown.

use cppnet.Prelude.{
  ℕ, List, Option, [], ap, arith, drop, length, none, refl, some, sym, ◌++◌, ◌<◌, ◌∙◌, ◌∷◌, ◌≡◌,
  false, get_elem?, leb, length-append, true, ◌-◌, ◌==◌, ap₂, take,
}
use cppnet.Prelude.Memory.{Run, done}
use cppnet.Io.{Reader, IsSource, ErrorCondition, Feeds}
use cppnet.Io.BufferedReader.{BufferedReader, fill, peek, buffered_read, shift_back}
use cppnet.Io.BufferedReader.Read.{shift_back-drop}
use cppnet.Io.BufferedReader.Deliver.{fill-whole, fill-IsValid, IsValid, whole}

module _ {S : Type 0} (rd : Reader S) (Ok : S → Type 0) (held : S → List ℕ)
    (src : IsSource rd Ok held) (overlapping : List ℕ → ℕ → Run (List ℕ)) where
  -- What peek leaves: the next byte in front of the buffer.
  abbrev pub Peeked : ℕ → List ℕ → Option ℕ × BufferedReader S → Type 0
  Peeked c rest p =
      (p.0 ≡ some c)
      × (buf : List ℕ) × (p.1.buf ≡ c ∷ buf)
      × (buf ++ held p.1.impl ≡ rest)
      × IsValid rd Ok held p.1

  heads : (c c' : ℕ) (xs ys : List ℕ) → c ∷ xs ≡ c' ∷ ys → (c ≡ c') × (xs ≡ ys)
  heads c c' xs ys e = (cc (e), cc (e))

  -- A buffer that is not empty holds the next byte.
  whole-byte :
      (s : BufferedReader S) (c : ℕ) (rest : List ℕ)
      → 0 < length s.buf
      → whole rd Ok held s ≡ c ∷ rest
      → (buf : List ℕ) × (s.buf ≡ c ∷ buf) × (buf ++ held s.impl ≡ rest)
  whole-byte s c rest some_bytes e = go s.buf refl
    where
      go :
          (b : List ℕ)
          → s.buf ≡ b
          → (buf : List ℕ) × (s.buf ≡ c ∷ buf) × (buf ++ held s.impl ≡ rest)
      go [] eb = absurd (omega (arith, ap length eb))
      go (x ∷ xs) eb =
          let parts =
            heads x c (xs ++ held s.impl) rest (ap (λ t. t ++ held s.impl) (sym eb) ∙ e) in
          (xs, eb ∙ ap (λ y. y ∷ xs) parts.0, parts.1)

  -- A buffer that is empty is filled.
  fill-byte :
      (s : BufferedReader S)
      → Feeds rd Ok held
      → IsValid rd Ok held s
      → s.buf ≡ []
      → 0 < length (held s.impl)
      → 0 < length (fill rd s).buf
  unfolding fill
  fill-byte s feeds (ok, room, some_room) empty some_held =
      let size : length s.buf ≡ 0 = ap length empty in
      let space : (length s.buf == s.capacity) ≡ false = ground (arith, size, some_room) in
      let k = s.capacity - length s.buf in
      let r = rd.read_some k s.impl in
      rw space
        (omega (arith, length-append s.buf r.0.bytes, feeds k s.impl ok (omega arith) some_held))

  peek_parts :
      (impl : S) (buf : List ℕ) (capacity : ℕ) (err : Option ErrorCondition) (c : ℕ) (rest : List ℕ)
      → let s : BufferedReader S = record {
        impl = impl;
        buf = buf;
        capacity = capacity;
        err = err;
      } in
        Feeds rd Ok held
        → IsValid rd Ok held s
        → whole rd Ok held s ≡ c ∷ rest
        → Peeked c rest (peek rd s)
  unfolding peek
  peek_parts impl (x ∷ xs) capacity err c rest feeds valid e =
      let parts = heads x c (xs ++ held impl) rest e in
      (ap some parts.0, xs, ap (λ y. y ∷ xs) parts.0, parts.1, valid)
  peek_parts impl [] capacity err c rest feeds valid e =
      let s : BufferedReader S = record { impl = impl; buf = []; capacity = capacity; err = err } in
      let some_bytes = fill-byte s feeds valid refl (omega (arith, ap length e)) in
      let byte = whole-byte (fill rd s) c rest some_bytes (fill-whole rd Ok held src s valid ∙ e) in
      (ap (λ b. get_elem? b 0) byte.1, byte.0, byte.1, byte.2, fill-IsValid rd Ok held src s valid)

  pub peek-Peeked :
      (s : BufferedReader S) (c : ℕ) (rest : List ℕ)
      → Feeds rd Ok held
      → IsValid rd Ok held s
      → whole rd Ok held s ≡ c ∷ rest
      → Peeked c rest (peek rd s)
  peek-Peeked s c rest feeds valid e = peek_parts s.impl s.buf s.capacity s.err c rest feeds valid e

  -- A read of one byte that the buffer holds.
  pub buffered_read-byte :
      (s : BufferedReader S) (c : ℕ) (buf : List ℕ)
      → ((buf : List ℕ) (k : ℕ) → overlapping buf k ≡ done (drop k buf))
      → s.buf ≡ c ∷ buf
      → buffered_read rd overlapping 1 s
        ≡ done (
            some (
              record { bytes = c ∷ []; err = none },
              record { impl = s.impl; buf = buf; capacity = s.capacity; err = s.err },
            ))
  unfolding buffered_read
  buffered_read-byte s c buf moves e =
      let held_bytes : leb 1 (length s.buf) ≡ true = ground (arith, ap length e) in
      let shifted : shift_back overlapping s.buf 1 ≡ done (drop 1 s.buf) =
        shift_back-drop overlapping s.buf 1 moves in
      rw (held_bytes, shifted)
        (ap₂
          (λ (t d : List ℕ). done (
            some (
              record { bytes = t; err = none },
              record { impl = s.impl; buf = d; capacity = s.capacity; err = s.err },
            )))
          (ap (take 1) e) (ap (drop 1) e))
