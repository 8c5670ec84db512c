-- ===== src/Tests/Streams.antt =====
-- The buffered reader and writer over lists of bytes.

use cppnet.Prelude.{
  List, [], ap, arith, drop, length, none, refl, some, suc, sym, take_long, zero, ℕ, ◌++◌, ◌∷◌, ◌≡◌,
  ◌≤◌,
}
use cppnet.Prelude.Memory.{Run, done}
use cppnet.Io.{Reader, Writer, ReadResult, Result, IsSource, IsSink, Progresses, status, closed}
use cppnet.Io.BufferedReader.{BufferedReader, buffered_read}
use cppnet.Io.BufferedReader.Read.{Delivers, buffered_read-Delivers}
use cppnet.Io.BufferedWriter.{BufferedWriter, buffered_write}
use cppnet.Io.BufferedWriter.Write.{Appends, buffered_write-Appends}

-- A source of one byte after the other, which reports its end.
abbrev bytewise_read : ℕ → List ℕ → ReadResult × List ℕ
bytewise_read n [] = (record { bytes = []; err = some (status closed) }, [])
bytewise_read zero (b ∷ bs) = (record { bytes = []; err = none }, b ∷ bs)
bytewise_read (suc n) (b ∷ bs) = (record { bytes = b ∷ []; err = none }, bs)

abbrev bytewise : Reader (List ℕ)
bytewise = record { read_some = bytewise_read }

abbrev Always : List ℕ → Type 0
Always bs = Unit

bytewise-IsSource : IsSource bytewise Always (λ bs. bs)
bytewise-IsSource = record { delivers = delivers; fits = fits; keeps = λ n s h. tt }
  where
    delivers :
        (n : ℕ) (s : List ℕ) → Unit {0} → (bytewise_read n s).0.bytes ++ (bytewise_read n s).1 ≡ s
    delivers zero [] h = refl
    delivers (suc n) [] h = refl
    delivers zero (b ∷ bs) h = refl
    delivers (suc n) (b ∷ bs) h = refl

    fits : (n : ℕ) (s : List ℕ) → Unit {0} → length (bytewise_read n s).0.bytes ≤ n
    fits zero [] h = omega arith
    fits (suc n) [] h = omega arith
    fits zero (b ∷ bs) h = omega arith
    fits (suc n) (b ∷ bs) h = omega arith

bytewise-Progresses : Progresses bytewise Always
bytewise-Progresses zero [] h hn e = absurd (omega arith)
bytewise-Progresses zero (b ∷ bs) h hn e = absurd (omega arith)
bytewise-Progresses (suc n) [] h hn e = absurd (ground (arith, e))
bytewise-Progresses (suc n) (b ∷ bs) h hn e = omega arith

abbrev moving : List ℕ → ℕ → Run (List ℕ)
moving buf n = done (drop n buf)

abbrev filled : BufferedReader (List ℕ)
filled = record { impl = 6 ∷ 7 ∷ 8 ∷ 9 ∷ []; buf = 1 ∷ 2 ∷ 3 ∷ []; capacity = 3; err = none }

buffered_read-Delivers_example :
    (o : ReadResult × BufferedReader (List ℕ)) × (buffered_read bytewise moving 5 filled
      ≡ done (some o))
    × Delivers bytewise Always (λ bs. bs) 5 (1 ∷ 2 ∷ 3 ∷ 6 ∷ 7 ∷ 8 ∷ 9 ∷ []) o
buffered_read-Delivers_example =
    buffered_read-Delivers bytewise Always (λ bs. bs) bytewise-IsSource moving 5 filled
      (λ buf k. refl) bytewise-Progresses (tt, omega arith, omega arith)

-- A sink that takes everything.
abbrev memory : Writer (List ℕ)
memory = record {
  write_some = λ bytes s. (record { count = length bytes; err = none }, s ++ bytes);
}

memory-IsSink : IsSink memory (λ s. s)
memory-IsSink = record {
  appends = λ bytes s. ap (λ t. s ++ t) (sym (take_long (length bytes) bytes (omega arith)));
  counts = λ bytes s. omega arith;
  all_or_error = λ bytes s e. refl;
}

abbrev half_full : BufferedWriter (List ℕ)
half_full = record { impl = 1 ∷ []; buf = 2 ∷ []; capacity = 2 }

buffered_write-Appends_example :
    (o : Result × BufferedWriter (List ℕ)) × (buffered_write memory moving
        (3 ∷ 4 ∷ 5 ∷ 6 ∷ [])
        half_full
      ≡ done (some o))
    × Appends memory (λ s. s) memory-IsSink (3 ∷ 4 ∷ 5 ∷ 6 ∷ []) (1 ∷ 2 ∷ []) o
buffered_write-Appends_example =
    buffered_write-Appends memory (λ s. s) memory-IsSink moving (3 ∷ 4 ∷ 5 ∷ 6 ∷ []) half_full
      (λ b k. refl) (omega arith) (omega arith)
