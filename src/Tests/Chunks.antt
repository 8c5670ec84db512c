-- ===== src/Tests/Chunks.antt =====
-- The chunked writer and the chunked reader over a string.

use cppnet.Prelude.{List, Option, [], arith, none, refl, take, codes, false, some, ℕ, ◌≡◌}
use cppnet.Prelude.Memory.{done}
use cppnet.Io.{Writer, Result, Reader, ReadResult, ErrorCondition}
use cppnet.Io.Sources.{StringReader, string_read}
use cppnet.Io.Sources.Deliver.{string_content, string_read-next}
use cppnet.Http.ChunkedReader.Size.{get_next_chunk_size-decimal_text}
use cppnet.Http.ChunkedReader.{ChunkedReader, chunked_read, get_next_chunk_size}
use cppnet.Io.StringWriter.{StringWriter, string_write, build_string, string_write-IsSink}
use cppnet.Io.BufferedReader.{failed}
use cppnet.Http.ChunkedWriter.{chunked_write}
use cppnet.Http.ChunkedWriter.Chunk.{chunked_write-Chunked}

abbrev strings : Writer StringWriter
strings = record { write_some = string_write }

abbrev greeting : List ℕ
greeting = codes "Hello, world"

chunked_write-Chunked_example :
    (o : Result × StringWriter) × (chunked_write strings greeting [] ≡ done (some o))
    × (failed o.0.err ≡ false
        → (o.0.count ≡ 12) × (build_string o.1 ≡ codes "12\r\nHello, world\r\n"))
chunked_write-Chunked_example =
    chunked_write-Chunked strings build_string string_write-IsSink greeting [] (omega arith)
      (omega arith)

abbrev string_source : Reader StringReader
string_source = record { read_some = string_read }

abbrev chunks : ChunkedReader StringReader
chunks = record {
  parent = record { view = codes "5\r\nHello\r\n7\r\n, world\r\n0\r\n\r\n"; idx = 0 };
  current_chunk_size = 0;
}

abbrev bytes_and_error :
    Option (ReadResult × ChunkedReader StringReader) → Option (List ℕ × Option ErrorCondition)
bytes_and_error none = none
bytes_and_error (some r) = some (r.0.bytes, r.0.err)

-- Two chunks, and the last one, which is empty.
two_chunks : bytes_and_error (chunked_read string_source 8 20 chunks) ≡ some (greeting, none)
unfolding chunked_read string_read
two_chunks = refl

-- A span that is full in the middle of a chunk.
part_of_chunks :
    bytes_and_error (chunked_read string_source 8 7 chunks) ≡ some (take 7 greeting, none)
unfolding chunked_read string_read
part_of_chunks = refl

get_next_chunk_size-decimal_text_example :
    (o : ChunkedReader StringReader) × (get_next_chunk_size string_source 3
        (record { parent = record { view = codes "12\r\nHello"; idx = 0 }; current_chunk_size = 0 })
      ≡ some (none, o))
    × (o.current_chunk_size ≡ 12)
    × (string_content o.parent ≡ codes "Hello")
get_next_chunk_size-decimal_text_example =
    get_next_chunk_size-decimal_text string_source string_content string_read-next 8 12
      (record { parent = record { view = codes "12\r\nHello"; idx = 0 }; current_chunk_size = 0 })
      (codes "Hello") (omega arith) (omega arith) refl
