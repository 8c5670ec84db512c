-- ===== src/Lib.antt =====
-- cppnet is a C++ library for network programs: codecs, strings and containers, readers and writers,
-- and on top of them http over sockets and coroutines. This library models the parts that compute, and
-- states what makes them correct.
--
-- Encoding/Hex models src/encoding/hex.cpp and Encoding/Base64 models src/encoding/base64.cpp, both
-- with their headers under include/encoding. A buffer is a list, an access outside of it is `fault`
-- (Prelude/Memory), and so is a call that ends a noexcept function by an exception. The functions keep
-- their names; a loop of a function f is f_loop, or is named for what it goes over. Where an input is
-- a span inside a larger buffer, `Span` holds what the place behind it gives. The other files of the
-- two folders state the text of a list of bytes in plain arithmetic, and prove the functions against
-- it.
--
-- Util/RingBuffer models include/util/ring_buffer.hpp. `Holds` says that a ring holds a queue.
-- Util/StringUtil models include/util/string_util.hpp. A loop takes fuel: split_string gets two rounds
-- more than the input has chars, since each round but the last passes a separator; replace and
-- replace_all get a round for each char, since each takes one off the view, if no pattern is empty.
--
-- Io models include/io/reader.hpp, writer.hpp and io.hpp: a reader is a function on the states of its
-- object, and `IsSource` and `IsSink` are what readers and writers promise. Io/Sources models
-- string_reader, limit_reader and buffer, Io/StringWriter models string_writer, Io/BufferedReader
-- models src/io/buffered_reader.cpp, and Io/BufferedWriter models src/io/buffered_writer.cpp, over any
-- reader or writer. co_await is a call. The loops take one round more than the span has bytes, since
-- each round moves at least one. What copy_backward does where the standard asks for another
-- destination is a parameter. Tests applies the theorems to concrete inputs.
--
-- Url models src/url.cpp: Url/Percent its encode and decode, Url/Parser the parser with its state, and
-- Url/Build its build. parse_part is what parse_host, parse_port and parse_path have in common. The
-- map of query values is the list of its entries. encode and decode take a round more than the text
-- has chars. The loop of the parser takes ten rounds more than the input: one for each char of the
-- scheme, and one for each state.
--
-- Http/Router models src/http/router.cpp and the methods of include/http/request.hpp. A handler is a
-- number, and the two maps of a router are lists of entries. Http/ChunkedWriter models
-- src/http/chunked_writer.cpp over any writer; its loop takes one round more than the data has bytes.
-- Http/ChunkedReader models src/http/chunked_reader.cpp over any reader; the fuel of its loops is an
-- argument, since a reader may hand out digits for ever, or no bytes and no error.
--
-- Io/Readline models readline of src/io/util.cpp over a buffered reader: two rounds more than the
-- bytes of a line are enough. Http/Status models the statuses of include/http/response.hpp and
-- src/http/response.cpp, and Http/Headers the map of src/http/headers.cpp, as a list of entries.
-- Http/Http11 models src/http/http11.cpp over any source of lines (`IsLines`), which readline is. Its
-- loop over the fields takes a round more than max_read, since each round but the last reads a byte. A
-- message is the list of the texts that are written for it. `uri_of` faults where url::parse throws.
-- Prelude/Chars is std::from_chars and the decimal texts.
--
-- Util/ResourcePool models include/util/resource_pool.hpp. An operation runs under the lock, and a
-- wait gives it up, so threads are a step relation: one step is an operation, or the part of one up to
-- its wait or behind it. A wait may end without a notification. A thread gives back only what it has
-- borrowed, though put takes any resource. There are fewer than 2^62 threads, and the maximal size is
-- below 2^63. Util/Cache models include/util/cache.hpp: nodes have numbers, and an iterator is one.
-- `before_begin` is what std::prev gives for the first entry, which the standard leaves undefined; it
-- is end() where a list is a ring. The loop of evict takes a round more than there are entries, since
-- each round clears the mark of one. The marks are atomic, and get runs alone.
--
-- Addr/Ipv4 models src/ipv4_addr.cpp and include/ipv4_addr.hpp, Addr/Ipv6 models src/ipv6_addr.cpp and
-- include/ipv6_addr.hpp, and Addr/IpAddr their union, src/ip_addr.cpp. The four elements of the first
-- array are the fields of a record, the sixteen of the second a list.
--
-- Io/WriteAll models write_all of include/io/writer.hpp: a call that writes is a function on the
-- states of the writer, and `Appends` says that it ends, and what it has appended if it has no error.
-- Io/Counted states it of loops that count, and Util/StringUtil/ReplaceTo of replace_all_to a writer.
-- A task starts when it is awaited: write of a char reads its own parameter behind its return, and
-- `stale` is what is in its place then. Instrument/Prometheus models the metrics of
-- src/instrument/prometheus: Metric the data of include/instrument/prometheus/metric.hpp, Histogram
-- the constructor and observe of src/instrument/prometheus/histogram.cpp, whose `double` is a
-- parameter, and Registry the table of src/instrument/prometheus/registry.cpp. Instrument/TraceContext
-- models src/instrument/opentelemetry/tracecontext.cpp, with the hex codec and the headers above.
--
-- Pattern models src/pattern/pattern.cpp: Pattern/Parse the parser up to the postfix form, with a
-- round for each char, and Pattern/Match the states and match, whose fuel is an argument, since an
-- empty literal may repeat for ever.
--
-- Not modelled: the texts of the metrics, whose functions return tasks that read temporaries which are
-- gone when the tasks start; the cache of base64 decoders, and the locks outside of Util; allocation
-- failure, except above max_size; sockets, event loops and coroutine frames, which are system calls;
-- the last loop of the parser of patterns, which drops what the others put out; counters and gauges;
-- the JSON of traces; the http client and server, and http/2.
pub mod Prelude
pub mod Encoding
pub mod Util
pub mod Io
pub mod Tests
pub mod Url
pub mod Http
pub mod Addr
pub mod Instrument
pub mod Pattern
