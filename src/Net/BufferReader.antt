-- ===== src/Net/BufferReader.antt =====
-- src/net/BufferReader.h and BufferReader.cpp: the receive buffer of a connection. Pointers into the
-- buffer are offsets from `Peek()`; `recv` is the operating system's.
pub mod Search
pub mod Laws
use stream_sight.Base.{
  ℕ, ◌+◌, ◌-◌, ◌*◌, ◌≤◌, Bool, Option, none, some, List, [], ◌∷◌, ◌++◌, if◌then◌else◌, ltb, leb,
  ◌==◌, length, take, drop, replicate,
}
use Search.{search, find_end}

pub record BufferReader : Type 0 where
  pub buffer : List ℕ
  pub reader_index : ℕ
  pub writer_index : ℕ

abbrev pub max_bytes_per_read : ℕ
max_bytes_per_read = 4096

abbrev pub max_buffer_size : ℕ
max_buffer_size = 1024 * 100000

abbrev pub crlf : List ℕ
crlf = 13 ∷ 10 ∷ []

abbrev pub crlf_crlf : List ℕ
crlf_crlf = 13 ∷ 10 ∷ 13 ∷ 10 ∷ []

-- What `recv` answers: bytes, the end of the stream (0), or an error (-1).
pub data Received : Type 0 where
  bytes : List ℕ → Received
  closed failed : Received

unfoldable pub create : ℕ → BufferReader
create initial_size = record {
  buffer = replicate initial_size 0;
  reader_index = 0;
  writer_index = 0;
}

abbrev pub readable_bytes : BufferReader → ℕ
readable_bytes b = b.writer_index - b.reader_index

abbrev pub writable_bytes : BufferReader → ℕ
writable_bytes b = length b.buffer - b.writer_index

-- The bytes from `Peek()` up to `BeginWrite()`.
unfoldable pub peek : BufferReader → List ℕ
peek b = take (b.writer_index - b.reader_index) (drop b.reader_index b.buffer)

unfoldable pub find_first_crlf : BufferReader → Option ℕ
find_first_crlf b = search crlf (peek b)

unfoldable pub find_last_crlf : BufferReader → Option ℕ
find_last_crlf b = find_end crlf (peek b)

unfoldable pub find_last_crlf_crlf : BufferReader → Option ℕ
find_last_crlf_crlf b = find_end crlf_crlf (peek b)

unfoldable pub retrieve_all : BufferReader → BufferReader
retrieve_all b = record b { reader_index = 0; writer_index = 0 }

-- `RetrieveUntil(end)` is `Retrieve(end - Peek())`.
unfoldable pub retrieve : BufferReader → ℕ → BufferReader
unfolding retrieve_all
retrieve b len =
    if leb len (readable_bytes b)
    then if b.reader_index + len == b.writer_index
      then retrieve_all b
      else record b { reader_index = b.reader_index + len }
    else retrieve_all b

-- `buffer_.resize(bufferReaderSize + MAX_BYTES_PER_READ)`
unfoldable pub grow : BufferReader → BufferReader
grow b = record b { buffer = b.buffer ++ replicate max_bytes_per_read 0 }

-- `recv(sockfd, beginWrite(), …)` and `writer_index_ += bytes_read`.
unfoldable pub receive : BufferReader → Received → BufferReader × Received
receive b (bytes bs) = (
  record b {
    buffer = take b.writer_index b.buffer ++ (bs ++ drop (b.writer_index + length bs) b.buffer);
    writer_index = b.writer_index + length bs;
  },
  bytes bs,
)
receive b closed = (b, closed)
receive b failed = (b, failed)

-- A buffer over the limit answers 0, as a closed connection does, and `recv` is not called.
unfoldable pub read : BufferReader → Received → BufferReader × Received
read b answer =
    if ltb (writable_bytes b) max_bytes_per_read
    then if ltb max_buffer_size (length b.buffer) then (b, closed) else receive (grow b) answer
    else receive b answer

-- The bytes go to `data`; the number of them is returned.
unfoldable pub read_all : BufferReader → BufferReader × List ℕ
unfolding retrieve_all
read_all b = if ltb 0 (readable_bytes b) then (retrieve_all b, peek b) else (b, [])

unfoldable pub read_until_crlf : BufferReader → BufferReader × Option (List ℕ)
read_until_crlf b = elim (find_last_crlf b) [
  | none ↦ (b, none)
  | some at ↦ (retrieve b (at + 2), some (take (at + 2) (peek b)))
]
