-- ===== src/Net/BufferReader/Laws.antt =====
-- What the operations of the receive buffer do to the bytes that wait in it.
use stream_sight.Base.{
  ℕ, ◌+◌, ◌-◌, ◌≤◌, ◌<◌, ◌≡◌, refl, sym, ap, ◌∙◌, inl, inr, false, Option, none, some, List, [],
  ◌++◌, ltb, leb, ◌==◌, length, take, drop, replicate, append_assoc, length-replicate, ltb-false,
  ltb-false→le, arith, Bool-cases, Option-cases, length-append, length-take, length-drop, drop-take,
  drop-drop, drop-all, take-append-drop, take-append, drop-append_le, take-append_le,
}
use stream_sight.Net.BufferReader.{
  BufferReader, bytes, peek, retrieve, retrieve_all, grow, receive, read, read_until_crlf,
  find_last_crlf, crlf, max_bytes_per_read, max_buffer_size,
}
use stream_sight.Net.BufferReader.Search.{find_end, starts_with, find_end-some, find_end-last}

-- The indices stand in order within the buffer.
pub record IsValid (b : BufferReader) : Type 0 where
  pub ordered : b.reader_index ≤ b.writer_index
  pub within : b.writer_index ≤ length b.buffer

pub length-peek : {b : BufferReader} → IsValid b → length (peek b) ≡ b.writer_index - b.reader_index
unfolding peek
length-peek {b} v = omega (
  arith,
  length-take (b.writer_index - b.reader_index) (drop b.reader_index b.buffer),
  length-drop b.reader_index b.buffer,
)

peek-retrieve_all : (b : BufferReader) → peek (retrieve_all b) ≡ []
unfolding peek retrieve_all
peek-retrieve_all b = refl

peek_advance :
    (b : BufferReader) (n : ℕ)
    → b.reader_index + n ≤ b.writer_index
    → peek (record b { reader_index = b.reader_index + n }) ≡ drop n (peek b)
unfolding peek
peek_advance b n h =
    let e : b.writer_index - b.reader_index ≡ n + (b.writer_index - (b.reader_index + n)) =
      omega arith in
    rw (
      drop-take n (b.writer_index - b.reader_index) (b.writer_index - (b.reader_index + n))
          (drop b.reader_index b.buffer) e,
      drop-drop b.reader_index n (b.reader_index + n) b.buffer refl,
    )

-- `Retrieve(len)` takes the first `len` bytes away, all of them if there are fewer, and keeps the
-- indices in order.
pub peek-retrieve :
    {b : BufferReader} (len : ℕ)
    → IsValid b
    → IsValid (retrieve b len) × (peek (retrieve b len) ≡ drop len (peek b))
unfolding retrieve
peek-retrieve {b} len v = elim (Bool-cases (leb len (b.writer_index - b.reader_index))) [
  | inr more ↦ rw more (
    omega arith,
    peek-retrieve_all b ∙ sym (drop-all len (peek b) (ground (arith, length-peek v))),
  )
  | inl fits ↦ elim (Bool-cases (b.reader_index + len == b.writer_index)) [
    | inl all ↦
        rw (fits, all)
          (
            omega arith,
            peek-retrieve_all b ∙ sym (drop-all len (peek b) (ground (arith, length-peek v))),
          )
    | inr part ↦
        let le : b.reader_index + len ≤ b.writer_index = ground arith in
        rw (fits, part) (record { ordered = le; within = v.within }, peek_advance b len le)
  ]
]

-- The buffer after `n` bytes are stored at `w`.
length_stored :
    (buf bs : List ℕ) (w : ℕ)
    → w + length bs ≤ length buf
    → length (take w buf ++ (bs ++ drop (w + length bs) buf)) ≡ length buf
length_stored buf bs w h = omega (
  arith,
  length-append (take w buf) (bs ++ drop (w + length bs) buf),
  length-append bs (drop (w + length bs) buf),
  length-take w buf,
  length-drop (w + length bs) buf,
)

window_stored :
    (buf bs : List ℕ) (r w : ℕ)
    → r ≤ w
    → w + length bs ≤ length buf
    → take (w + length bs - r) (drop r (take w buf ++ (bs ++ drop (w + length bs) buf)))
      ≡ take (w - r) (drop r buf) ++ bs
window_stored buf bs r w h k =
    let part = take (w - r) (drop r buf) in
    let rest = drop (w + length bs) buf in
    let l = length-take (w - r) (drop r buf) in
    let l' = length-drop r buf in
    let len : length (part ++ bs) ≡ w + length bs - r = omega (arith, length-append part bs) in
    rw
      (
        drop-append_le r (take w buf) (bs ++ rest) (omega (arith, length-take w buf)),
        drop-take r w (w - r) buf (omega arith),
        ← append_assoc part bs rest,
      )
      (take-append (w + length bs - r) (part ++ bs) rest len)

receive_lem :
    {b : BufferReader} (bs : List ℕ)
    → IsValid b
    → b.writer_index + length bs ≤ length b.buffer
    → let b' = (receive b (bytes bs)).0 in
      IsValid b' × (peek b' ≡ peek b ++ bs) × (length b'.buffer ≡ length b.buffer)
unfolding receive peek
receive_lem {b} bs v h =
    let l = length_stored b.buffer bs b.writer_index h in
    (
      record { ordered = omega arith; within = omega (arith, l) },
      window_stored b.buffer bs b.reader_index b.writer_index v.ordered h,
      l,
    )

grow_lem :
    {b : BufferReader}
    → IsValid b
    → IsValid (grow b)
      × (peek (grow b) ≡ peek b)
      × (length (grow b).buffer ≡ length b.buffer + max_bytes_per_read)
unfolding grow peek
grow_lem {b} v =
    let zeros = replicate max_bytes_per_read 0 in
    let l : length (b.buffer ++ zeros) ≡ length b.buffer + max_bytes_per_read =
      omega (arith, length-append b.buffer zeros, length-replicate {A = ℕ} max_bytes_per_read 0) in
    (
      record { ordered = v.ordered; within = omega (arith, l) },
      rw (drop-append_le b.reader_index b.buffer zeros (omega arith)) (
          take-append_le (b.writer_index - b.reader_index) (drop b.reader_index b.buffer) zeros
            (omega (arith, length-drop b.reader_index b.buffer))),
      l,
    )

-- `Read` with a buffer within its limit appends what `recv` delivers, at most the 4096 bytes that it
-- is asked for, behind the bytes that wait, stores it inside the buffer, and keeps the buffer at
-- most 4096 bytes over the limit.
pub peek-read :
    {b : BufferReader} (bs : List ℕ)
    → IsValid b
    → length b.buffer ≤ max_buffer_size
    → length bs ≤ max_bytes_per_read
    → let (b', answer) = read b (bytes bs) in
      IsValid b'
      × (peek b' ≡ peek b ++ bs)
      × (answer ≡ bytes bs)
      × (length b'.buffer ≤ max_buffer_size + max_bytes_per_read)
unfolding read
peek-read {b} bs v small few =
    elim (Bool-cases (ltb (length b.buffer - b.writer_index) max_bytes_per_read)) [
      | inl tight ↦
          let g = grow_lem v in
          let room : (grow b).writer_index + length bs ≤ length (grow b).buffer =
            let e : (grow b).writer_index ≡ b.writer_index = unfold grow in refl in
            omega (arith, g.2) in
          let r = receive_lem bs g.0 room in
          rw (tight, ltb-false max_buffer_size (length b.buffer) small)
            (r.0, r.1 ∙ ap (λ p. p ++ bs) g.1, unfold receive in refl, omega (arith, r.2, g.2))
      | inr roomy ↦
          let le = ltb-false→le (length b.buffer - b.writer_index) max_bytes_per_read roomy in
          let r = receive_lem bs v (omega arith) in
          rw roomy (r.0, r.1, unfold receive in refl, omega (arith, r.2))
    ]

-- A line that ends at the last CRLF, and what is behind it.
line_split :
    (b : BufferReader) (at : ℕ)
    → find_end crlf (peek b) ≡ some at
    → let line = take (at + 2) (peek b) in
      let rest = drop (at + 2) (peek b) in
      (line ++ rest ≡ peek b)
      × (drop (length line - 2) line ≡ crlf)
      × ((j : ℕ) → j < length rest → starts_with crlf (drop j rest) ≡ false)
line_split b at found =
    let p = peek b in
    let f = find_end-some crlf p at found in
    let l : length (take (at + 2) p) - 2 ≡ at = omega (arith, f.1, length-take (at + 2) p) in
    (
      take-append-drop (at + 2) p,
      rw (l, drop-take at (at + 2) 2 p refl) f.0,
      λ j h. elim (Bool-cases (starts_with crlf (drop j (drop (at + 2) p)))) [
        | inr no' ↦ no'
        | inl yes' ↦
            let (k, e, le) =
              find_end-last crlf p (at + 2 + j) (omega (arith, length-drop (at + 2) p))
                (rw (drop-drop (at + 2) j (at + 2 + j) p refl) at yes') in
            let same : k ≡ at = cc (e, found) in absurd (omega arith)
      ],
    )

-- `ReadUntilCrlf` hands over the waiting bytes up to and with their last CRLF, and keeps the rest,
-- which holds no CRLF.
pub read_until_crlf-some :
    {b : BufferReader} (line : List ℕ)
    → IsValid b
    → (read_until_crlf b).1 ≡ some line
    → let b' = (read_until_crlf b).0 in
      IsValid b'
      × (line ++ peek b' ≡ peek b)
      × (drop (length line - 2) line ≡ crlf)
      × ((j : ℕ) → j < length (peek b') → starts_with crlf (drop j (peek b')) ≡ false)
unfolding read_until_crlf find_last_crlf
read_until_crlf-some {b} line v e = elim (Option-cases (find_end crlf (peek b))) [
  | inl missing ↦
      let bad : ◌≡◌ {A = Option (List ℕ)} none (some line) = rw (missing, read_until_crlf) at e in
      cc bad
  | inr (at, found) ↦
      let e' : some (take (at + 2) (peek b)) ≡ some line = rw (found, read_until_crlf) at e in
      let same : line ≡ take (at + 2) (peek b) = cc e' in
      let r = peek-retrieve (at + 2) v in
      rw (found, read_until_crlf)
        (rw (same, r.1) (let s = line_split b at found in (r.0, s.0, s.1, s.2)))
]
