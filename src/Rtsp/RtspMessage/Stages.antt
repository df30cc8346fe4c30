-- ===== src/Rtsp/RtspMessage/Stages.antt =====
-- RtspRequest::ParseRequest of src/rtsp/RtspMessage.cpp, stage by stage: the first line, then the headers.
use stream_sight.Base.{
  ℕ, ◌+◌, ◌-◌, ◌≤◌, ◌<◌, ◌≡◌, ◌≢◌, refl, sym, ap, ◌∙◌, subst, Bool, true, none, some, [], ◌∷◌, ◌++◌,
  leb, ◌==◌, ne→==_false, ==_refl, length, length-append, append_assoc, take-all, take-append,
  drop-append, arith,
}
use stream_sight.Net.BufferReader.{
  BufferReader, peek, find_first_crlf, find_last_crlf, retrieve, retrieve_all,
}
use stream_sight.Rtsp.RtspMessage.Laws.{crlf}
use stream_sight.Rtsp.RtspMessage.Request.{
  parse_line, parse_headers, read_headers, next_turn, read_line, run_state, first_byte,
  parse_request, is_headers,
}
use stream_sight.Rtsp.RtspMessage.{RtspRequest, parse_request_line, parse_headers_line, ok}
use stream_sight.Text.Laws.{Passes}
use stream_sight.Text.Search.{is_not, search-skip, search-front, find_end-crlf, find_end-nil, shift}
use stream_sight.Text.{Text}

-- A buffer that was just filled with a text, and one of which the first `n` bytes were taken.
abbrev pub filled : Text → BufferReader
filled s = record { buffer = s; reader_index = 0; writer_index = length s }

abbrev pub read_up_to : ℕ → Text → BufferReader
read_up_to n s = record { buffer = s; reader_index = 0 + n; writer_index = length s }

pub peek-filled : (s : Text) → peek (filled s) ≡ s
unfolding peek
peek-filled s = take-all (length s - 0) s (omega arith)

peek-read_up_to : (a s : Text) (n : ℕ) → length a ≡ n → peek (read_up_to n (a ++ s)) ≡ s
unfolding peek
peek-read_up_to a s n e =
    let l = length-append a s in
    let z : 0 + n ≡ n = omega arith in
    rw (z, drop-append n a s e) (take-all (length (a ++ s) - n) s (omega arith))

leb-true : (a b : ℕ) → a ≤ b → leb a b ≡ true
leb-true a b h = ground arith

pub retrieve-filled : (s : Text) (n : ℕ) → n < length s → retrieve (filled s) n ≡ read_up_to n s
unfolding retrieve
retrieve-filled s n h =
    let e : length s - 0 ≡ length s = omega arith in
    rw
      (
        e,
        leb-true n (length s) (omega arith),
        ne→==_false (0 + n) (length s) (λ x. absurd (omega arith)),
      )
      refl

-- The first CR LF ends the line.
pub first_crlf :
    (line s : Text)
    → Passes (is_not 13) line
    → find_first_crlf (filled (line ++ (crlf ++ s))) ≡ some (length line)
unfolding find_first_crlf
first_crlf line s h = rw (peek-filled (line ++ (crlf ++ s))) (
    search-skip 13 (10 ∷ []) line (crlf ++ s) h
    ∙ ap (shift (length line)) (search-front 13 (10 ∷ []) s)
    ∙ ap some (omega arith))

-- The last CR LF ends the text.
pub last_crlf :
    (b : BufferReader) (hdr : Text) → peek b ≡ hdr ++ crlf → find_last_crlf b ≡ some (length hdr)
unfolding find_last_crlf
last_crlf b hdr e = rw e (find_end-crlf hdr)

pub read_headers-crlf :
    (ret : Bool) (b : BufferReader) (hdr : Text) (r : RtspRequest) (x : RtspRequest × Bool)
    → peek b ≡ hdr ++ crlf
    → parse_headers hdr r ≡ ok x
    → read_headers ret b r ≡ ok (retrieve b (length hdr + 2), x.0, x.1)
unfolding read_headers
read_headers-crlf ret b hdr r x e p =
    rw (last_crlf b hdr e, read_headers, e, take-append (length hdr) hdr crlf refl, p) refl

line_length : (line s : Text) → length (line ++ (crlf ++ s)) ≡ length line + 2 + length s
line_length line s = omega (arith, length-append line (crlf ++ s), length-append crlf s)

rest-read : (line s : Text) → peek (read_up_to (length line + 2) (line ++ (crlf ++ s))) ≡ s
rest-read line s =
    subst (λ t. peek (read_up_to (length line + 2) t) ≡ s) (append_assoc line crlf s)
      (peek-read_up_to (line ++ crlf) s (length line + 2) (length-append line crlf))

module _ (line : Text) (r r1 : RtspRequest) (no_cr : Passes (is_not 13) line)
    (parsed : parse_line line r ≡ ok (r1, true)) where
  read_line-crlf :
      (s : Text)
      → 0 < length s
      → read_line (filled (line ++ (crlf ++ s))) r
        ≡ next_turn true (read_up_to (length line + 2) (line ++ (crlf ++ s))) r1
  unfolding read_line
  read_line-crlf s h =
      let l = line_length line s in
      let more = retrieve-filled (line ++ (crlf ++ s)) (length line + 2) (omega arith) in
      rw
        (
          first_crlf line s no_cr,
          read_line,
          peek-filled (line ++ (crlf ++ s)),
          take-append (length line) line (crlf ++ s) refl,
          parsed,
          more,
        )
        refl

  module _ (starts_plain : first_byte (filled (line ++ crlf)) ≢ b'$')
      (at_line : r.state ≡ parse_request_line) (to_headers : r1.state ≡ parse_headers_line) where
    first_byte-append : (s : Text) → first_byte (filled (line ++ (crlf ++ s))) ≢ b'$'
    first_byte-append s = go line starts_plain
      where
        go :
            (l : Text)
            → first_byte (filled (l ++ crlf)) ≢ b'$'
            → first_byte (filled (l ++ (crlf ++ s))) ≢ b'$'
        go [] h = h
        go (c ∷ l) h = h

    parse_request-state :
        (b : BufferReader) → first_byte b ≢ b'$' → parse_request b r ≡ read_line b r
    unfolding parse_request run_state
    parse_request-state b ne = rw (ne→==_false (first_byte b) b'$' ne, at_line) refl

    -- Line and headers in one read.
    pub parse_request-whole :
        (hdr : Text) (x : RtspRequest × Bool)
        → parse_headers hdr r1 ≡ ok x
        → (b : BufferReader) × (parse_request (filled (line ++ (crlf ++ (hdr ++ crlf)))) r
            ≡ ok (b, x.0, x.1))
    unfolding next_turn
    parse_request-whole hdr x p =
        let s = hdr ++ crlf in
        let l = length-append hdr crlf in
        let b = read_up_to (length line + 2) (line ++ (crlf ++ s)) in
        (
          retrieve b (length hdr + 2),
          parse_request-state (filled (line ++ (crlf ++ s))) (first_byte-append s)
              ∙ read_line-crlf s (omega arith)
              ∙ rw (ap is_headers to_headers)
                  (read_headers-crlf true b hdr r1 x (rest-read line s) p),
        )

    empty_peek : (s : Text) → peek (retrieve_all (filled s)) ≡ []
    unfolding peek retrieve_all
    empty_peek s = refl

    retrieve-all_filled :
        (s : Text) (n : ℕ) → n ≡ length s → retrieve (filled s) n ≡ retrieve_all (filled s)
    unfolding retrieve
    retrieve-all_filled s n h =
        let e : length s - 0 ≡ length s = omega arith in
        let z : 0 + n ≡ length s = omega arith in
        rw (e, leb-true n (length s) (omega arith), ap (λ k. k == length s) z, ==_refl (length s))
          refl

    none_left : (b : BufferReader) → peek b ≡ [] → find_last_crlf b ≡ none
    unfolding find_last_crlf
    none_left b e = rw e (find_end-nil crlf)

    no_headers : (b : BufferReader) → peek b ≡ [] → read_headers true b r1 ≡ ok (b, r1, true)
    unfolding read_headers
    no_headers b e = rw (none_left b e, read_headers) refl

    -- The line alone: the request waits for its headers.
    line_alone :
        parse_request (filled (line ++ crlf)) r
        ≡ ok (retrieve_all (filled (line ++ crlf)), r1, true)
    unfolding next_turn read_line
    line_alone =
        let s = line ++ crlf in
        parse_request-state (filled s) starts_plain
        ∙ rw
            (
              first_crlf line [] no_cr,
              read_line,
              peek-filled s,
              take-append (length line) line crlf refl,
              parsed,
              retrieve-all_filled s (length line + 2) (sym (length-append line crlf)),
              ap is_headers to_headers,
            )
            (no_headers (retrieve_all (filled s)) (empty_peek s))

    headers_alone :
        (hdr : Text) (x : RtspRequest × Bool)
        → first_byte (filled (hdr ++ crlf)) ≢ b'$'
        → parse_headers hdr r1 ≡ ok x
        → (b : BufferReader) × (parse_request (filled (hdr ++ crlf)) r1 ≡ ok (b, x.0, x.1))
    unfolding parse_request run_state
    headers_alone hdr x ne p =
        let b = filled (hdr ++ crlf) in
        (
          retrieve b (length hdr + 2),
          rw (ne→==_false (first_byte b) b'$' ne) (
              ap (λ st. run_state st b r1) to_headers
              ∙ read_headers-crlf true b hdr r1 x (peek-filled (hdr ++ crlf)) p),
        )

    -- A request that comes in two reads, split behind its first line, is parsed as the one that comes
    -- in one read: the first read takes the line, leaves nothing and waits, and the second one gives the
    -- same request and the same answer as the whole. The line parses and holds no CR, and neither read
    -- begins with the `$` of an interleaved frame.
    pub parse_request-split :
        (hdr : Text) (x : RtspRequest × Bool)
        → first_byte (filled (hdr ++ crlf)) ≢ b'$'
        → parse_headers hdr r1 ≡ ok x
        → (b b' b'' : BufferReader) × (parse_request (filled (line ++ crlf)) r ≡ ok (b, r1, true))
          × (peek b ≡ [])
          × (parse_request (filled (hdr ++ crlf)) r1 ≡ ok (b', x.0, x.1))
          × (parse_request (filled (line ++ (crlf ++ (hdr ++ crlf)))) r ≡ ok (b'', x.0, x.1))
    parse_request-split hdr x ne p =
        let (b', later) = headers_alone hdr x ne p in
        let (b'', whole) = parse_request-whole hdr x p in
        (
          retrieve_all (filled (line ++ crlf)),
          b',
          b'',
          line_alone,
          empty_peek (line ++ crlf),
          later,
          whole,
        )
