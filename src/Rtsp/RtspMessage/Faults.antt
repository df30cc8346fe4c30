-- ===== src/Rtsp/RtspMessage/Faults.antt =====
-- How the parsers of src/rtsp/RtspMessage.cpp fail.
use stream_sight.Base.{
  ℕ, ◌+◌, ◌≢◌, Bool, true, not, ◌&&◌, none, some, [], if-elim, ltb, ◌==◌, length, take, drop,
}
use stream_sight.Net.BufferReader.Search.{starts_with, search}
use stream_sight.Net.BufferReader.{BufferReader, peek, find_first_crlf, find_last_crlf, retrieve}
use stream_sight.Rtsp.RtspMessage.HeaderLines.{from_found}
use stream_sight.Rtsp.RtspMessage.Request.{
  method_of, is_known, keep_url, parse_words, parse_line, parse_cseq, is_some, keep_response,
  parse_authorization, parse_authorized, parse_headers, read_headers, is_headers, next_turn,
  read_line, run_state, first_byte, parse_request, wants_authorization,
}
use stream_sight.Rtsp.RtspMessage.RequestLine.{scan_line, scan_url}
use stream_sight.Rtsp.RtspMessage.Response.{
  RtspResponse, scan_session, keep_session, parse_session, memory, parse_response,
}
use stream_sight.Rtsp.RtspMessage.{
  RtspRequest, ParseState, parse_request_line, parse_headers_line, got_all, array_overrun,
  null_pointer, Result, ok, fault, ◌>>=◌,
}
use stream_sight.Text.Scan.{Scanned, matched, mismatch, overrun}
use stream_sight.Text.{Text, codes, contains}

-- A result that holds what is asked, or a fault that is no null pointer.
abbrev pub Ends {ℓ} : {A : Type ℓ} → (A → Type 0) → Result A → Type 0
Ends P (ok a) = P a
Ends P (fault why) = why ≢ null_pointer

pub Ends-bind {ℓ κ} :
    {A : Type ℓ} {B : Type κ} (P : A → Type 0) (Q : B → Type 0) (m : Result A) (f : A → Result B)
    → Ends P m
    → ((a : A) → P a → Ends Q (f a))
    → Ends Q (m >>= f)
Ends-bind P Q (ok a) f h k = k a h
Ends-bind P Q (fault why) f h k = h

abbrev pub Any {ℓ} : {A : Type ℓ} → A → Type 0
Any a = Unit

overrun-ne : array_overrun ≢ null_pointer
overrun-ne e = cc

keep_url-Ends :
    (line : Text × Text × Text) (o : Scanned (Text × ℕ × Text)) (r : RtspRequest)
    → Ends Any (keep_url line o r)
unfolding keep_url
keep_url-Ends line (matched parts) r = tt
keep_url-Ends line mismatch r = tt
keep_url-Ends line overrun r = overrun-ne

parse_words-Ends : (o : Scanned (Text × Text × Text)) (r : RtspRequest) → Ends Any (parse_words o r)
unfolding parse_words
parse_words-Ends mismatch r = tt
parse_words-Ends overrun r = overrun-ne
parse_words-Ends (matched (name, url, version)) r =
    if-elim (Ends Any) (not (is_known (method_of name))) _ _ (λ _. tt)
      (λ _.
        if-elim (Ends Any) (not (starts_with (codes "rtsp://") url)) _ _ (λ _. tt)
          (λ _. keep_url-Ends _ (scan_url (drop 7 url)) _))

keep_response-Ends :
    (message : Text) (pos : ℕ) (r : RtspRequest) → Ends Any (keep_response message pos r)
unfolding keep_response
keep_response-Ends message pos r =
    if-elim (Ends Any) (ltb (length message) (pos + 10)) _ _ (λ _ e. cc) (λ _. tt)

parse_authorized-Ends : (message : Text) (r : RtspRequest) → Ends Any (parse_authorized message r)
unfolding parse_authorized parse_authorization
parse_authorized-Ends message r =
    if-elim (Ends Any) (wants_authorization r.method) _ _
      (λ _.
        if-elim (Ends Any) (contains (codes "Authorization") message) _ _
          (λ _.
            elim (search (codes "response=") message)
              as (λ o. Ends Any (elim o as (λ o. Result RtspRequest) [
                | none ↦ ok (record r { auth_response = [] })
                | some pos ↦ keep_response message pos r
              ])) [ none ↦ tt | some pos ↦ keep_response-Ends message pos r ])
          (λ _. tt))
      (λ _. tt)

parse_headers-Ends : (message : Text) (r : RtspRequest) → Ends Any (parse_headers message r)
unfolding parse_headers
parse_headers-Ends message r =
    let (r1, found) = parse_cseq message r in
    if-elim (Ends Any) (not found && not (is_some r1.header_line_param.cseq)) _ _ (λ _. tt)
      (λ _.
        Ends-bind Any Any (parse_authorized message r1) _ (parse_authorized-Ends message r1)
          (λ r2 _. tt))

read_headers-Ends :
    (ret : Bool) (b : BufferReader) (r : RtspRequest) → Ends Any (read_headers ret b r)
unfolding read_headers
read_headers-Ends ret b r =
    elim (find_last_crlf b)
      as (λ o. Ends Any (elim o as (λ o. Result (BufferReader × RtspRequest × Bool)) [
        | none ↦ ok (b, r, ret)
        | some at ↦ parse_headers (take at (peek b)) r >>= λ parsed.
            ok (retrieve b (at + 2), parsed.0, parsed.1)
      ])) [
        | none ↦ tt
        | some at ↦
            Ends-bind Any Any (parse_headers (take at (peek b)) r) _
              (parse_headers-Ends (take at (peek b)) r) (λ parsed _. tt)
      ]

next_turn-Ends : (ret : Bool) (b : BufferReader) (r : RtspRequest) → Ends Any (next_turn ret b r)
unfolding next_turn
next_turn-Ends ret b r =
    if-elim (Ends Any) (is_headers r.state) _ _ (λ _. read_headers-Ends ret b r) (λ _. tt)

read_line-Ends : (b : BufferReader) (r : RtspRequest) → Ends Any (read_line b r)
unfolding read_line parse_line
read_line-Ends b r =
    elim (find_first_crlf b)
      as (λ o. Ends Any (elim o as (λ o. Result (BufferReader × RtspRequest × Bool)) [
        | none ↦ next_turn true b r
        | some at ↦ parse_words (scan_line (take at (peek b))) r >>= λ parsed.
            next_turn parsed.1 (retrieve b (at + 2)) parsed.0
      ])) [
        | none ↦ next_turn-Ends true b r
        | some at ↦
            Ends-bind Any Any (parse_words (scan_line (take at (peek b))) r) _
              (parse_words-Ends (scan_line (take at (peek b))) r)
              (λ parsed _. next_turn-Ends parsed.1 (retrieve b (at + 2)) parsed.0)
      ]

run_state-Ends :
    (st : ParseState) (b : BufferReader) (r : RtspRequest) → Ends Any (run_state st b r)
unfolding run_state
run_state-Ends parse_request_line b r = read_line-Ends b r
run_state-Ends parse_headers_line b r = read_headers-Ends true b r
run_state-Ends got_all b r = tt

-- The parsers do not fail by a null pointer.
pub parse_request-Ends : (b : BufferReader) (r : RtspRequest) → Ends Any (parse_request b r)
unfolding parse_request
parse_request-Ends b r =
    if-elim (Ends Any) (first_byte b == b'$') _ _ (λ _. tt) (λ _. run_state-Ends r.state b r)

keep_session-Ends : (o : Scanned (Text × Text)) (r : RtspResponse) → Ends Any (keep_session o r)
unfolding keep_session
keep_session-Ends (matched w) r = tt
keep_session-Ends mismatch r = tt
keep_session-Ends overrun r = overrun-ne

parse_session-Ends : (s : Text) (r : RtspResponse) → Ends Any (parse_session s r)
unfolding parse_session
parse_session-Ends s r =
    elim (from_found (codes "Session") s)
      as (λ o. Ends Any (elim o as (λ o. Result RtspResponse) [
        | none ↦ ok r
        | some t ↦ keep_session (scan_session t) r
      ])) [ none ↦ tt | some t ↦ keep_session-Ends (scan_session t) r ]

pub parse_response-Ends :
    (gap : ℕ) (b : BufferReader) (r : RtspResponse) → Ends Any (parse_response gap b r)
unfolding parse_response
parse_response-Ends gap b r =
    if-elim (Ends Any) (not (contains (codes "\r\n\r\n") (memory b))) _ _ (λ _. tt)
      (λ _.
        if-elim (Ends Any) (not (contains (codes "OK") (memory b))) _ _ (λ _. tt)
          (λ _.
            Ends-bind Any Any (parse_session (memory b) r) _ (parse_session-Ends (memory b) r)
              (λ r' _. tt)))
