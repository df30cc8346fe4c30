-- ===== src/Rtsp/RtspMessage/DescribeHeaders.antt =====
-- The headers of a DESCRIBE request, read by src/rtsp/RtspMessage.cpp.
use stream_sight.Base.{
  ℕ, ◌%◌, ◌^◌, ◌<◌, ◌≡◌, refl, ap, ◌∙◌, Bool, true, false, not, none, some, [], ◌++◌, ◌==◌, length,
  arith,
}
use stream_sight.Net.BufferReader.Search.{search, find_end, starts_with}
use stream_sight.Rtsp.RtspMessage.HeaderLines.{scan_value, from_found}
use stream_sight.Rtsp.RtspMessage.Request.{
  parse_cseq, parse_accept, parse_authorization, parse_authorized, parse_headers, finish_headers,
}
use stream_sight.Rtsp.RtspMessage.{RtspRequest, describe, got_all, ok}
use stream_sight.Text.Laws.{
  Passes, Passes-append, Passes-mono, c_str-all, decimal-Passes, unsigned-decimal,
  decimal-skip_space, all_pass-Passes,
}
use stream_sight.Text.Print.{decimal}
use stream_sight.Text.Scan.{matched, is_digit, set_not, non_empty, literal, skip_space}
use stream_sight.Text.Search.{is_not, search-skip, shift, find_end-append, contains-none}
use stream_sight.Text.{Text, codes, contains, span}

abbrev pub non_nul : ℕ → Bool
non_nul c = not (c == 0)

-- The headers of the request, up to the last CR LF.
abbrev pub tail : Text
tail = codes "\r\nAccept: application/sdp\r\nUser-Agent: -_-\r\n"

abbrev pub headers : ℕ → Text
headers cseq = codes "CSeq: " ++ (decimal cseq ++ tail)

digit-non_nul : (c : ℕ) → is_digit c ≡ true → non_nul c ≡ true
digit-non_nul c h = ground arith

digit-not_a : (c : ℕ) → is_digit c ≡ true → is_not 65 c ≡ true
digit-not_a c h = ground arith

decimal-non_nul : (n : ℕ) → Passes non_nul (decimal n)
decimal-non_nul n = Passes-mono is_digit non_nul (decimal n) digit-non_nul (decimal-Passes n)

tail-non_nul : Passes non_nul tail
tail-non_nul = all_pass-Passes non_nul tail refl

headers-non_nul : (n : ℕ) → Passes non_nul (headers n)
headers-non_nul n =
    Passes-append non_nul (codes "CSeq: ") (decimal n ++ tail)
      (all_pass-Passes non_nul (codes "CSeq: ") refl)
      (Passes-append non_nul (decimal n) tail (decimal-non_nul n) tail-non_nul)

scan_value-headers : (n : ℕ) → n < 2 ^ 32 → scan_value (headers n) ≡ matched n
unfolding scan_value set_not non_empty span literal skip_space
scan_value-headers n lt =
    let exact : n % 2 ^ 32 ≡ n = omega arith in
    rw
      (
        c_str-all (headers n) (headers-non_nul n),
        decimal-skip_space n tail,
        unsigned-decimal 32 n 13 (codes "\nAccept: application/sdp\r\nUser-Agent: -_-\r\n") lt refl,
        exact,
      )
      refl

-- `CSeq` is kept, and nothing else of the headers.
abbrev pub with_cseq : ℕ → RtspRequest → RtspRequest
with_cseq n r = record r { header_line_param = record r.header_line_param { cseq = some n } }

parse_cseq-headers :
    (n : ℕ) (r : RtspRequest)
    → n < 2 ^ 32
    → r.header_line_param.cseq ≡ none
    → parse_cseq (headers n) r ≡ (with_cseq n r, true)
unfolding parse_cseq from_found search starts_with
parse_cseq-headers n r lt e = rw (scan_value-headers n lt, e) refl

no_authorization : (n : ℕ) → contains (codes "Authorization") (headers n) ≡ false
no_authorization n =
    let before : Passes (is_not 65) (codes "CSeq: ") =
      all_pass-Passes (is_not 65) (codes "CSeq: ") refl in
    let middle = Passes-mono is_digit (is_not 65) (decimal n) digit-not_a (decimal-Passes n) in
    let here : search (codes "Authorization") tail ≡ none = unfold search starts_with in refl in
    contains-none (codes "Authorization") (headers n) (
      search-skip 65 (codes "uthorization") (codes "CSeq: ") (decimal n ++ tail) before
      ∙ ap (shift 6) (
          search-skip 65 (codes "uthorization") (decimal n) tail middle
          ∙ ap (shift (length (decimal n))) here))

accepted : (n : ℕ) → parse_accept (headers n) ≡ true
unfolding parse_accept
accepted n =
    let a : find_end (codes "Accept") tail ≡ some 2 = unfold find_end starts_with in refl in
    let b : find_end (codes "sdp") tail ≡ some 22 = unfold find_end starts_with in refl in
    let before = codes "CSeq: " ++ decimal n in
    let (i, found) = find_end-append (codes "Accept") before tail 2 a in
    let (j, found') = find_end-append (codes "sdp") before tail 22 b in rw (found, found') refl

-- The request after its headers.
abbrev pub complete : ℕ → RtspRequest → RtspRequest
complete n r = record (with_cseq n r) { auth_response = []; state = got_all }

pub parse_headers-describe :
    (n : ℕ) (r : RtspRequest)
    → n < 2 ^ 32
    → r.header_line_param.cseq ≡ none
    → r.method ≡ describe
    → parse_headers (headers n) r ≡ ok (complete n r, true)
unfolding parse_headers parse_authorized parse_authorization finish_headers
parse_headers-describe n r lt e m =
    rw (parse_cseq-headers n r lt e, m, no_authorization n, accepted n) refl
