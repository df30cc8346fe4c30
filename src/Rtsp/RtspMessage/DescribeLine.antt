-- ===== src/Rtsp/RtspMessage/DescribeLine.antt =====
-- The first line of a DESCRIBE request, and the whole of it, as src/rtsp/RtspMessage.cpp builds and reads them.
use stream_sight.Base.{
  ℕ, ◌-◌, ◌<◌, ◌≡◌, refl, ap, ◌∙◌, Bool, true, not, ◌&&◌, [], ◌∷◌, ◌++◌, length, take-all,
  append_assoc, add32, arith,
}
use stream_sight.Net.BufferReader.Search.{starts_with}
use stream_sight.Rtsp.RtspMessage.Laws.{crlf}
use stream_sight.Rtsp.RtspMessage.Request.{parse_line, parse_words, keep_url, keep_line, method_of}
use stream_sight.Rtsp.RtspMessage.RequestLine.{scan_line, scan_url}
use stream_sight.Rtsp.RtspMessage.Response.{RtspResponse, build_describe_req, request_line}
use stream_sight.Rtsp.RtspMessage.{RtspRequest, describe, ok}
use stream_sight.Text.Laws.{
  Passes, Passes-append, Passes-mono, c_str-all, all_pass, all_pass-Passes,
}
use stream_sight.Text.Print.{decimal, snprintf}
use stream_sight.Text.Scan.{matched, is_space}
use stream_sight.Text.Search.{is_not}
use stream_sight.Text.Words.{no_space, word-all, word-append, word_spaced, store-fits}
use stream_sight.Text.{Text, codes, text_eq}
use stream_sight.Rtsp.RtspMessage.DescribeHeaders.{non_nul, tail, headers}

abbrev pub plain : ℕ → Bool
plain c = not (is_space c) && non_nul c

pub plain-no_space : (c : ℕ) → plain c ≡ true → no_space c ≡ true
plain-no_space c h = ground arith

pub plain-non_nul : (c : ℕ) → plain c ≡ true → non_nul c ≡ true
plain-non_nul c h = ground arith

pub plain-not_cr : (c : ℕ) → plain c ≡ true → is_not 13 c ≡ true
plain-not_cr c h = ground arith

abbrev pub version : Text
version = codes "RTSP/1.0"

abbrev pub line_of : Text → Text
line_of url = codes "DESCRIBE " ++ (url ++ b' ' ∷ version)

-- A test that lets plain bytes and blanks through lets the line through.
pub line-Passes :
    (test : ℕ → Bool) (url : Text)
    → all_pass test (codes "DESCRIBE ") ≡ true
    → all_pass test (b' ' ∷ version) ≡ true
    → Passes test url
    → Passes test (line_of url)
line-Passes test url a b h =
    Passes-append test (codes "DESCRIBE ") (url ++ b' ' ∷ version)
      (all_pass-Passes test (codes "DESCRIBE ") a)
      (Passes-append test url (b' ' ∷ version) h (all_pass-Passes test (b' ' ∷ version) b))

module _ (u : ℕ) (us : Text) (is_plain : Passes plain (u ∷ us)) where
  abbrev whole_url : Text
  whole_url = u ∷ us

  scan_line-describe :
      length whole_url < 512
      → scan_line (line_of whole_url) ≡ matched (codes "DESCRIBE", whole_url, version)
  unfolding scan_line
  scan_line-describe fits =
      let whole =
        line-Passes non_nul whole_url refl refl
          (Passes-mono plain non_nul whole_url plain-non_nul is_plain) in
      let spaces = Passes-mono plain no_space whole_url plain-no_space is_plain in
      rw
        (
          c_str-all (line_of whole_url) whole,
          word-append 68 b' ' (codes "ESCRIBE") (whole_url ++ b' ' ∷ version)
              (all_pass-Passes no_space (codes "DESCRIBE") refl) refl,
          store-fits 64 (codes "DESCRIBE") (b' ' ∷ (whole_url ++ b' ' ∷ version)) (omega arith),
          word_spaced (whole_url ++ b' ' ∷ version),
          word-append u b' ' us version spaces refl,
          store-fits 512 whole_url (b' ' ∷ version) fits,
          word_spaced version,
          word-all 82 (codes "TSP/1.0") (all_pass-Passes no_space version refl),
          store-fits 64 version [] (omega arith),
        )
        refl

-- The request after its first line, for a URL of the parts `host`, `port` and `path`.
abbrev pub after_line : Text → Text × ℕ × Text → RtspRequest → RtspRequest
after_line url parts r =
    keep_line (codes "DESCRIBE", url, version) parts (record r { method = describe })

abbrev pub rtsp_url : Text → Text
rtsp_url rest = codes "rtsp://" ++ rest

pub parse_line-describe :
    (rest : Text) (parts : Text × ℕ × Text) (r : RtspRequest)
    → Passes plain (rtsp_url rest)
    → length (rtsp_url rest) < 512
    → scan_url rest ≡ matched parts
    → parse_line (line_of (rtsp_url rest)) r ≡ ok (after_line (rtsp_url rest) parts r, true)
unfolding parse_line parse_words method_of text_eq starts_with keep_url
parse_line-describe rest parts r h fits e =
    rw (scan_line-describe 114 (codes "tsp://" ++ rest) h fits, e) refl

-- The text that is built, in the order in which it is read.
abbrev pub whole_request : Text → ℕ → Text
whole_request url cseq = line_of url ++ (crlf ++ (headers cseq ++ crlf))

-- Three parts of a text, however they are put together.
arranged :
    (url digits : Text)
    → request_line (codes "DESCRIBE") url
        ++ (codes "CSeq: " ++ digits ++ codes "\r\n")
        ++ codes "Accept: application/sdp\r\n"
        ++ (codes "User-Agent: " ++ codes "-_-" ++ codes "\r\n")
        ++ codes "\r\n"
      ≡ (codes "DESCRIBE " ++ (url ++ b' ' ∷ version))
        ++ (crlf ++ ((codes "CSeq: " ++ (digits ++ tail)) ++ crlf))
arranged url digits = simp (append_assoc)

snprintf-fits : (size : ℕ) (text : Text) → length text < size → snprintf size text ≡ text
unfolding snprintf
snprintf-fits size text h = take-all (size - 1) text (omega arith)

pub describe_req-whole :
    (size : ℕ) (q : RtspResponse)
    → q.user_agent ≡ codes "-_-"
    → Passes non_nul q.rtsp_url
    → length (whole_request q.rtsp_url (add32 q.cseq 1)) < size
    → (build_describe_req size q).1 ≡ whole_request q.rtsp_url (add32 q.cseq 1)
unfolding build_describe_req
describe_req-whole size q a h fits =
    let agent = c_str-all (codes "-_-") (all_pass-Passes non_nul (codes "-_-") refl) in
    rw (a, c_str-all q.rtsp_url h, agent)
      (ap (snprintf size) (arranged q.rtsp_url (decimal (add32 q.cseq 1)))
        ∙ snprintf-fits size (whole_request q.rtsp_url (add32 q.cseq 1)) fits)
