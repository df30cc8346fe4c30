-- ===== src/Rtsp/RtspMessage/RoundTrip.antt =====
-- What RtspResponse of src/rtsp/RtspMessage.cpp writes as a DESCRIBE request, RtspRequest reads back.
use stream_sight.Base.{
  ℕ, ◌^◌, ◌<◌, ◌≡◌, ◌≢◌, refl, sym, ap, ◌∙◌, true, none, ◌∷◌, ◌++◌, length, length-append, add32,
  arith,
}
use stream_sight.Rtsp.RtspMessage.Laws.{crlf}
use stream_sight.Rtsp.RtspMessage.Request.{keep_line, parse_request, first_byte}
use stream_sight.Rtsp.RtspMessage.RequestLine.{scan_url}
use stream_sight.Rtsp.RtspMessage.Response.{RtspResponse, build_describe_req}
use stream_sight.Rtsp.RtspMessage.Stages.{filled, parse_request-whole}
use stream_sight.Rtsp.RtspMessage.Url.{no_colon, scan_url-port}
use stream_sight.Net.BufferReader.{BufferReader}
use stream_sight.Rtsp.RtspMessage.{
  RtspRequest, describe, parse_request_line, parse_headers_line, got_all, reset, ok, get_cseq,
  get_ip, get_rtsp_url, get_rtsp_url_suffix,
}
use stream_sight.Text.Laws.{
  Passes, Passes-append, Passes-mono, decimal-Passes, length-decimal, all_pass-Passes,
}
use stream_sight.Text.Print.{decimal}
use stream_sight.Text.Scan.{matched, is_digit}
use stream_sight.Text.Search.{is_not}
use stream_sight.Text.Words.{no_space}
use stream_sight.Text.{Text, codes}
use stream_sight.Rtsp.RtspMessage.DescribeHeaders.{
  non_nul, headers, complete, parse_headers-describe,
}
use stream_sight.Rtsp.RtspMessage.DescribeLine.{
  plain, line_of, after_line, rtsp_url, whole_request, plain-no_space, plain-non_nul, plain-not_cr,
  line-Passes, parse_line-describe, describe_req-whole,
}

-- What the first line leaves for the headers.
after_line-fields :
    (url : Text) (parts : Text × ℕ × Text) (r : RtspRequest)
    → let r1 = after_line url parts (reset r) in
      (r1.state ≡ parse_headers_line) × (r1.method ≡ describe) × (r1.header_line_param.cseq ≡ none)
unfolding reset keep_line
after_line-fields url (ip, port, suffix) r = (refl, refl, refl)

after_line-url :
    (url ip suffix : Text) (port n : ℕ) (r : RtspRequest)
    → let r' = complete n (after_line url (ip, port, suffix) (reset r)) in
      (get_rtsp_url r' ≡ url) × (get_ip r' ≡ ip) × (get_rtsp_url_suffix r' ≡ suffix)
unfolding reset keep_line
after_line-url url ip suffix port n r = (refl, refl, refl)

reset-state : (r : RtspRequest) → (reset r).state ≡ parse_request_line
unfolding reset
reset-state r = refl

line_starts-plain : (u s : Text) → first_byte (filled (line_of u ++ s)) ≢ b'$'
line_starts-plain u s e = cc

module _ (rest : Text) (parts : Text × ℕ × Text) (r : RtspRequest) (n : ℕ)
    (is_plain : Passes plain (rtsp_url rest)) where
  no_cr_in_line : Passes (is_not 13) (line_of (rtsp_url rest))
  no_cr_in_line =
      line-Passes (is_not 13) (rtsp_url rest) refl refl
        (Passes-mono plain (is_not 13) (rtsp_url rest) plain-not_cr is_plain)

  -- A whole request, of which the URL is taken apart as `parts`.
  read_whole :
      length (rtsp_url rest) < 512
      → n < 2 ^ 32
      → scan_url rest ≡ matched parts
      → (b : BufferReader) × (parse_request (filled (whole_request (rtsp_url rest) n)) (reset r)
          ≡ ok (b, complete n (after_line (rtsp_url rest) parts (reset r)), true))
  read_whole fits lt e =
      let url = rtsp_url rest in
      let r1 = after_line url parts (reset r) in
      let (state, method, cseq) = after_line-fields url parts r in
      parse_request-whole (line_of url) (reset r) r1 no_cr_in_line
        (parse_line-describe rest parts (reset r) is_plain fits e) (line_starts-plain url crlf)
        (reset-state r) state (headers n) (complete n r1, true)
        (parse_headers-describe n r1 lt cseq method)

module _ (h p port : ℕ) (hs ps : Text) where
  abbrev pub described_url : Text
  described_url = rtsp_url ((h ∷ hs) ++ b':' ∷ (decimal port ++ b'/' ∷ (p ∷ ps)))

  described_url-plain : Passes plain (h ∷ hs) → Passes plain (p ∷ ps) → Passes plain described_url
  described_url-plain a b =
      let number = Passes-mono is_digit plain (decimal port) digit-plain (decimal-Passes port) in
      let end : Passes plain (decimal port ++ b'/' ∷ (p ∷ ps)) =
        Passes-append plain (decimal port) (b'/' ∷ (p ∷ ps)) number (refl, b) in
      let rest : Passes plain ((h ∷ hs) ++ b':' ∷ (decimal port ++ b'/' ∷ (p ∷ ps))) =
        Passes-append plain (h ∷ hs) (b':' ∷ (decimal port ++ b'/' ∷ (p ∷ ps))) a (refl, end) in
      Passes-append plain (codes "rtsp://") ((h ∷ hs) ++ b':' ∷ (decimal port ++ b'/' ∷ (p ∷ ps)))
        (all_pass-Passes plain (codes "rtsp://") refl) rest
    where
      digit-plain : (c : ℕ) → is_digit c ≡ true → plain c ≡ true
      digit-plain c d = ground arith

  abbrev parts : Text × ℕ × Text
  parts = ((h ∷ hs), port, (p ∷ ps))

  described_url-length : length (h ∷ hs) < 64 → length (p ∷ ps) < 64 → length described_url < 512
  described_url-length a b = omega (
    arith,
    length-append (codes "rtsp://") ((h ∷ hs) ++ b':' ∷ (decimal port ++ b'/' ∷ (p ∷ ps))),
    length-append (h ∷ hs) (b':' ∷ (decimal port ++ b'/' ∷ (p ∷ ps))),
    length-append (decimal port) (b'/' ∷ (p ∷ ps)),
    length-decimal port,
  )

  -- The DESCRIBE request that RtspResponse builds is read by an RtspRequest that waits for a request: all of it,
  -- with the method, the URL, its address and its suffix, and the CSeq that was sent. The URL has an
  -- address without a colon, a port and a suffix, each without blanks and of less than 64 bytes, the user agent is the
  -- one that the pusher sets, and the array has room for the request.
  pub parse_request-build_describe_req :
      (size : ℕ) (q : RtspResponse) (r : RtspRequest)
      → q.rtsp_url ≡ described_url
      → q.user_agent ≡ codes "-_-"
      → Passes plain (h ∷ hs)
      → Passes no_colon (h ∷ hs)
      → Passes plain (p ∷ ps)
      → port < 2 ^ 16
      → length (h ∷ hs) < 64
      → length (p ∷ ps) < 64
      → length (whole_request q.rtsp_url (add32 q.cseq 1)) < size
      → (b : BufferReader) × (r' : RtspRequest) × (parse_request
            (filled (build_describe_req size q).1)
            (reset r)
          ≡ ok (b, r', true))
        × (r'.state ≡ got_all)
        × (r'.method ≡ describe)
        × (get_rtsp_url r' ≡ q.rtsp_url)
        × (get_ip r' ≡ (h ∷ hs))
        × (get_rtsp_url_suffix r' ≡ (p ∷ ps))
        × (get_cseq r' ≡ add32 q.cseq 1)
  parse_request-build_describe_req size q r e agent a c d lt la lb fits =
      let pl = described_url-plain a d in
      let n = add32 q.cseq 1 in
      let spaces = Passes-mono plain no_space (p ∷ ps) plain-no_space d in
      let (b, read) =
        read_whole ((h ∷ hs) ++ b':' ∷ (decimal port ++ b'/' ∷ (p ∷ ps))) parts r n pl
          (described_url-length la lb) (omega arith)
          (scan_url-port h p hs ps port c spaces lt la lb) in
      let built =
        describe_req-whole size q agent
          (rw e (Passes-mono plain non_nul described_url plain-non_nul pl)) fits in
      let (same, address, suffix) = after_line-url described_url (h ∷ hs) (p ∷ ps) port n r in
      (
        b,
        complete n (after_line described_url parts (reset r)),
        ap (λ t. parse_request (filled t) (reset r)) (built ∙ ap (λ u. whole_request u n) e) ∙ read,
        refl,
        (after_line-fields described_url parts r).1,
        same ∙ sym e,
        address,
        suffix,
        refl,
      )
