-- ===== src/Rtsp/RtspMessage/Tests.antt =====
-- Requests and answers read and built.
use stream_sight.Base.{
  ℕ, ◌≡◌, ◌≤◌, ◌<◌, refl, replicate, arith, Bool, true, false, some, List, [], ◌∷◌, ◌++◌, length,
}
use stream_sight.Net.BufferReader.Search.{starts_with, search, find_end}
use stream_sight.Net.BufferReader.{
  BufferReader, peek, find_first_crlf, find_last_crlf, retrieve, retrieve_all,
}
use stream_sight.Rtsp.RtpConnection.{over_udp}
use stream_sight.Rtsp.RtspMessage.HeaderLines.{scan_value, scan_pair, from_found}
use stream_sight.Rtsp.RtspMessage.Request.{
  method_of, keep_line, keep_url, parse_words, parse_line, parse_cseq, parse_accept, keep_channels,
  parse_transport, parse_profile, parse_media_channel, parse_authorization, keep_response,
  finish_setup, finish_headers, parse_authorized, parse_headers, read_headers, next_turn, read_line,
  run_state, parse_request,
}
use stream_sight.Rtsp.RtspMessage.RequestLine.{
  scan_line, scan_with_port, scan_without_port, scan_url,
}
use stream_sight.Rtsp.RtspMessage.{
  no_method, describe, get_rtsp_url, reset, got_all, create, RtspRequest, Result, ok, fault,
  substr_out_of_range, get_cseq, get_rtsp_url_suffix, get_ip, get_rtp_channel, get_rtcp_channel,
  has_got_all, Method,
}
use stream_sight.Rtsp.RtspMessage.Laws.{crlf, parse_headers-ok, parse_headers-cut}
use stream_sight.Rtsp.RtspMessage.Response.{RtspResponse, none_sought, build_describe_req}
use stream_sight.Rtsp.RtspMessage.RoundTrip.{parse_request-build_describe_req}
use stream_sight.Rtsp.RtspMessage.DescribeLine.{plain}
use stream_sight.Rtsp.RtspMessage.Stages.{filled, parse_request-split}
use stream_sight.Rtsp.RtspMessage.Url.{no_colon, no_slash, scan_url-no_port}
use stream_sight.Text.Laws.{all_pass-Passes}
use stream_sight.Text.Search.{is_not}
use stream_sight.Text.Words.{no_space}
use stream_sight.Text.Print.{decimal, digits}
use stream_sight.Text.Scan.{
  set_not, word, non_empty, literal, store, unsigned, skip_space, number, signed, magnitude,
  to_width, matched, overrun,
}
use stream_sight.Text.{Text, codes, c_str, span, text_eq, contains}

abbrev setup_request : Text
setup_request =
    codes "SETUP rtsp://10.0.0.1:8554/live/track1 RTSP/1.0\r\n"
    ++ codes "CSeq: 3\r\nTransport: RTP/AVP/TCP;unicast;interleaved=2-3\r\n\r\n"

abbrev fresh : RtspRequest
fresh = create no_method 0 over_udp

abbrev answer : Result (BufferReader × RtspRequest × Bool) → Text × Text × List ℕ × Bool × Bool
answer (ok (b, r, ret)) = (
  get_rtsp_url_suffix r,
  get_ip r,
  get_cseq r ∷ r.channel_id ∷ get_rtp_channel r ∷ get_rtcp_channel r ∷ [],
  has_got_all r,
  ret,
)
answer (fault _) = ([], [], [], false, false)

setup_read :
    answer (parse_request (filled setup_request) fresh)
    ≡ (codes "live/track1", codes "10.0.0.1", 3 ∷ 1 ∷ 2 ∷ 3 ∷ [], true, true)
unfolding create method_of keep_line keep_url parse_words parse_line parse_cseq parse_accept
    keep_channels parse_transport parse_profile parse_media_channel parse_authorization finish_setup
    finish_headers parse_authorized parse_headers read_headers next_turn read_line run_state
    parse_request scan_line scan_with_port scan_without_port scan_url scan_value scan_pair
    from_found set_not word non_empty literal store unsigned skip_space number signed magnitude
    to_width c_str span text_eq contains starts_with search find_end peek find_first_crlf
    find_last_crlf retrieve retrieve_all
setup_read = refl

-- A header block that ends in "response=" makes `substr` throw.
response_cut :
    parse_headers
      (codes "CSeq: 1\r\nAuthorization: Digest response=")
      (record fresh { method = Method.describe })
    ≡ fault substr_out_of_range
unfolding create parse_headers parse_cseq from_found scan_value search starts_with contains c_str
    span set_not non_empty literal skip_space unsigned signed magnitude number to_width
    parse_authorization parse_authorized keep_response
response_cut = refl

abbrev pushing : RtspResponse
pushing = record {
  method = none_sought;
  cseq = 6;
  user_agent = codes "-_-";
  rtsp_url = codes "rtsp://10.0.0.1:8554/live";
  session = [];
}

parse_request-build_describe_req_example :
    (b : BufferReader) × (r' : RtspRequest) × (parse_request
        (filled (build_describe_req 2048 pushing).1)
        (reset fresh)
      ≡ ok (b, r', true))
    × (r'.state ≡ got_all)
    × (r'.method ≡ describe)
    × (get_rtsp_url r' ≡ pushing.rtsp_url)
    × (get_ip r' ≡ codes "10.0.0.1")
    × (get_rtsp_url_suffix r' ≡ codes "live")
    × (get_cseq r' ≡ 7)
unfolding decimal digits
parse_request-build_describe_req_example =
    parse_request-build_describe_req b'1' b'l' 8554 (codes "0.0.0.1") (codes "ive") 2048 pushing
      fresh refl refl (all_pass-Passes plain (codes "10.0.0.1") refl)
      (all_pass-Passes no_colon (codes "10.0.0.1") refl) (all_pass-Passes plain (codes "live") refl)
      (omega arith) (omega arith) (omega arith) (omega arith)

-- A request line of GET_PARAMETER, and its headers.
abbrev ask_line : Text
ask_line = codes "GET_PARAMETER rtsp://h:1/s RTSP/1.0"

abbrev line_read : Result (RtspRequest × Bool) → RtspRequest
line_read (ok (r, answer)) = r
line_read (fault why) = fresh

abbrev asked : RtspRequest
asked = line_read (parse_line ask_line fresh)

abbrev cseq_only : Text
cseq_only = codes "CSeq: 4\r\n"

abbrev done : RtspRequest
done = record asked {
  header_line_param = record asked.header_line_param { cseq = some 4 };
  state = got_all;
}

parse_request-split_example :
    (b b' b'' : BufferReader) × (parse_request (filled (ask_line ++ crlf)) fresh
      ≡ ok (b, asked, true))
    × (peek b ≡ [])
    × (parse_request (filled (cseq_only ++ crlf)) asked ≡ ok (b', done, true))
    × (parse_request (filled (ask_line ++ (crlf ++ (cseq_only ++ crlf)))) fresh
        ≡ ok (b'', done, true))
unfolding create method_of keep_line keep_url parse_words parse_line parse_cseq parse_headers
    scan_line scan_with_port scan_url scan_value from_found set_not word non_empty literal store
    unsigned skip_space number signed magnitude to_width c_str span text_eq starts_with search
    parse_authorized finish_headers
parse_request-split_example =
    parse_request-split ask_line fresh asked (all_pass-Passes (is_not 13) ask_line refl) refl
      (λ e. omega arith) refl refl cseq_only (done, true) (λ e. omega arith) refl

abbrev long_path : Text
long_path = codes "live/" ++ replicate 50 b'x'

scan_url-no_port_example :
    (length (codes "10.0.0.1" ++ b'/' ∷ long_path) < 64
      → scan_url (codes "10.0.0.1" ++ b'/' ∷ long_path)
        ≡ matched (codes "10.0.0.1", 554, long_path))
    × (64 ≤ length (codes "10.0.0.1" ++ b'/' ∷ long_path)
        → scan_url (codes "10.0.0.1" ++ b'/' ∷ long_path) ≡ overrun)
scan_url-no_port_example =
    scan_url-no_port b'1' b'l' (codes "0.0.0.1") (codes "ive/" ++ replicate 50 b'x')
      (all_pass-Passes no_colon (codes "10.0.0.1" ++ b'/' ∷ long_path) refl)
      (all_pass-Passes no_slash (codes "10.0.0.1") refl) (all_pass-Passes no_space long_path refl)

parse_headers-ok_example :
    (r' : RtspRequest) × (answer : Bool) × (parse_headers
        (codes "CSeq: 1\r\nAuthorization: Digest response=" ++ crlf)
        (reset fresh)
      ≡ ok (r', answer))
parse_headers-ok_example =
    parse_headers-ok (codes "CSeq: 1\r\nAuthorization: Digest response=") (reset fresh)

abbrev cut_headers : Text
cut_headers = codes "CSeq: 1\r\nAuthorization: Digest response="

cut_headers_throw :
    parse_headers cut_headers (record fresh { method = describe }) ≡ fault substr_out_of_range
unfolding parse_cseq from_found scan_value search starts_with contains c_str span set_not non_empty
    literal skip_space unsigned signed magnitude number to_width create
cut_headers_throw =
    parse_headers-cut cut_headers 31 (record fresh { method = describe }) refl refl refl refl
      (omega arith)
