-- ===== src/Rtsp/RtspMessage/Request.antt =====
-- RtspRequest::ParseRequest of src/rtsp/RtspMessage.cpp and what it calls.
use stream_sight.Base.{
  ℕ, ◌+◌, Bool, true, false, not, ◌&&◌, Option, none, some, [], if◌then◌else◌, ltb, ◌==◌, length,
  take, drop, get_or,
}
use stream_sight.Net.BufferReader.Search.{starts_with, search, find_end}
use stream_sight.Net.BufferReader.{
  BufferReader, peek, find_first_crlf, find_last_crlf, retrieve, retrieve_all,
}
use stream_sight.Rtsp.RtpConnection.{over_tcp, over_udp, over_multicast}
use stream_sight.Rtsp.RtspMessage.HeaderLines.{scan_value, scan_pair, from_found}
use stream_sight.Rtsp.RtspMessage.RequestLine.{scan_line, scan_url}
use stream_sight.Rtsp.RtspMessage.{
  Method, options, describe, setup, play, teardown, get_parameter, rtcp, no_method, ParseState,
  parse_request_line, parse_headers_line, got_all, RtspRequest, Result, ok, fault, array_overrun,
  substr_out_of_range, ◌>>=◌, emplace,
}
use stream_sight.Text.Scan.{Scanned, matched, mismatch, overrun}
use stream_sight.Text.{Text, codes, text_eq, contains}

unfoldable pub method_of : Text → Method
method_of name =
    if text_eq name (codes "OPTIONS")
    then options
    else if text_eq name (codes "DESCRIBE")
    then describe
    else if text_eq name (codes "SETUP")
    then setup
    else if text_eq name (codes "PLAY")
    then play
    else if text_eq name (codes "TEARDOWN")
    then teardown
    else if text_eq name (codes "GET_PARAMETER")
    then get_parameter
    else no_method

abbrev pub is_known : Method → Bool
is_known no_method = false
is_known _ = true

-- The entries of the request line, and the next state.
unfoldable pub keep_line : Text × Text × Text → Text × ℕ × Text → RtspRequest → RtspRequest
keep_line (name, url, version) (ip, port, suffix) r =
    let p = r.request_line_param in
    record r {
      request_line_param = record {
        url = emplace p.url url;
        url_ip = emplace p.url_ip ip;
        url_port = emplace p.url_port port;
        url_suffix = emplace p.url_suffix suffix;
        version = emplace p.version version;
        method_name = emplace p.method_name name;
      };
      state = parse_headers_line;
    }

unfoldable pub keep_url :
    Text × Text × Text → Scanned (Text × ℕ × Text) → RtspRequest → Result (RtspRequest × Bool)
keep_url line (matched parts) r = ok (keep_line line parts r, true)
keep_url line mismatch r = ok (r, false)
keep_url line overrun r = fault array_overrun

unfoldable pub parse_words :
    Scanned (Text × Text × Text) → RtspRequest → Result (RtspRequest × Bool)
parse_words mismatch r = ok (r, true)
parse_words overrun r = fault array_overrun
parse_words (matched (name, url, version)) r =
    let r' = record r { method = method_of name } in
    if not (is_known (method_of name))
    then ok (r', false)
    else if not (starts_with (codes "rtsp://") url)
    then ok (r', false)
    else keep_url (name, url, version) (scan_url (drop 7 url)) r'

-- ParseRequestLine
unfoldable pub parse_line : Text → RtspRequest → Result (RtspRequest × Bool)
parse_line message = parse_words (scan_line message)

abbrev value_or_zero : Scanned ℕ → ℕ
value_or_zero (matched n) = n
value_or_zero _ = 0

unfoldable pub parse_cseq : Text → RtspRequest → RtspRequest × Bool
parse_cseq message r = elim (from_found (codes "CSeq") message) [
  | none ↦ (r, false)
  | some s ↦
      let h = r.header_line_param in
      (
        record r {
          header_line_param = record h { cseq = emplace h.cseq (value_or_zero (scan_value s)) };
        },
        true,
      )
]

abbrev pub is_some {ℓ} : {A : Type ℓ} → Option A → Bool
is_some none = false
is_some (some a) = true

-- ParseAccept, whose `rfind` is only compared with `npos`.
unfoldable pub parse_accept : Text → Bool
parse_accept message =
    is_some (find_end (codes "Accept") message) && is_some (find_end (codes "sdp") message)

unfoldable pub keep_channels : Scanned (ℕ × ℕ) → RtspRequest → RtspRequest × Bool
keep_channels (matched (first, second)) r =
    let h = r.header_line_param in
    (
      record r {
        header_line_param = record h {
          rtp_channel = emplace h.rtp_channel first;
          rtcp_channel = emplace h.rtcp_channel second;
        };
      },
      true,
    )
keep_channels _ r = (r, false)

unfoldable pub keep_ports : Scanned (ℕ × ℕ) → RtspRequest → RtspRequest × Bool
keep_ports (matched (first, second)) r =
    let h = r.header_line_param in
    (
      record r {
        header_line_param = record h {
          rtp_port = emplace h.rtp_port first;
          rtcp_port = emplace h.rtcp_port second;
        };
      },
      true,
    )
keep_ports _ r = (r, false)

-- The text from "RTP/AVP" on.
unfoldable pub parse_datagram_transport : Text → RtspRequest → RtspRequest × Bool
parse_datagram_transport s r =
    if contains (codes "unicast") s
    then keep_ports (scan_pair s) (record r { transport = over_udp })
    else if contains (codes "multicast") s
    then keep_ports (matched (0, 0)) (record r { transport = over_multicast })
    else (r, false)

unfoldable pub parse_profile : Text → RtspRequest → RtspRequest × Bool
parse_profile message r = elim (from_found (codes "RTP/AVP/TCP") message) [
  | some s ↦ keep_channels (scan_pair s) (record r { transport = over_tcp })
  | none ↦ elim (from_found (codes "RTP/AVP") message) [
    | some s ↦ parse_datagram_transport s r
    | none ↦ (r, false)
  ]
]

unfoldable pub parse_transport : Text → RtspRequest → RtspRequest × Bool
parse_transport message r =
    if contains (codes "Transport") message then parse_profile message r else (r, false)

abbrev is_match {ℓ} : {A : Type ℓ} → Scanned A → Bool
is_match (matched a) = true
is_match _ = false

-- ParseSessionId, that drops the number.
unfoldable pub parse_session_id : Text → Bool
parse_session_id message = elim (from_found (codes "Session") message) [
  | none ↦ false
  | some s ↦ is_match (scan_value s)
]

unfoldable pub parse_media_channel : RtspRequest → RtspRequest
parse_media_channel r = elim r.request_line_param.url [
  | none ↦ record r { channel_id = 0 }
  | some url ↦ record r { channel_id = if contains (codes "track1") url then 1 else 0 }
]

-- `message.substr(pos + 10, 32)`, where `pos` is that of "response="; a shorter text is dropped.
unfoldable pub keep_response : Text → ℕ → RtspRequest → Result RtspRequest
keep_response message pos r =
    let response = take 32 (drop (pos + 10) message) in
    if ltb (length message) (pos + 10)
    then fault substr_out_of_range
    else ok (record r { auth_response = if length response == 32 then response else [] })

-- ParseAuthorization, whose answer nobody uses.
unfoldable pub parse_authorization : Text → RtspRequest → Result RtspRequest
parse_authorization message r =
    if contains (codes "Authorization") message
    then elim (search (codes "response=") message) as (λ o. Result RtspRequest) [
      | none ↦ ok (record r { auth_response = [] })
      | some pos ↦ keep_response message pos r
    ]
    else ok (record r { auth_response = [] })

abbrev pub wants_authorization : Method → Bool
wants_authorization describe = true
wants_authorization setup = true
wants_authorization play = true
wants_authorization _ = false

unfoldable pub finish_setup : RtspRequest × Bool → RtspRequest
finish_setup (r, true) = record (parse_media_channel r) { state = got_all }
finish_setup (r, false) = r

abbrev finish_if : Bool → RtspRequest → RtspRequest
finish_if true r = record r { state = got_all }
finish_if false r = r

-- What each method asks of its headers; the answer is always true.
unfoldable pub finish_headers : Method → Text → RtspRequest → RtspRequest
finish_headers options message r = record r { state = got_all }
finish_headers describe message r = finish_if (parse_accept message) r
finish_headers setup message r = finish_setup (parse_transport message r)
finish_headers play message r = finish_if (parse_session_id message) r
finish_headers teardown message r = record r { state = got_all }
finish_headers get_parameter message r = record r { state = got_all }
finish_headers rtcp message r = r
finish_headers no_method message r = r

unfoldable pub parse_authorized : Text → RtspRequest → Result RtspRequest
parse_authorized message r =
    if wants_authorization r.method then parse_authorization message r else ok r

-- ParseHeadersLine
unfoldable pub parse_headers : Text → RtspRequest → Result (RtspRequest × Bool)
parse_headers message r =
    let (r1, found) = parse_cseq message r in
    if not found && not (is_some r1.header_line_param.cseq)
    then ok (r1, false)
    else do r2 ← parse_authorized message r1; ok (finish_headers r2.method message r2, true)

-- The state kParseHeadersLine; `ret` is what the loop holds so far.
unfoldable pub read_headers :
    Bool → BufferReader → RtspRequest → Result (BufferReader × RtspRequest × Bool)
read_headers ret b r =
    elim (find_last_crlf b) as (λ o. Result (BufferReader × RtspRequest × Bool)) [
      | none ↦ ok (b, r, ret)
      | some at ↦ do
        parsed ← parse_headers (take at (peek b)) r
        ok (retrieve b (at + 2), parsed.0, parsed.1)
    ]

abbrev pub is_headers : ParseState → Bool
is_headers parse_headers_line = true
is_headers _ = false

-- Behind the state kParseRequestLine: another turn of the loop, or its end.
unfoldable pub next_turn :
    Bool → BufferReader → RtspRequest → Result (BufferReader × RtspRequest × Bool)
next_turn ret b r = if is_headers r.state then read_headers ret b r else ok (b, r, ret)

-- The state kParseRequestLine.
unfoldable pub read_line : BufferReader → RtspRequest → Result (BufferReader × RtspRequest × Bool)
read_line b r = elim (find_first_crlf b) as (λ o. Result (BufferReader × RtspRequest × Bool)) [
  | none ↦ next_turn true b r
  | some at ↦ do
    parsed ← parse_line (take at (peek b)) r
    next_turn parsed.1 (retrieve b (at + 2)) parsed.0
]

unfoldable pub run_state :
    ParseState → BufferReader → RtspRequest → Result (BufferReader × RtspRequest × Bool)
run_state parse_request_line b r = read_line b r
run_state parse_headers_line b r = read_headers true b r
run_state got_all b r = ok (retrieve_all b, r, true)

-- The byte at `Peek()`.
abbrev pub first_byte : BufferReader → ℕ
first_byte b = get_or b.buffer b.reader_index 0

unfoldable pub parse_request :
    BufferReader → RtspRequest → Result (BufferReader × RtspRequest × Bool)
parse_request b r =
    if first_byte b == b'$' then ok (b, record r { method = rtcp }, true) else run_state r.state b r
