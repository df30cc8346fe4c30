-- ===== src/Rtsp/RtspMessage/Response.antt =====
-- RtspResponse of src/rtsp/RtspMessage.h and RtspMessage.cpp: the pusher's requests, and the answers to
-- them. `memory` of the buffer is what `strstr` sees: the bytes from `Peek()` to the first NUL, those behind
-- `BeginWrite()` too.
use stream_sight.Base.{
  ℕ, Bool, true, false, not, none, some, ◌∷◌, ◌++◌, if◌then◌else◌, ◌==◌, length, drop, add32,
}
use stream_sight.Net.BufferReader.{BufferReader, retrieve}
use stream_sight.Rtsp.RtspMessage.HeaderLines.{from_found}
use stream_sight.Rtsp.RtspMessage.{Result, ok, fault, array_overrun, ◌>>=◌}
use stream_sight.Text.Print.{decimal, decimal_int, snprintf}
use stream_sight.Text.Scan.{
  Scanned, matched, mismatch, overrun, ◌>>=◌ as ◌>>>◌, set_not, literal, word, store,
}
use stream_sight.Text.{Text, codes, c_str, contains}

pub data Sought : Type 0 where
  options describe announce setup record_stream rtcp none_sought : Sought

pub record RtspResponse : Type 0 where
  pub method : Sought
  pub cseq : ℕ
  pub user_agent : Text
  pub rtsp_url : Text
  pub session : Text

unfoldable pub set_user_agent : Text → RtspResponse → RtspResponse
set_user_agent user_agent r = record r { user_agent = user_agent }

unfoldable pub set_rtsp_url : Text → RtspResponse → RtspResponse
set_rtsp_url url r = record r { rtsp_url = url }

-- "%*[^:]: %s" into `session_id[50]`.
unfoldable pub scan_session : Text → Scanned (Text × Text)
scan_session s = set_not b':' s >>> λ name. literal b':' name.1 >>> λ s. word s >>> store 50

unfoldable pub keep_session : Scanned (Text × Text) → RtspResponse → Result RtspResponse
keep_session (matched (id, rest)) r = ok (record r { session = id })
keep_session mismatch r = ok r
keep_session overrun r = fault array_overrun

unfoldable pub parse_session : Text → RtspResponse → Result RtspResponse
parse_session memory r = elim (from_found (codes "Session") memory) as (λ o. Result RtspResponse) [
  | none ↦ ok r
  | some s ↦ keep_session (scan_session s) r
]

abbrev pub memory : BufferReader → Text
memory b = c_str (drop b.reader_index b.buffer)

-- `RetrieveUntil("\r\n\r\n")` takes the distance from `Peek()` to that literal, wherever the compiler
-- put it: it is the argument `gap`.
unfoldable pub parse_response :
    ℕ → BufferReader → RtspResponse → Result (BufferReader × RtspResponse × Bool)
parse_response gap b r =
    let taken = do
      r' ← parse_session (memory b) r
      ok (retrieve b gap, record r' { cseq = add32 r'.cseq 1 }, true)
    in if not (contains (codes "\r\n\r\n") (memory b))
      then ok (b, r, true)
      else if not (contains (codes "OK") (memory b))
      then ok (b, r, false)
      else taken

-- "CSeq: %u\r\nUser-Agent: %s\r\n"
abbrev pub cseq_line : RtspResponse → Text
cseq_line r = codes "CSeq: " ++ decimal (add32 r.cseq 1) ++ codes "\r\n"

abbrev pub agent_line : RtspResponse → Text
agent_line r = codes "User-Agent: " ++ c_str r.user_agent ++ codes "\r\n"

abbrev pub session_line : RtspResponse → Text
session_line r = codes "Session: " ++ c_str r.session ++ codes "\r\n"

abbrev pub request_line : Text → Text → Text
request_line name url = name ++ (b' ' ∷ (url ++ codes " RTSP/1.0\r\n"))

-- A builder names the method whose answer comes next.
abbrev asks : Sought → RtspResponse → RtspResponse
asks method r = record r { method = method }

unfoldable pub build_option_req : ℕ → RtspResponse → RtspResponse × Text
build_option_req size r = (
  asks options r,
  snprintf size (
      request_line (codes "OPTIONS") (c_str r.rtsp_url)
      ++ cseq_line r
      ++ agent_line r
      ++ codes "\r\n"),
)

unfoldable pub build_announce_req : ℕ → Text → RtspResponse → RtspResponse × Text
build_announce_req size sdp r = (
  asks announce r,
  snprintf size (
      request_line (codes "ANNOUNCE") (c_str r.rtsp_url)
      ++ codes "Content-Type: application/sdp\r\n"
      ++ cseq_line r
      ++ agent_line r
      ++ session_line r
      ++ codes "Content-Length: "
      ++ decimal_int (length sdp)
      ++ codes "\r\n\r\n"
      ++ sdp),
)

unfoldable pub build_describe_req : ℕ → RtspResponse → RtspResponse × Text
build_describe_req size r = (
  asks describe r,
  snprintf size (
      request_line (codes "DESCRIBE") (c_str r.rtsp_url)
      ++ cseq_line r
      ++ codes "Accept: application/sdp\r\n"
      ++ agent_line r
      ++ codes "\r\n"),
)

unfoldable pub build_setup_tcp_req : ℕ → ℕ → RtspResponse → RtspResponse × Text
build_setup_tcp_req size track_id r =
    let track = codes "/track" ++ decimal_int track_id in
    let interleaved = if track_id == 1 then codes "2-3" else codes "0-1" in
    (
      asks setup r,
      snprintf size (
          request_line (codes "SETUP") (c_str r.rtsp_url ++ track)
          ++ codes "Transport: RTP/AVP/TCP;unicast;mode=record;interleaved="
          ++ interleaved
          ++ codes "\r\n"
          ++ cseq_line r
          ++ agent_line r
          ++ session_line r
          ++ codes "\r\n"),
    )

unfoldable pub build_record_req : ℕ → RtspResponse → RtspResponse × Text
build_record_req size r = (
  asks record_stream r,
  snprintf size (
      request_line (codes "RECORD") (c_str r.rtsp_url)
      ++ codes "Range: npt=0.000-\r\n"
      ++ cseq_line r
      ++ agent_line r
      ++ session_line r
      ++ codes "\r\n"),
)
