-- ===== src/Rtsp/RtspConnection/Read.antt =====
-- What src/rtsp/RtspConnection.cpp does with the bytes that come: OnRead and what it calls.
use stream_sight.Base.{
  ℕ, ◌+◌, ◌-◌, ◌*◌, ◌%◌, ◌^◌, Bool, true, false, not, ◌&&◌, Option, none, some, if◌then◌else◌, ltb,
  leb, ◌==◌, get_or, bit_or, add32,
}
use stream_sight.Net.BufferReader.{BufferReader, readable_bytes, retrieve, retrieve_all}
use stream_sight.Rtsp.RtspConnection.Pusher.{send_announce, send_setup, handle_record}
use stream_sight.Rtsp.RtspConnection.Server.{Environment, handle_cmd}
use stream_sight.Rtsp.RtspConnection.{State, ConnectionMode, rtsp_server, rtsp_pusher, keep_alive}
use stream_sight.Rtsp.RtspMessage.Request.{parse_request, first_byte}
use stream_sight.Rtsp.RtspMessage.Response.{
  RtspResponse, Sought, options, describe, announce, setup, record_stream, rtcp, none_sought,
  parse_response,
}
use stream_sight.Rtsp.RtspMessage.{Method, RtspRequest, Result, ok, ◌>>=◌, reset, has_got_all}

abbrev pub max_rtsp_message_size : ℕ
max_rtsp_message_size = 2048

-- `char` is signed: its value as a word of 32 bits.
unfoldable pub char_word : ℕ → ℕ
char_word c = if ltb c (2 ^ 7) then c else c + (2 ^ 32 - 2 ^ 8)

-- `peek[2] << 8 | peek[3]`
unfoldable pub packet_size : BufferReader → ℕ
packet_size b =
    bit_or (char_word (get_or b.buffer (b.reader_index + 2) 0) * 2 ^ 8 % 2 ^ 32)
      (char_word (get_or b.buffer (b.reader_index + 3) 0))

abbrev pub is_rtcp : Method → Bool
is_rtcp Method.rtcp = true
is_rtcp _ = false

abbrev pub Reading : Type 0 → Type 0
Reading E = BufferReader × State E × Bool

module _ {E : Type 0} where
  -- HandleRtcp on the buffer, and on a socket that gave `n` bytes or an error.
  unfoldable pub handle_rtcp : BufferReader → State E → BufferReader × State E
  handle_rtcp b s =
      if not (first_byte b == b'$' && ltb 4 (readable_bytes b))
      then (b, s)
      else if leb (add32 (packet_size b) 4) (readable_bytes b)
      then (retrieve b (add32 (packet_size b) 4), record s { conn = keep_alive s.conn })
      else (b, s)

  unfoldable pub handle_rtcp_socket : Option ℕ → State E → State E
  handle_rtcp_socket none s = s
  handle_rtcp_socket (some n) s = if ltb 0 n then record s { conn = keep_alive s.conn } else s

  abbrev pub with_request : RtspRequest → State E → State E
  with_request r s = record s { conn = record s.conn { rtsp_request = r } }

  unfoldable pub finish_request : State E → State E
  finish_request s =
      if has_got_all s.conn.rtsp_request then with_request (reset s.conn.rtsp_request) s else s

module _ {E : Type 0} (env : Environment E) (alive : ℕ → Bool) where
  -- Behind ParseRequest.
  unfoldable pub dispatch : BufferReader → State E → Result (Reading E)
  dispatch b s =
      let r = s.conn.rtsp_request in
      let frame = handle_rtcp b s in
      if is_rtcp r.method
      then ok (frame.0, frame.1, true)
      else if not (has_got_all r)
      then ok (b, s, true)
      else do handled ← handle_cmd env r.method s; ok (b, finish_request handled, true)

  unfoldable pub request_parsed : BufferReader × RtspRequest × Bool → State E → Result (Reading E)
  request_parsed (b, r, true) s = dispatch b (with_request r s)
  request_parsed (b, r, false) s = ok (b, with_request r s, false)

  unfoldable pub handle_rtsp_request : BufferReader → State E → Result (Reading E)
  handle_rtsp_request b s = do parsed ← parse_request b s.conn.rtsp_request; request_parsed parsed s

  unfoldable pub answer_of : ConnectionMode → Sought → State E → Result (State E)
  answer_of rtsp_pusher options s = send_announce env alive s
  answer_of rtsp_server options s = ok s
  answer_of mode announce s = send_setup env alive s
  answer_of mode describe s = send_setup env alive s
  answer_of mode setup s = send_setup env alive s
  answer_of mode record_stream s = handle_record env s
  answer_of mode rtcp s = ok s
  answer_of mode none_sought s = ok s

  abbrev with_response : RtspResponse → State E → State E
  with_response r s = record s { conn = record s.conn { rtsp_response = r } }

  unfoldable pub response_parsed : BufferReader × RtspResponse × Bool → State E → Result (Reading E)
  response_parsed (b, r, false) s = ok (b, with_response r s, false)
  response_parsed (b, r, true) s = do
    handled ← answer_of s.conn.conn_mode r.method (with_response r s)
    ok (b, handled, true)

  unfoldable pub handle_rtsp_response : BufferReader → State E → Result (Reading E)
  handle_rtsp_response b s = do
    parsed ← parse_response env.literal_gap b s.conn.rtsp_response
    response_parsed parsed s

  -- The end of OnRead: a buffer that grew too long is dropped.
  unfoldable pub cap : Reading E → Reading E
  cap (b, s, false) = (b, s, false)
  cap (b, s, true) =
      (if ltb max_rtsp_message_size (readable_bytes b) then retrieve_all b else b, s, true)

  unfoldable pub handle_by_mode : ConnectionMode → BufferReader → State E → Result (Reading E)
  handle_by_mode rtsp_server b s = handle_rtsp_request b s
  handle_by_mode rtsp_pusher b s = handle_rtsp_response b s

  unfoldable pub on_read : BufferReader → State E → Result (Reading E)
  on_read b s =
      let s' = record s { conn = keep_alive s.conn } in
      if readable_bytes b == 0
      then ok (b, s', false)
      else do read ← handle_by_mode s'.conn.conn_mode b s'; ok (cap read)
