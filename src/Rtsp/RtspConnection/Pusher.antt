-- ===== src/Rtsp/RtspConnection/Pusher.antt =====
-- The pusher's side of src/rtsp/RtspConnection.cpp: OPTIONS, ANNOUNCE, SETUP per channel, RECORD.
use stream_sight.Base.{ℕ, Bool, true, false, not, Option, none, some, [], if◌then◌else◌}
use stream_sight.Rtsp.RtpConnection.{RtpConnection, setup_rtp_over_tcp, start_record}
use stream_sight.Rtsp.RtspConnection.Server.{Environment, sends, with_rtp, or_new, join, described}
use stream_sight.Rtsp.RtspConnection.{State, ConnectionMode, start_push, look_session, handle_close}
use stream_sight.Rtsp.RtspMessage.Response.{
  RtspResponse, set_user_agent, set_rtsp_url, build_option_req, build_describe_req,
  build_announce_req, build_setup_tcp_req, build_record_req,
}
use stream_sight.Rtsp.RtspMessage.{Result, ok, fault, null_pointer, ◌>>=◌}
use stream_sight.Rtsp.Sdp.{Described}
use stream_sight.Text.{Text, codes, c_str, text_eq}

abbrev pub user_agent_name : Text
user_agent_name = codes "-_-"

-- The second channel is looked at when the first one needs no SETUP.
abbrev pub unless : Bool → Result Bool → Result Bool
unless true later = ok false
unless false later = later

-- Without an RTP side, the first source leads to a call through a null pointer.
abbrev pub has_source : (ℕ → Option Described) → Bool
has_source sources = elim (sources 0) [
  | some source ↦ true
  | none ↦ elim (sources 1) [ some source ↦ true | none ↦ false ]
]

module _ {E : Type 0} where
  -- A request is built, which changes `rtsp_response_`, and sent.
  abbrev pub requests : RtspResponse × Text → State E → State E
  requests (r, text) s = sends text (record s { conn = record s.conn { rtsp_response = r } })

  unfoldable pub send_describe : State E → State E
  send_describe s = requests (build_describe_req 2048 s.conn.rtsp_response) s

  -- `GetMediaSource(chn) && !rtp_conn_->IsSetup(chn)`
  unfoldable pub needs_setup : ℕ → Option Described → Option (RtpConnection E) → Result Bool
  needs_setup chn none rtp = ok false
  needs_setup chn (some source) none = fault null_pointer
  needs_setup chn (some source) (some rtp) = ok (not (rtp.media_channel_info chn).is_setup)

  unfoldable pub setup_track : ℕ → ℕ → ℕ → Option (RtpConnection E) → State E → Result (State E)
  setup_track chn rtp_channel rtcp_channel none s = fault null_pointer
  setup_track chn rtp_channel rtcp_channel (some rtp) s = ok (
      requests (build_setup_tcp_req 2048 chn s.conn.rtsp_response)
        (with_rtp (setup_rtp_over_tcp chn rtp_channel rtcp_channel rtp).0 s))

  unfoldable pub setup_chosen : Bool → Bool → State E → Result (State E)
  setup_chosen true second s = setup_track 0 0 1 s.conn.rtp_conn s
  setup_chosen false true s = setup_track 1 2 3 s.conn.rtp_conn s
  setup_chosen false false s = ok (requests (build_record_req 2048 s.conn.rtsp_response) s)

  -- The channel that comes next, or RECORD when none is left.
  unfoldable pub setup_next : (ℕ → Option Described) → State E → Result (State E)
  setup_next sources s = do
    first ← needs_setup 0 (sources 0) s.conn.rtp_conn
    second ← unless first (needs_setup 1 (sources 1) s.conn.rtp_conn)
    setup_chosen first second s

module _ {E : Type 0} (env : Environment E) where
  unfoldable pub record_with : Option (RtpConnection E) → State E → Result (State E)
  record_with none s = fault null_pointer
  record_with (some rtp) s = ok (record s {
    conn = record s.conn {
      conn_state = start_push;
      rtp_conn = some (start_record env.rtcp env.now rtp);
    };
  })

  abbrev pub handle_record : State E → Result (State E)
  handle_record s = record_with s.conn.rtp_conn s

  module _ (alive : ℕ → Bool) where
    unfoldable pub send_options : ConnectionMode → State E → State E
    send_options mode s =
        let s' = with_rtp (or_new env s.conn.rtp_conn) s in
        let named = record s'.conn {
          conn_mode = mode;
          rtsp_response =
              set_rtsp_url (c_str s.rtsp.rtsp_url)
                (set_user_agent user_agent_name s.conn.rtsp_response);
        } in
        if s.rtsp.known
        then requests (build_option_req 2048 named.rtsp_response) (record s' { conn = named })
        else handle_close alive s'

    unfoldable pub announce_to : State E × Text → State E
    announce_to (s, sdp) =
        if text_eq sdp []
        then handle_close alive s
        else requests (build_announce_req 4096 (c_str sdp) s.conn.rtsp_response) s

    unfoldable pub announce_with : Option (RtpConnection E) → ℕ → State E → Result (State E)
    announce_with none id s =
        if has_source (s.rtsp.descriptions id).media_sources
        then fault null_pointer
        else ok (announce_to (join env id s))
    announce_with (some rtp) id s =
        ok (announce_to (join env id (with_rtp (described env id rtp s) s)))

    unfoldable pub announce_found : Option ℕ → State E → Result (State E)
    announce_found none s = ok (handle_close alive s)
    announce_found (some id) s = announce_with s.conn.rtp_conn id s

    -- The id does not matter to a pusher, that has one session.
    unfoldable pub send_announce : State E → Result (State E)
    send_announce s = announce_found (look_session (s.rtsp.look_id 1) s.rtsp) s

    unfoldable pub setup_session : Option ℕ → State E → Result (State E)
    setup_session none s = ok (handle_close alive s)
    setup_session (some id) s = setup_next (s.rtsp.descriptions id).media_sources s

    unfoldable pub send_setup : State E → Result (State E)
    send_setup s = setup_session (look_session (s.rtsp.look_id s.conn.session_id) s.rtsp) s
