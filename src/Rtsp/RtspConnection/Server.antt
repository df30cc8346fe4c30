-- ===== src/Rtsp/RtspConnection/Server.antt =====
-- The command handlers of src/rtsp/RtspConnection.cpp.
use stream_sight.Base.{
  ℕ, zero, suc, ◌%◌, ◌^◌, Bool, true, false, not, ◌&&◌, Option, none, some, [], if◌then◌else◌,
}
use stream_sight.Rtsp.MediaSession.{add_client}
use stream_sight.Rtsp.RtpConnection.{
  RtpConnection, put, max_media_channel, TransportMode, over_tcp, over_udp, over_multicast,
  set_clock_rate, set_payload_type, setup_rtp_over_tcp, play, teardown,
}
use stream_sight.Rtsp.RtpConnection.Setup.{Draw, setup_rtp_over_udp, setup_rtp_over_multicast}
use stream_sight.Rtsp.RtspConnection.{
  RtspConnection, DigestAuthentication, State, start_play, get_response, look_session,
  send_rtsp_message,
}
use stream_sight.Rtsp.RtspMessage.Respond.{
  build_option_res, build_describe_res, build_setup_multicast_res, build_setup_udp_res,
  build_setup_tcp_res, build_play_res, build_teardown_res, build_get_parameter_res,
  build_not_found_res, build_server_error_res, build_unsupported_res, build_unauthorized_res,
}
use stream_sight.Rtsp.RtspMessage.{
  Method, Result, ok, fault, null_pointer, get_rtsp_url, get_rtsp_url_suffix, get_rtp_channel,
  get_rtcp_channel, get_rtp_port, get_rtcp_port,
}
use stream_sight.Rtsp.Sdp.{Described, Description, get_sdp_message}
use stream_sight.Text.{Text, codes, c_str, text_eq}

-- MethodToString
abbrev pub method_to_string : Method → Text
method_to_string Method.options = codes "OPTIONS"
method_to_string Method.describe = codes "DESCRIBE"
method_to_string Method.setup = codes "SETUP"
method_to_string Method.play = codes "PLAY"
method_to_string Method.teardown = codes "TEARDOWN"
method_to_string Method.get_parameter = codes "GET_PARAMETER"
method_to_string Method.rtcp = codes "RTCP"
method_to_string Method.no_method = codes "NONE"

-- The system's answers: the local address of the socket, the time of day, the clock of the timers, the draws of
-- ports, whether the peer's address is known, a fresh nonce, what MD5 gives, and the distance that RtspResponse::ParseResponse takes to a literal.
pub record Environment (E : Type 0) : Type 0 where
  pub socket_ip : Text
  pub time : ℕ
  pub now : ℕ
  pub rtcp : E
  pub draws : ℕ → Draw
  pub peer_known : Bool
  pub generate_nonce : Text
  pub md5_hash_hex : Text → Text
  pub new_rtp_conn : RtpConnection E
  pub rtp_session_id : ℕ
  pub literal_gap : ℕ

-- A handler's end: the state, with a message sent.
module _ {E : Type 0} where
  abbrev pub sends : Text → State E → State E
  sends text s = send_rtsp_message text s

  abbrev pub with_rtp : RtpConnection E → State E → State E
  with_rtp rtp s = record s { conn = record s.conn { rtp_conn = some rtp } }

module _ {E : Type 0} (env : Environment E) where
  unfoldable pub challenge : DigestAuthentication → State E → State E
  challenge info s =
      sends
        (build_unauthorized_res 4096 (c_str info.realm) (c_str env.generate_nonce)
          s.conn.rtsp_request)
        (record s { conn = record s.conn { nonce = env.generate_nonce } })

  -- `_nonce.size() > 0 && (… == …)`
  unfoldable pub is_answered : DigestAuthentication → RtspConnection E → Bool
  is_answered info c =
      not (text_eq c.nonce [])
      && text_eq
          (get_response env.md5_hash_hex info c.nonce (method_to_string c.rtsp_request.method)
            (get_rtsp_url c.rtsp_request))
          c.rtsp_request.auth_response

  -- HandleAuthentication, on the pointer to the account.
  unfoldable pub authenticate : Option DigestAuthentication → State E → State E × Bool
  authenticate none s = (s, true)
  authenticate (some info) s =
      if s.conn.has_auth
      then (s, true)
      else if is_answered info s.conn
      then (record s { conn = record s.conn { nonce = []; has_auth = true } }, true)
      else (challenge info s, false)

  abbrev pub handle_authentication : State E → State E × Bool
  handle_authentication s = authenticate s.conn.auth_info s

  unfoldable pub handle_cmd_option : State E → State E
  handle_cmd_option s = sends (build_option_res 2048 s.conn.rtsp_request) s

  abbrev describe_channel : ℕ → Option Described → RtpConnection E → RtpConnection E
  describe_channel chn none rtp = rtp
  describe_channel chn (some source) rtp =
      set_payload_type chn source.payload_type (set_clock_rate chn source.clock_rate rtp)

  -- The loop that tells the RTP side of the sources.
  unfoldable pub describe_channels : ℕ → (ℕ → Option Described) → RtpConnection E → RtpConnection E
  describe_channels zero sources rtp = rtp
  describe_channels (suc n) sources rtp =
      let before = describe_channels n sources rtp in describe_channel n (sources n) before

  -- What HandleCmdDescribe and SendAnnounce do with the session that was found; also the description.
  unfoldable pub join : ℕ → State E → State E × Text
  join id s =
      let (d', sdp) =
        get_sdp_message env.time env.socket_ip s.rtsp.version (s.rtsp.descriptions id) in
      (
        record {
          conn = record s.conn { session_id = id };
          rtsp = record s.rtsp {
            media_sessions =
                put id (add_client s.conn.socket s.conn.socket (s.rtsp.media_sessions id)).0
                  s.rtsp.media_sessions;
            descriptions = put id d' s.rtsp.descriptions;
          };
        },
        sdp,
      )

  -- The RTP side is told of the sources of a session.
  abbrev pub described : ℕ → RtpConnection E → State E → RtpConnection E
  described id rtp s =
      describe_channels max_media_channel (s.rtsp.descriptions id).media_sources rtp

  unfoldable pub answer_describe : State E × Text → State E
  answer_describe (s, sdp) =
      sends
        (if text_eq sdp []
          then build_server_error_res 4096 s.conn.rtsp_request
          else build_describe_res 4096 (c_str sdp) s.conn.rtsp_request)
        s

  abbrev pub or_new : Option (RtpConnection E) → RtpConnection E
  or_new none = env.new_rtp_conn
  or_new (some rtp) = rtp

  unfoldable pub describe_found : Option ℕ → RtpConnection E → State E → State E
  describe_found none rtp s = sends (build_not_found_res 4096 s.conn.rtsp_request) (with_rtp rtp s)
  describe_found (some id) rtp s = answer_describe (join id (with_rtp (described id rtp s) s))

  unfoldable pub describe_authorized : State E × Bool → State E
  describe_authorized (s, false) = s
  describe_authorized (s, true) =
      describe_found
        (look_session (s.rtsp.look_suffix (get_rtsp_url_suffix s.conn.rtsp_request)) s.rtsp)
        (or_new s.conn.rtp_conn) s

  unfoldable pub handle_cmd_describe : State E → State E
  handle_cmd_describe s = describe_authorized (handle_authentication s)

  abbrev pub server_error : State E → State E
  server_error s = sends (build_server_error_res 4096 s.conn.rtsp_request) s

  abbrev pub unsupported : State E → State E
  unsupported s = sends (build_unsupported_res 4096 s.conn.rtsp_request) s

  -- `uint16_t session_id = rtp_conn_->GetRtpSessionId()`
  abbrev pub session_number : ℕ
  session_number = env.rtp_session_id % 2 ^ 16

  unfoldable pub setup_multicast : ℕ → Description → RtpConnection E × Bool → State E → State E
  setup_multicast chn d (rtp, false) s = server_error (with_rtp rtp s)
  setup_multicast chn d (rtp, true) s =
      sends
        (build_setup_multicast_res 4096 (c_str d.multicast_ip) (d.multicast_port chn) session_number
          s.conn.rtsp_request)
        (with_rtp rtp s)

  unfoldable pub setup_tcp : ℕ → RtpConnection E → State E → State E
  setup_tcp chn rtp s =
      let r = s.conn.rtsp_request in
      sends (build_setup_tcp_res 4096 (get_rtp_channel r) (get_rtcp_channel r) session_number r)
        (with_rtp (setup_rtp_over_tcp chn (get_rtp_channel r) (get_rtcp_channel r) rtp).0 s)

  -- The RTCP socket of the channel is watched from now on.
  unfoldable pub watch : ℕ → RtpConnection E → State E → State E
  watch chn rtp s = record s {
    conn = record s.conn {
      rtp_conn = some rtp;
      rtcp_channels = put chn (some (rtp.rtcpfd chn)) s.conn.rtcp_channels;
      watched = put (rtp.rtcpfd chn) true s.conn.watched;
    };
  }

  unfoldable pub setup_udp : ℕ → RtpConnection E × Bool → State E → State E
  setup_udp chn (rtp, false) s = server_error (with_rtp rtp s)
  setup_udp chn (rtp, true) s =
      sends
        (build_setup_udp_res 4096 (rtp.local_rtp_port chn) (rtp.local_rtcp_port chn) session_number
          s.conn.rtsp_request)
        (watch chn rtp s)

  unfoldable pub setup_by_mode :
      Bool → TransportMode → Description → RtpConnection E → State E → State E
  setup_by_mode true over_multicast d rtp s =
      let chn = s.conn.rtsp_request.channel_id in
      setup_multicast chn d (setup_rtp_over_multicast env.draws chn (d.multicast_port chn) rtp) s
  setup_by_mode true over_tcp d rtp s = unsupported s
  setup_by_mode true over_udp d rtp s = unsupported s
  setup_by_mode false over_tcp d rtp s = setup_tcp s.conn.rtsp_request.channel_id rtp s
  setup_by_mode false over_udp d rtp s =
      let r = s.conn.rtsp_request in
      setup_udp r.channel_id
        (setup_rtp_over_udp env.draws env.peer_known r.channel_id (get_rtp_port r) (get_rtcp_port r)
          rtp)
        s
  setup_by_mode false over_multicast d rtp s = unsupported s

  -- Whether a transport is refused before `rtp_conn_` is used.
  abbrev pub is_refused : Bool → TransportMode → Bool
  is_refused true over_multicast = false
  is_refused true _ = true
  is_refused false over_multicast = true
  is_refused false _ = false

  unfoldable pub setup_with : Option (RtpConnection E) → ℕ → State E → Result (State E)
  setup_with none id s =
      if is_refused (s.rtsp.media_sessions id).is_multicast s.conn.rtsp_request.transport
      then ok (unsupported s)
      else fault null_pointer
  setup_with (some rtp) id s = ok (
      setup_by_mode (s.rtsp.media_sessions id).is_multicast s.conn.rtsp_request.transport
        (s.rtsp.descriptions id) rtp s)

  unfoldable pub setup_found : Option ℕ → State E → Result (State E)
  setup_found none s = ok (server_error s)
  setup_found (some id) s = setup_with s.conn.rtp_conn id s

  unfoldable pub setup_authorized : State E × Bool → Result (State E)
  setup_authorized (s, false) = ok s
  setup_authorized (s, true) =
      setup_found (look_session (s.rtsp.look_id s.conn.session_id) s.rtsp) s

  unfoldable pub handle_cmd_setup : State E → Result (State E)
  handle_cmd_setup s = setup_authorized (handle_authentication s)

  unfoldable pub play_with : Option (RtpConnection E) → State E → State E
  play_with none s = s
  play_with (some rtp) s =
      sends (build_play_res 2048 none session_number s.conn.rtsp_request) (record s {
        conn = record s.conn {
          conn_state = start_play;
          rtp_conn = some (play env.rtcp env.now rtp);
        };
      })

  unfoldable pub play_authorized : State E × Bool → State E
  play_authorized (s, false) = s
  play_authorized (s, true) = play_with s.conn.rtp_conn s

  unfoldable pub handle_cmd_play : State E → State E
  handle_cmd_play s = play_authorized (handle_authentication s)

  unfoldable pub teardown_with : Option (RtpConnection E) → State E → State E
  teardown_with none s = s
  teardown_with (some rtp) s =
      sends (build_teardown_res 2048 session_number s.conn.rtsp_request) (with_rtp (teardown rtp) s)

  abbrev pub handle_cmd_teardown : State E → State E
  handle_cmd_teardown s = teardown_with s.conn.rtp_conn s

  unfoldable pub get_parameter_with : Option (RtpConnection E) → State E → State E
  get_parameter_with none s = s
  get_parameter_with (some rtp) s =
      sends (build_get_parameter_res 2048 session_number s.conn.rtsp_request) s

  abbrev pub handle_cmd_get_parameter : State E → State E
  handle_cmd_get_parameter s = get_parameter_with s.conn.rtp_conn s

  -- The switch of HandleRtspRequest.
  unfoldable pub handle_cmd : Method → State E → Result (State E)
  handle_cmd Method.options s = ok (handle_cmd_option s)
  handle_cmd Method.describe s = ok (handle_cmd_describe s)
  handle_cmd Method.setup s = handle_cmd_setup s
  handle_cmd Method.play s = ok (handle_cmd_play s)
  handle_cmd Method.teardown s = ok (handle_cmd_teardown s)
  handle_cmd Method.get_parameter s = ok (handle_cmd_get_parameter s)
  handle_cmd Method.rtcp s = ok s
  handle_cmd Method.no_method s = ok s
