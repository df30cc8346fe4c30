-- ===== src/Rtsp/RtspMessage/Respond.antt =====
-- The answers that RtspRequest of src/rtsp/RtspMessage.cpp builds: the text in the array, that is cut to
-- its size. The length that is returned is the text's.
use stream_sight.Base.{ℕ, Option, none, some, ◌++◌, length}
use stream_sight.Rtsp.RtspMessage.{RtspRequest, get_cseq, get_ip, get_rtp_port, get_rtcp_port}
use stream_sight.Text.Print.{decimal, decimal_int, snprintf, print_behind}
use stream_sight.Text.{Text, codes, c_str}

abbrev pub status_ok : Text
status_ok = codes "RTSP/1.0 200 OK\r\n"

-- "CSeq: %u\r\n" and "CSeq: %d\r\n"
abbrev pub cseq_line : RtspRequest → Text
cseq_line r = codes "CSeq: " ++ decimal (get_cseq r) ++ codes "\r\n"

abbrev pub cseq_line_int : RtspRequest → Text
cseq_line_int r = codes "CSeq: " ++ decimal_int (get_cseq r) ++ codes "\r\n"

abbrev pub session_line : ℕ → Text
session_line session_id = codes "Session: " ++ decimal session_id ++ codes "\r\n"

unfoldable pub build_option_res : ℕ → RtspRequest → Text
build_option_res size r =
    snprintf size
      (status_ok ++ cseq_line r ++ codes "Public: OPTIONS, DESCRIBE, SETUP, TEARDOWN, PLAY\r\n\r\n")

-- The session description is a C string.
unfoldable pub build_describe_res : ℕ → Text → RtspRequest → Text
build_describe_res size sdp r = snprintf size (
    status_ok
    ++ cseq_line r
    ++ codes "Content-Length: "
    ++ decimal_int (length sdp)
    ++ codes "\r\nContent-Type: application/sdp\r\n\r\n"
    ++ sdp)

unfoldable pub build_setup_multicast_res : ℕ → Text → ℕ → ℕ → RtspRequest → Text
build_setup_multicast_res size multicast_ip port session_id r = snprintf size (
    status_ok
    ++ cseq_line r
    ++ codes "Transport: RTP/AVP;multicast;destination="
    ++ multicast_ip
    ++ codes ";source="
    ++ c_str (get_ip r)
    ++ codes ";port="
    ++ decimal port
    ++ codes "-0;ttl=255\r\n"
    ++ session_line session_id
    ++ codes "\r\n")

unfoldable pub build_setup_udp_res : ℕ → ℕ → ℕ → ℕ → RtspRequest → Text
build_setup_udp_res size rtp_chn rtcp_chn session_id r = snprintf size (
    status_ok
    ++ cseq_line r
    ++ codes "Transport: RTP/AVP;unicast;client_port="
    ++ decimal (get_rtp_port r)
    ++ codes "-"
    ++ decimal (get_rtcp_port r)
    ++ codes ";server_port="
    ++ decimal rtp_chn
    ++ codes "-"
    ++ decimal rtcp_chn
    ++ codes "\r\n"
    ++ session_line session_id
    ++ codes "\r\n")

unfoldable pub build_setup_tcp_res : ℕ → ℕ → ℕ → ℕ → RtspRequest → Text
build_setup_tcp_res size rtp_chn rtcp_chn session_id r = snprintf size (
    status_ok
    ++ cseq_line r
    ++ codes "Transport: RTP/AVP/TCP;unicast;interleaved="
    ++ decimal_int rtp_chn
    ++ codes "-"
    ++ decimal_int rtcp_chn
    ++ codes "\r\n"
    ++ session_line session_id
    ++ codes "\r\n")

abbrev add_rtp_info : ℕ → Option Text → Text → Text
add_rtp_info size none buf = buf
add_rtp_info size (some rtp_info) buf = print_behind size buf (rtp_info ++ codes "\r\n")

unfoldable pub build_play_res : ℕ → Option Text → ℕ → RtspRequest → Text
build_play_res size rtp_info session_id r =
    let head = snprintf size (
      status_ok
      ++ cseq_line_int r
      ++ codes "Range: npt=0.000-\r\nSession: "
      ++ decimal session_id
      ++ codes "; timeout=60\r\n") in
    print_behind size (add_rtp_info size rtp_info head) (codes "\r\n")

unfoldable pub build_teardown_res : ℕ → ℕ → RtspRequest → Text
build_teardown_res size session_id r =
    snprintf size (status_ok ++ cseq_line_int r ++ session_line session_id ++ codes "\r\n")

unfoldable pub build_get_parameter_res : ℕ → ℕ → RtspRequest → Text
build_get_parameter_res size session_id r =
    snprintf size (status_ok ++ cseq_line_int r ++ session_line session_id ++ codes "\r\n")

unfoldable pub build_not_found_res : ℕ → RtspRequest → Text
build_not_found_res size r =
    snprintf size (codes "RTSP/1.0 404 Stream Not Found\r\n" ++ cseq_line r ++ codes "\r\n")

unfoldable pub build_server_error_res : ℕ → RtspRequest → Text
build_server_error_res size r =
    snprintf size (codes "RTSP/1.0 500 Internal Server Error\r\n" ++ cseq_line r ++ codes "\r\n")

unfoldable pub build_unsupported_res : ℕ → RtspRequest → Text
build_unsupported_res size r =
    snprintf size
      (codes "RTSP/1.0 461 Unsupported transport\r\n" ++ cseq_line_int r ++ codes "\r\n")

unfoldable pub build_unauthorized_res : ℕ → Text → Text → RtspRequest → Text
build_unauthorized_res size realm nonce r = snprintf size (
    codes "RTSP/1.0 401 Unauthorized\r\n"
    ++ cseq_line_int r
    ++ codes "WWW-Authenticate: Digest realm=\""
    ++ realm
    ++ codes "\", nonce=\""
    ++ nonce
    ++ codes "\"\r\n\r\n")
