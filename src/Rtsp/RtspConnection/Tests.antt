-- ===== src/Rtsp/RtspConnection/Tests.antt =====
-- One connection: a DESCRIBE that is answered, a frame of RTCP, and the theorems at such inputs.
use stream_sight.Base.{◌≡◌, refl, inl, true, false, none, some, [], ◌∷◌, ◌==◌, if◌then◌else◌}
use stream_sight.Rtsp.MediaSession.Tests.{two_clients, alive}
use stream_sight.Rtsp.RtpConnection.{over_tcp}
use stream_sight.Rtsp.RtpConnection.Tests.{client, draws}
use stream_sight.Rtsp.RtspConnection.Reads.{
  reads, starts, closes, reports, run, run-Safe, run-starts-Safe,
}
use stream_sight.Rtsp.RtspConnection.Safe.{IsSafe, Safe}
use stream_sight.Rtsp.RtspConnection.Server.{
  Environment, handle_cmd_setup, authenticate, setup_authorized, setup_found, setup_with,
}
use stream_sight.Rtsp.RtspConnection.{Rtsp, State, create, look_session}
use stream_sight.Rtsp.RtspMessage.Response.{RtspResponse, none_sought}
use stream_sight.Rtsp.RtspMessage.Stages.{filled}
use stream_sight.Rtsp.RtspMessage.{
  RtspRequest, describe, got_all, fault, null_pointer, no_request_line, no_header_line,
}
use stream_sight.Rtsp.Sdp.{Description, h264_source}
use stream_sight.Text.{Text, codes}

abbrev env : Environment Unit
env = record {
  socket_ip = codes "10.0.0.2";
  time = 1700000000;
  now = 5;
  rtcp = tt;
  draws = draws;
  peer_known = true;
  generate_nonce = codes "5ccc";
  md5_hash_hex = λ s. s;
  new_rtp_conn = client false;
  rtp_session_id = 70000;
  literal_gap = 100000;
}

abbrev complete : RtspRequest
complete = record {
  method = describe;
  channel_id = 0;
  transport = over_tcp;
  auth_response = [];
  request_line_param = no_request_line;
  header_line_param = no_header_line;
  state = got_all;
}

abbrev idle : RtspResponse
idle = record { method = none_sought; cseq = 0; user_agent = []; rtsp_url = []; session = [] }

abbrev described : Description
described = record {
  sdp = [];
  media_sources = λ chn. if chn == 0 then some h264_source else none;
  is_multicast = false;
  multicast_ip = [];
  multicast_port = λ chn. 0;
}

-- Every suffix leads to the session 2.
abbrev server : Rtsp
server = record {
  known = true;
  look_suffix = λ suffix. some 2;
  look_id = λ id. if id == 2 then some 2 else none;
  media_sessions = λ id. two_clients;
  descriptions = λ id. described;
  version = codes "v1";
  rtsp_url = codes "rtsp://10.0.0.3/live";
}

abbrev start : State Unit
start = record { conn = create 9 none complete idle (λ n. n == 3) alive; rtsp = server }

start-IsSafe : IsSafe start
unfolding create
start-IsSafe = record { rooted = inl refl; joined = inl refl; pushing = inl refl }

run-Safe_example : Safe (
    run env alive start (
      reads (filled (codes "SETUP rtsp://a/b RTSP/1.0\r\nCSeq: 1\r\n\r\n"))
      ∷ reports (some 28)
      ∷ starts
      ∷ closes
      ∷ []))
run-Safe_example =
    run-Safe env alive
      (reads (filled (codes "SETUP rtsp://a/b RTSP/1.0\r\nCSeq: 1\r\n\r\n"))
        ∷ reports (some 28)
        ∷ starts
        ∷ closes
        ∷ [])
      start start-IsSafe

-- A pusher finds its session by every id.
abbrev pusher : Rtsp
pusher = record server { look_id = λ id. some 2 }

abbrev fresh_pusher : State Unit
fresh_pusher = record start { rtsp = pusher }

run-starts-Safe_example : Safe (
    run env alive fresh_pusher (
      starts ∷ reads (filled (codes "SETUP rtsp://a/b RTSP/1.0\r\nCSeq: 1\r\n\r\n")) ∷ closes ∷ []))
run-starts-Safe_example =
    run-starts-Safe env alive
      (reads (filled (codes "SETUP rtsp://a/b RTSP/1.0\r\nCSeq: 1\r\n\r\n")) ∷ closes ∷ [])
      fresh_pusher

-- Before that, a SETUP finds no RTP side.
early_setup : handle_cmd_setup env fresh_pusher ≡ fault null_pointer
unfolding handle_cmd_setup authenticate setup_authorized setup_found setup_with look_session create
early_setup = refl
