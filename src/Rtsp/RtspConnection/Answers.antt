-- ===== src/Rtsp/RtspConnection/Answers.antt =====
-- How many messages src/rtsp/RtspConnection.cpp answers a request with.
use stream_sight.Base.{◌≡◌, Bool, true, false, Option, List}
use stream_sight.Net.BufferReader.{BufferReader}
use stream_sight.Rtsp.RtpConnection.{RtpConnection}
use stream_sight.Rtsp.RtspConnection.Server.{Environment}
use stream_sight.Rtsp.RtspConnection.{State}
use stream_sight.Rtsp.RtspMessage.{Method, RtspRequest}
use stream_sight.Text.{Text}
use stream_sight.Rtsp.RtspConnection.Message.{Holds, One}

module _ {E : Type 0} where
  module _ (env : Environment E) (sent : List Text) (r : RtspRequest) (bad : Bool)
      (rtp_conn : Option (RtpConnection E)) where
    -- The authentication sends nothing when it succeeds, and one message when it fails.
    Authenticated : State E × Bool → Type 0
    Authenticated (s, true) = Holds sent r bad s × (s.conn.rtp_conn ≡ rtp_conn)
    Authenticated (s, false) = One sent r bad s

-- The methods of a request, and those whose handler does nothing without an RTP side.
abbrev pub is_command : Method → Bool
is_command Method.rtcp = false
is_command Method.no_method = false
is_command _ = true

abbrev pub needs_rtp : Method → Bool
needs_rtp Method.play = true
needs_rtp Method.teardown = true
needs_rtp Method.get_parameter = true
needs_rtp _ = false
