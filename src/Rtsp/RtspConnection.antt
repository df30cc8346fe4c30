-- ===== src/Rtsp/RtspConnection.antt =====
-- src/rtsp/RtspConnection.h and RtspConnection.cpp, with rtsp.h and DigestAuthentication: one RTSP
-- connection, its server's sessions and what it sends. The connection's number, by which a session knows
-- it, is its socket. The socket calls, the clock, the MD5 of third_party and the random nonce are parameters.
pub mod Server
pub mod Pusher
pub mod Read
mod Tests
pub mod Safe
pub mod Message
pub mod Answers
pub mod PusherSafe
pub mod Reads
use stream_sight.Base.{
  ℕ, zero, suc, ◌+◌, ◌%◌, ◌^◌, Bool, true, false, not, ◌&&◌, ◌||◌, Option, none, some, List, [],
  ◌∷◌, ◌++◌, if◌then◌else◌, ltb, ◌==◌, length,
}
use stream_sight.Rtsp.MediaSession.{MediaSession, remove_client}
use stream_sight.Rtsp.RtpConnection.{RtpConnection, put, max_media_channel}
use stream_sight.Rtsp.RtspMessage.{RtspRequest}
use stream_sight.Rtsp.RtspMessage.Response.{RtspResponse}
use stream_sight.Rtsp.Sdp.{Description}
use stream_sight.Text.{Text, codes}

pub data ConnectionMode : Type 0 where
  rtsp_server rtsp_pusher : ConnectionMode

pub data ConnectionState : Type 0 where
  start_connect start_play start_push : ConnectionState

pub record DigestAuthentication : Type 0 where
  pub realm : Text
  pub username : Text
  pub password : Text

-- What `rtsp_` leads to: whether it can be locked, the two virtual lookups, which RtspServer and RtspPusher
-- answer, and the sessions with their descriptions.
pub record Rtsp : Type 0 where
  pub known : Bool
  pub look_suffix : Text → Option ℕ
  pub look_id : ℕ → Option ℕ
  pub media_sessions : ℕ → MediaSession
  pub descriptions : ℕ → Description
  pub version : Text
  pub rtsp_url : Text

-- `sent` records the messages given to `Send`, and `watched` the sockets of RTCP that the scheduler polls.
-- `send_fails` is whether the write of the buffer, with so many messages before, meets an error of the
-- socket, and `others_alive` what OnClose then knows of the connections of its session.
pub record RtspConnection (E : Type 0) : Type 0 where
  pub socket : ℕ
  pub is_closed : Bool
  pub alive_count : ℕ
  pub conn_mode : ConnectionMode
  pub conn_state : ConnectionState
  pub session_id : ℕ
  pub has_auth : Bool
  pub nonce : Text
  pub auth_info : Option DigestAuthentication
  pub rtcp_channels : ℕ → Option ℕ
  pub rtsp_request : RtspRequest
  pub rtsp_response : RtspResponse
  pub rtp_conn : Option (RtpConnection E)
  pub watched : ℕ → Bool
  pub sent : List Text
  pub send_fails : ℕ → Bool
  pub others_alive : ℕ → Bool

pub record State (E : Type 0) : Type 0 where
  pub conn : RtspConnection E
  pub rtsp : Rtsp

-- `md5(md5(<username>:<realm>:<password>):<nonce>:md5(<cmd>:<url>))`
unfoldable pub get_response : (Text → Text) → DigestAuthentication → Text → Text → Text → Text
get_response md5_hash_hex d nonce cmd url =
    let hex1 = md5_hash_hex (d.username ++ (b':' ∷ (d.realm ++ (b':' ∷ d.password)))) in
    let hex2 = md5_hash_hex (cmd ++ (b':' ∷ url)) in
    md5_hash_hex (hex1 ++ (b':' ∷ (nonce ++ (b':' ∷ hex2))))

-- RtspServer's and RtspPusher's `rtsp_` by the id of a session.
unfoldable pub look_session : Option ℕ → Rtsp → Option ℕ
look_session found rtsp = if rtsp.known then found else none

abbrev unwatch : Option ℕ → (ℕ → Bool) → ℕ → Bool
unwatch none watched = watched
unwatch (some fd) watched = put fd false watched

-- The loop over the channels below `n`.
unfoldable pub remove_channels : ℕ → (ℕ → Option ℕ) → (ℕ → Bool) → ℕ → Bool
remove_channels zero channels watched = watched
remove_channels (suc n) channels watched =
    let before = remove_channels n channels watched in unwatch (channels n) before

unfoldable pub leave_session : (ℕ → Bool) → ℕ → Option ℕ → Rtsp → Rtsp
leave_session alive fd none rtsp = rtsp
leave_session alive fd (some id) rtsp = record rtsp {
  media_sessions = put id (remove_client alive fd (rtsp.media_sessions id)) rtsp.media_sessions;
}

module _ {E : Type 0} where
  -- The constructor. `request` and `response` are fresh ones.
  unfoldable pub create :
      ℕ
      → Option DigestAuthentication
      → RtspRequest
      → RtspResponse
      → (ℕ → Bool)
      → (ℕ → Bool)
      → RtspConnection E
  create socket auth_info request response send_fails others_alive = record {
    socket = socket;
    is_closed = false;
    alive_count = 1;
    conn_mode = rtsp_server;
    conn_state = start_connect;
    session_id = 0;
    has_auth = elim auth_info [ none ↦ true | some info ↦ false ];
    nonce = [];
    auth_info = auth_info;
    rtcp_channels = λ chn. none;
    rtsp_request = request;
    rtsp_response = response;
    rtp_conn = none;
    watched = λ fd. false;
    sent = [];
    send_fails = send_fails;
    others_alive = others_alive;
  }

  -- `atomic_int`
  unfoldable pub keep_alive : RtspConnection E → RtspConnection E
  keep_alive c = record c { alive_count = c.alive_count + 1 }

  unfoldable pub reset_alive_count : RtspConnection E → RtspConnection E
  reset_alive_count c = record c { alive_count = 0 }

  abbrev casts_to_group : Option (RtpConnection E) → Bool
  casts_to_group none = false
  casts_to_group (some rtp) = rtp.is_multicast

  unfoldable pub is_alive : RtspConnection E → Bool
  is_alive c =
      if c.is_closed then false else if casts_to_group c.rtp_conn then true else ltb 0 c.alive_count

  -- `write_buffer_->Append`, that comes before the write; a closed connection drops the message.
  unfoldable pub append_message : Text → RtspConnection E → RtspConnection E
  append_message text c = if c.is_closed then c else record c { sent = c.sent ++ (text ∷ []) }

  module _ (alive : ℕ → Bool) where
    -- OnClose
    unfoldable pub on_close : State E → State E
    on_close s = record {
      conn = record s.conn {
        watched = remove_channels max_media_channel s.conn.rtcp_channels s.conn.watched;
      };
      rtsp =
          if s.conn.session_id == 0
          then s.rtsp
          else leave_session alive s.conn.socket
              (look_session (s.rtsp.look_id s.conn.session_id) s.rtsp) s.rtsp;
    }

    -- HandleClose, and Close of TcpConnection, whose close callback is OnClose.
    unfoldable pub handle_close : State E → State E
    handle_close s =
        let closed = on_close (record s { conn = record s.conn { is_closed = true } }) in
        if s.conn.is_closed then s else closed

  -- SendRtspMessage: Send of TcpConnection, whose HandleWrite closes the connection on an error.
  unfoldable pub send_rtsp_message : Text → State E → State E
  send_rtsp_message text s =
      let s' = record s { conn = append_message text s.conn } in
      if s.conn.send_fails (length s.conn.sent) then handle_close s.conn.others_alive s' else s'
