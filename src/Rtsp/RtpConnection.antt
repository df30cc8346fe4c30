-- ===== src/Rtsp/RtpConnection.antt =====
-- src/rtsp/RtpConnection.h and RtpConnection.cpp: the sending side of one RTSP client. A channel id
-- is a number below `max_media_channel`. The header is kept in host order, and `htons` and `htonl`
-- are applied where its bytes are made. The peer's IP address, the texts of GetRtpInfo and
-- GetMulticastIp, and the lock on a connection that dies meanwhile are left out.
pub mod Tests
pub mod Sending
pub mod Setup
pub mod Timers
pub mod Reading
pub mod Packets
pub mod Stream
use stream_sight.Base.{
  ℕ, zero, suc, ◌+◌, ◌-◌, ◌*◌, ◌/◌, ◌%◌, ◌^◌, Bool, true, false, not, ◌&&◌, ◌||◌, Option, none,
  some, List, [], ◌∷◌, ◌++◌, if◌then◌else◌, ltb, ◌==◌, take, sub32,
}
use stream_sight.Net.Endian.{write_uint32_be, write_uint16_be}
use stream_sight.Net.Timer.{TimerQueue, add_timer, remove_timer}
use stream_sight.Rtsp.Packet.{RtpPacket}
use stream_sight.Rtsp.Rtcp.{build_rtcp_sr, rtcp_sr_size}

abbrev pub max_media_channel : ℕ
max_media_channel = 2

abbrev pub rtcp_interval_ms : ℕ
rtcp_interval_ms = 5000

abbrev pub rtp_version : ℕ
rtp_version = 2

pub data TransportMode : Type 0 where
  over_tcp over_udp over_multicast : TransportMode

pub record RtpHeader : Type 0 where
  pub csrc : ℕ
  pub extension : ℕ
  pub padding : ℕ
  pub version : ℕ
  pub payload : ℕ
  pub marker : ℕ
  pub seq : ℕ
  pub ts : ℕ
  pub ssrc : ℕ

pub record MediaChannelInfo : Type 0 where
  pub rtp_header : RtpHeader
  pub rtp_channel : ℕ
  pub rtcp_channel : ℕ
  pub rtp_port : ℕ
  pub rtcp_port : ℕ
  pub packet_seq : ℕ
  pub clock_rate : ℕ
  pub packet_count : ℕ
  pub octet_count : ℕ
  pub is_setup : Bool
  pub is_play : Bool
  pub is_record : Bool

-- What goes out: bytes given to the RTSP connection's `Send`, or a datagram from a socket to a port.
pub data Sent : Type 0 where
  tcp : List ℕ → Sent
  datagram : ℕ → ℕ → List ℕ → Sent

-- `connected` is whether the weak pointer to the RTSP connection can be locked, and `socket` is
-- that connection's. `sent` records what went out, in order, and `timers` is the task scheduler's queue.
pub record RtpConnection (E : Type 0) : Type 0 where
  pub connected : Bool
  pub socket : ℕ
  pub transport_mode : TransportMode
  pub is_multicast : Bool
  pub is_closed : Bool
  pub has_key_frame : Bool
  pub frame_type : ℕ
  pub local_rtp_port : ℕ → ℕ
  pub local_rtcp_port : ℕ → ℕ
  pub rtpfd : ℕ → ℕ
  pub rtcpfd : ℕ → ℕ
  pub peer_rtp_port : ℕ → ℕ
  pub peer_rtcp_port : ℕ → ℕ
  pub media_channel_info : ℕ → MediaChannelInfo
  pub rtcp_timer_id : ℕ
  pub timers : TimerQueue E
  pub sent : List Sent

-- One entry of an array.
abbrev pub put {ℓ} : {A : Type ℓ} → ℕ → A → (ℕ → A) → ℕ → A
put i a f k = if k == i then a else f k

-- `for (int chn = 0; chn < n; chn++)`, an update of each channel.
unfoldable pub for_channels :
    (MediaChannelInfo → MediaChannelInfo) → ℕ → (ℕ → MediaChannelInfo) → ℕ → MediaChannelInfo
for_channels f zero m = m
for_channels f (suc n) m = let m' = for_channels f n m in put n (f (m' n)) m'

module _ {E : Type 0} where
  unfoldable pub set_clock_rate : ℕ → ℕ → RtpConnection E → RtpConnection E
  set_clock_rate id rate c = record c {
    media_channel_info =
        put id (record (c.media_channel_info id) { clock_rate = rate }) c.media_channel_info;
  }

  -- The field has seven bits.
  unfoldable pub set_payload_type : ℕ → ℕ → RtpConnection E → RtpConnection E
  set_payload_type id payload c =
      let m = c.media_channel_info id in
      record c {
        media_channel_info =
            put id (record m { rtp_header = record m.rtp_header { payload = payload % 2 ^ 7 } })
              c.media_channel_info;
      }

  unfoldable pub setup_rtp_over_tcp : ℕ → ℕ → ℕ → RtpConnection E → RtpConnection E × Bool
  setup_rtp_over_tcp id rtp_channel rtcp_channel c =
      if c.connected
      then (
        record c {
          media_channel_info =
              put id
                (record (c.media_channel_info id) {
                  rtp_channel = rtp_channel;
                  rtcp_channel = rtcp_channel;
                  is_setup = true;
                })
                c.media_channel_info;
          rtpfd = put id c.socket c.rtpfd;
          rtcpfd = put id c.socket c.rtcpfd;
          transport_mode = over_tcp;
        },
        true,
      )
      else (c, false)

  module _ (rtcp : E) where
    -- `rtcp` is the timer's callback, that calls OnRtcpTimer.
    unfoldable pub start_rtcp_timer : ℕ → RtpConnection E → RtpConnection E
    start_rtcp_timer now c =
        let (timers', id) = add_timer now rtcp rtcp_interval_ms c.timers in
        if not (c.rtcp_timer_id == 0)
        then c
        else if not c.connected
        then c
        else record c { timers = timers'; rtcp_timer_id = id }

    unfoldable pub play : ℕ → RtpConnection E → RtpConnection E
    play now c = start_rtcp_timer now (record c {
      media_channel_info =
          for_channels (λ m. if m.is_setup then record m { is_play = true } else m)
            max_media_channel c.media_channel_info;
    })

    unfoldable pub start_record : ℕ → RtpConnection E → RtpConnection E
    start_record now c = start_rtcp_timer now (record c {
      media_channel_info =
          for_channels
            (λ m. if m.is_setup then record m { is_record = true; is_play = true } else m)
            max_media_channel c.media_channel_info;
    })

  unfoldable pub stop_rtcp_timer : RtpConnection E → RtpConnection E
  stop_rtcp_timer c = if c.rtcp_timer_id == 0 then c else record c {
    timers = if c.connected then remove_timer c.rtcp_timer_id c.timers else c.timers;
    rtcp_timer_id = 0;
  }

  unfoldable pub teardown : RtpConnection E → RtpConnection E
  teardown c =
      let stopped = stop_rtcp_timer (record c { is_closed = true }) in
      if c.is_closed then c else record stopped {
        media_channel_info =
            for_channels (λ m. record m { is_play = false; is_record = false }) max_media_channel
              stopped.media_channel_info;
      }
