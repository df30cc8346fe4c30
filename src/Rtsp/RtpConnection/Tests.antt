-- ===== src/Rtsp/RtpConnection/Tests.antt =====
-- The theorems on the sender of one client at inputs that exercise the code.
use stream_sight.Base.{
  ℕ, ◌+◌, ◌-◌, ◌*◌, ◌/◌, ◌%◌, ◌^◌, ◌<◌, ◌≡◌, refl, Bool, true, false, ◌==◌, none, some, List, [],
  ◌∷◌, ◌++◌, length, arith,
}
use stream_sight.Net.Timer.{TimerQueue, find_timer}
use stream_sight.Rtsp.Packet.{RtpPacket}
use stream_sight.Rtsp.Rtcp.{
  build_rtcp_sr, rtcp_sr_size, read_sr, ntp_epoch_offset, read_sr-build_rtcp_sr,
}
use stream_sight.Rtsp.RtpConnection.{
  RtpConnection, MediaChannelInfo, Sent, over_tcp, over_udp, play, teardown,
}
use stream_sight.Rtsp.RtpConnection.Setup.{
  Draw, IsPaired, setup_rtp_over_udp, bind_pair, use_draw, name_ports, address_peer,
  setup_rtp_over_udp-IsPaired,
}
use stream_sight.Rtsp.RtpConnection.Timers.{teardown-play}
use stream_sight.Rtsp.RtpConnection.Stream.{
  deliver_all, read_frames, numbered, deliver_all-numbered, deliver_all-gated,
}

read_sr-build_rtcp_sr_example :
    let bs = build_rtcp_sr 1500000 0xdeadbeef 90000 7 9000 in
    (length bs ≡ rtcp_sr_size)
    × (read_sr bs ≡ record {
      version = 2;
      padding = 0;
      report_count = 0;
      packet_type = 200;
      words = length bs / 4 - 1;
      ssrc = 0xdeadbeef;
      ntp_seconds = (1500000 / 1000000 + ntp_epoch_offset) % 2 ^ 32;
      ntp_fraction = 1500000 % 1000000 * 2 ^ 32 / 1000000;
      rtp_ts = 90000;
      pkt_count = 7;
      octet_count = 9000;
    })
read_sr-build_rtcp_sr_example =
    read_sr-build_rtcp_sr 1500000 0xdeadbeef 90000 7 9000 (omega arith) (omega arith) (omega arith)
      (omega arith)

abbrev video : MediaChannelInfo
video = record {
  rtp_header = record {
    csrc = 0;
    extension = 0;
    padding = 0;
    version = 2;
    payload = 96;
    marker = 0;
    seq = 0;
    ts = 5;
    ssrc = 77;
  };
  rtp_channel = 2;
  rtcp_channel = 3;
  rtp_port = 0;
  rtcp_port = 0;
  packet_seq = 65535;
  clock_rate = 90000;
  packet_count = 10;
  octet_count = 1000;
  is_setup = true;
  is_play = true;
  is_record = false;
}

abbrev idle_queue : TimerQueue Unit
idle_queue = record { timers = []; events = []; next_timeout = λ i. 0; last_timer_id = 4 }

abbrev pub client : Bool → RtpConnection Unit
client keyed = record {
  connected = true;
  socket = 9;
  transport_mode = over_tcp;
  is_multicast = false;
  is_closed = false;
  has_key_frame = keyed;
  frame_type = 0;
  local_rtp_port = λ i. 0;
  local_rtcp_port = λ i. 0;
  rtpfd = λ i. 9;
  rtcpfd = λ i. 9;
  peer_rtp_port = λ i. 0;
  peer_rtcp_port = λ i. 0;
  media_channel_info = λ i. video;
  rtcp_timer_id = 0;
  timers = idle_queue;
  sent = [];
}

no_fifth : find_timer 5 idle_queue.timers ≡ none
unfolding find_timer
no_fifth = refl

teardown-play_example :
    let c' = teardown (play tt 100 (client true)) in
    (c'.timers.timers ≡ [])
    × (c'.timers.events ≡ [])
    × (c'.is_closed ≡ true)
    × (c'.rtcp_timer_id ≡ 0)
    × ((chn : ℕ)
        → chn < 2
        → ((c'.media_channel_info chn).is_play ≡ false)
          × ((c'.media_channel_info chn).is_record ≡ false))
teardown-play_example =
    teardown-play tt 100 (client true) refl refl refl (λ e. omega arith) (no_fifth, tt)

-- The first pair of ports cannot be bound, the second can.
abbrev pub draws : ℕ → Draw
draws n = record {
  random = 70001 + n;
  rtp_socket = 20 + n;
  rtcp_socket = 30 + n;
  rtp_bound = true;
  rtcp_bound = n == 1;
}

setup_passes : (setup_rtp_over_udp draws true 1 6000 6001 (client true)).1 ≡ true
unfolding setup_rtp_over_udp bind_pair use_draw name_ports address_peer
setup_passes = refl

setup_rtp_over_udp-IsPaired_example :
    let c' = (setup_rtp_over_udp draws true 1 6000 6001 (client true)).0 in
    IsPaired 1 c'
    × (c'.transport_mode ≡ over_udp)
    × (c'.peer_rtp_port 1 ≡ 6000)
    × (c'.peer_rtcp_port 1 ≡ 6001)
    × ((c'.media_channel_info 1).is_setup ≡ true)
setup_rtp_over_udp-IsPaired_example =
    setup_rtp_over_udp-IsPaired draws true 1 6000 6001 (client true) setup_passes

abbrev packets : List RtpPacket
packets =
    record { body = 7 ∷ 8 ∷ []; size = 18; timestamp = 900; kind = 2; last = 0 }
    ∷ record { body = 9 ∷ []; size = 17; timestamp = 900; kind = 2; last = 1 }
    ∷ []

deliver_all-numbered_example :
    let c' = deliver_all true 0 [] packets (client true) in
    (frames : List Sent) × (c'.sent ≡ [] ++ frames)
    × (read_frames frames ≡ some (numbered video.rtp_header 2 65535 packets))
    × ((c'.media_channel_info 0).packet_count ≡ 12)
deliver_all-numbered_example =
    deliver_all-numbered true 0 [] packets (client true) (refl, refl, refl) refl
      (((refl, omega arith), omega arith), (((refl, omega arith), omega arith), tt))
      (omega arith, omega arith, omega arith, omega arith, omega arith, omega arith) (omega arith)
      (omega arith) (omega arith)

deliver_all-gated_example :
    let c' = deliver_all true 0 [] packets (client false) in
    (c'.sent ≡ []) × (c'.media_channel_info ≡ λ i. video) × (c'.has_key_frame ≡ false)
deliver_all-gated_example =
    deliver_all-gated true 0 [] packets (client false) refl (refl, (refl, tt))
