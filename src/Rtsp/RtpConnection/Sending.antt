-- ===== src/Rtsp/RtpConnection/Sending.antt =====
-- The sending of src/rtsp/RtpConnection.cpp: a packet's way from the trigger event to TCP or UDP, and the
-- sender reports of the RTCP timer.
use stream_sight.Base.{
  ℕ, zero, suc, ◌+◌, ◌*◌, ◌/◌, ◌%◌, ◌^◌, Bool, not, ◌&&◌, ◌||◌, List, [], ◌∷◌, ◌++◌, if◌then◌else◌,
  ltb, ◌==◌, take, sub32,
}
use stream_sight.Net.Endian.{write_uint32_be, write_uint16_be}
use stream_sight.Rtsp.Packet.{RtpPacket}
use stream_sight.Rtsp.Rtcp.{build_rtcp_sr, rtcp_sr_size}
use stream_sight.Rtsp.RtpConnection.{
  RtpConnection, RtpHeader, tcp, datagram, over_tcp, put, teardown, max_media_channel,
}

-- The twelve bytes of an RtpHeader, its bit fields packed from the lowest bit.
unfoldable pub header_bytes : RtpHeader → List ℕ
header_bytes h =
    (h.csrc + h.extension * 2 ^ 4 + h.padding * 2 ^ 5 + h.version * 2 ^ 6)
    ∷ (h.payload + h.marker * 2 ^ 7)
    ∷ (write_uint16_be h.seq ++ (write_uint32_be h.ts ++ write_uint32_be h.ssrc))

module _ {E : Type 0} where
  -- VIDEO_FRAME_I and AUDIO_FRAME
  unfoldable pub set_frame_type : ℕ → RtpConnection E → RtpConnection E
  set_frame_type kind c = record c {
    frame_type = kind;
    has_key_frame = c.has_key_frame || (kind == 0 || (kind == 0x01 || kind == 0x11));
  }

  -- The guard that SetRtpHeader and the sending share.
  abbrev pub may_send : ℕ → RtpConnection E → Bool
  may_send id c =
      ((c.media_channel_info id).is_play || (c.media_channel_info id).is_record) && c.has_key_frame

  -- `header` is the twelve bytes at offset 4 of the packet's data, before and after.
  unfoldable pub set_rtp_header :
      ℕ → RtpPacket → List ℕ → RtpConnection E → RtpConnection E × List ℕ
  set_rtp_header id pkt header c =
      let m = c.media_channel_info id in
      let h = record m.rtp_header {
        marker = pkt.last % 2;
        ts = pkt.timestamp;
        seq = m.packet_seq;
      } in
      if may_send id c
      then (
        record c {
          media_channel_info =
              put id (record m { rtp_header = h; packet_seq = (m.packet_seq + 1) % 2 ^ 16 })
                c.media_channel_info;
        },
        header_bytes h,
      )
      else (c, header)

  -- The interleaved frame: '$', the channel, the length, and the packet.
  unfoldable pub send_rtp_over_tcp : ℕ → RtpPacket → List ℕ → RtpConnection E → RtpConnection E
  send_rtp_over_tcp id pkt header c =
      let n = sub32 pkt.size 4 in
      let head =
        36 ∷ (c.media_channel_info id).rtp_channel % 2 ^ 8 ∷ n / 2 ^ 8 % 2 ^ 8 ∷ n % 2 ^ 8 ∷ [] in
      if c.connected
      then record c { sent = c.sent ++ (tcp (take pkt.size (head ++ (header ++ pkt.body))) ∷ []) }
      else c

  -- `delivered` is whether `sendto` succeeds.
  unfoldable pub send_rtp_over_udp :
      Bool → ℕ → RtpPacket → List ℕ → RtpConnection E → RtpConnection E
  send_rtp_over_udp delivered id pkt header c =
      if delivered
      then record c {
        sent =
            c.sent
            ++ (datagram (c.rtpfd id) (c.peer_rtp_port id)
                  (take (sub32 pkt.size 4) (header ++ pkt.body))
                ∷ []);
      }
      else teardown c

  unfoldable pub send_over : Bool → ℕ → RtpPacket → List ℕ → RtpConnection E → RtpConnection E
  send_over delivered id pkt header c = elim c.transport_mode [
    | over_tcp ↦ send_rtp_over_tcp id pkt header c
    | _ ↦ send_rtp_over_udp delivered id pkt header c
  ]

  -- The counters of the sender reports.
  unfoldable pub count_sent : ℕ → RtpPacket → RtpConnection E → RtpConnection E
  count_sent id pkt c =
      let m = c.media_channel_info id in
      record c {
        media_channel_info =
            put id
              (record m {
                octet_count = (m.octet_count + sub32 pkt.size 4) % 2 ^ 64;
                packet_count = (m.packet_count + 1) % 2 ^ 64;
              })
              c.media_channel_info;
      }

  -- The trigger event that SendRtpPacket hands to the task scheduler.
  unfoldable pub deliver : Bool → ℕ → RtpPacket → List ℕ → RtpConnection E → RtpConnection E
  deliver delivered id pkt header c =
      let (c', header') = set_rtp_header id pkt header (set_frame_type pkt.kind c) in
      if may_send id c' then count_sent id pkt (send_over delivered id pkt header' c') else c'

  -- SendRtpPacket: 0 and a new trigger event, or -1. `added` is whether AddTriggerEvent takes it.
  unfoldable pub send_rtp_packet : Bool → RtpConnection E → Bool
  send_rtp_packet added c = not c.is_closed && (c.connected && added)

  -- OnRtcpTimer, from channel `chn` on with `n` channels to go; `us` is the system clock.
  unfoldable pub send_reports : ℕ → ℕ → ℕ → RtpConnection E → RtpConnection E
  send_reports us zero chn c = c
  send_reports us (suc n) chn c =
      let m = c.media_channel_info chn in
      let buf =
        build_rtcp_sr us m.rtp_header.ssrc m.rtp_header.ts (m.packet_count % 2 ^ 32)
          (m.octet_count % 2 ^ 32) in
      let frame = 36 ∷ m.rtcp_channel % 2 ^ 8 ∷ rtcp_sr_size / 2 ^ 8 ∷ rtcp_sr_size % 2 ^ 8 ∷ buf in
      let skip = send_reports us n (suc chn) c in
      let framed = send_reports us n (suc chn) (record c { sent = c.sent ++ (tcp frame ∷ []) }) in
      let dated =
        send_reports us n (suc chn) (record c {
          sent = c.sent ++ (datagram (c.rtcpfd chn) (c.peer_rtcp_port chn) buf ∷ []);
        }) in
      if m.is_play || m.is_record
      then elim c.transport_mode [
        | over_tcp ↦ if c.connected then framed else c
        | _ ↦ if ltb 0 (c.rtcpfd chn) then dated else skip
      ]
      else skip

  unfoldable pub on_rtcp_timer : ℕ → RtpConnection E → RtpConnection E
  on_rtcp_timer us c = send_reports us max_media_channel 0 c
