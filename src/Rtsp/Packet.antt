-- ===== src/Rtsp/Packet.antt =====
-- src/rtsp/media.h, rtp.h and MediaSource.h: frames, RTP packets and the callback that a media
-- source hands its packets to.
use stream_sight.Base.{
  ℕ, ◌+◌, ◌*◌, ◌/◌, ◌%◌, ◌^◌, ◌≤◌, Bool, true, false, Option, none, some, List, [], ◌∷◌, ◌++◌,
  if◌then◌else◌, ◌==◌, length, take, add32,
}

-- RTP_TCP_HEAD_SIZE, RTP_HEADER_SIZE, RTP_VPX_HEAD_SIZE, MAX_RTP_PAYLOAD_SIZE, and the bytes that
-- the constructor of `RtpPacket` allocates.
abbrev pub rtp_tcp_head_size : ℕ
rtp_tcp_head_size = 4

abbrev pub rtp_header_size : ℕ
rtp_header_size = 12

abbrev pub rtp_vpx_head_size : ℕ
rtp_vpx_head_size = 1

abbrev pub max_rtp_payload_size : ℕ
max_rtp_payload_size = 1420

abbrev pub rtp_packet_capacity : ℕ
rtp_packet_capacity = 1600

-- `buffer` holds what the caller put there; the constructor allocates `size + 1` bytes.
pub record AvFrame : Type 0 where
  pub buffer : List ℕ
  pub size : ℕ
  pub kind : ℕ
  pub timestamp : ℕ

-- `body` is what a source writes from offset RTP_TCP_HEAD_SIZE + RTP_HEADER_SIZE of `data` on; the
-- sixteen bytes before it are written when the packet is sent.
pub record RtpPacket : Type 0 where
  pub body : List ℕ
  pub size : ℕ
  pub timestamp : ℕ
  pub kind : ℕ
  pub last : ℕ

-- The frame holds the bytes that its size promises.
abbrev pub IsFilled : AvFrame → Type 0
IsFilled f = f.size ≤ length f.buffer

-- `SendFrameCallback`, with the state that it changes written out.
abbrev pub SendFrameCallback : Type 0 → Type 0
SendFrameCallback S = S → ℕ → RtpPacket → S × Bool

module _ {S : Type 0} where
  -- `if (send_frame_callback_) { if (!send_frame_callback_(channel, pkt)) … }`
  abbrev pub send : Option (SendFrameCallback S) → S → ℕ → RtpPacket → S × Bool
  send none s channel pkt = (s, true)
  send (some callback) s channel pkt = callback s channel pkt

  -- Packets handed over in order until one is refused.
  unfoldable pub send_all : Option (SendFrameCallback S) → S → ℕ → List RtpPacket → S × Bool
  send_all callback s channel [] = (s, true)
  send_all callback s channel (p ∷ ps) =
      let (s', sent) = send callback s channel p in
      let rest = send_all callback s' channel ps in if sent then rest else (s', false)

-- A callback that accepts every packet and keeps them in order.
abbrev pub collect : SendFrameCallback (List RtpPacket)
collect ps channel p = (ps ++ (p ∷ []), true)

-- H264Source, H265Source and VP8Source: the steady clock's microseconds as 90 kHz ticks.
unfoldable pub get_timestamp : ℕ → ℕ
get_timestamp us = ((us + 500) / 1000 * 90) % 2 ^ 32

-- `if (frame.timestamp == 0) frame.timestamp = GetTimestamp();`
unfoldable pub stamp : ℕ → AvFrame → ℕ
stamp us frame = if frame.timestamp == 0 then get_timestamp us else frame.timestamp

-- A frame that fits in one packet, copied whole.
unfoldable pub single_packet : ℕ → AvFrame → RtpPacket
single_packet timestamp frame = record {
  body = take frame.size frame.buffer;
  size = add32 frame.size (rtp_tcp_head_size + rtp_header_size);
  timestamp = timestamp;
  kind = frame.kind;
  last = 1;
}
