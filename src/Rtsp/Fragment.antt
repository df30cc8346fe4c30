-- ===== src/Rtsp/Fragment.antt =====
-- The loop that src/rtsp/H264Source.cpp and H265Source.cpp share: a frame that is too large for one
-- packet is cut into fragmentation units, each behind a short head (FU_A, FU) whose last byte
-- carries the start and end bits. `buf` and `size` are frame_buf and frame_size.
pub mod Laws
pub mod Receive
use stream_sight.Base.{
  ℕ, zero, suc, ◌+◌, ◌-◌, Bool, true, false, Option, List, [], ◌∷◌, ◌++◌, if◌then◌else◌, ltb, take,
  drop, add32, sub32,
}
use stream_sight.Rtsp.Packet.{
  RtpPacket, SendFrameCallback, send, rtp_tcp_head_size, rtp_header_size, max_rtp_payload_size,
}

-- The bytes of the head, `FU[k] &= ~0x80` and `FU[k] |= 0x40`.
pub record Scheme : Type 0 where
  pub head : ℕ
  pub clear_start : List ℕ → List ℕ
  pub set_end : List ℕ → List ℕ

module _ (scheme : Scheme) (kind timestamp : ℕ) where
  open scheme use {head, clear_start, set_end}

  unfoldable pub mid_packet : List ℕ → List ℕ → RtpPacket
  mid_packet fu buf = record {
    body = fu ++ take (max_rtp_payload_size - head) buf;
    size = rtp_tcp_head_size + rtp_header_size + max_rtp_payload_size;
    timestamp = timestamp;
    kind = kind;
    last = 0;
  }

  unfoldable pub last_packet : List ℕ → List ℕ → ℕ → RtpPacket
  last_packet fu buf size = record {
    body = set_end fu ++ take size buf;
    size = add32 (rtp_tcp_head_size + rtp_header_size + head) size;
    timestamp = timestamp;
    kind = kind;
    last = 1;
  }

  -- `while (frame_size + head > MAX_RTP_PAYLOAD_SIZE) { … }` and the packet after it. Every round
  -- takes at least one byte off `size`, so `size` is fuel enough; without fuel nothing is sent.
  unfoldable pub fragment_loop :
      {S : Type 0} → Option (SendFrameCallback S) → ℕ → ℕ → S → List ℕ → List ℕ → ℕ → S × Bool
  fragment_loop callback channel zero s fu buf size =
      send callback s channel (last_packet fu buf size)
  fragment_loop callback channel (suc fuel) s fu buf size =
      let (s', sent) = send callback s channel (mid_packet fu buf) in
      let rest =
        fragment_loop callback channel fuel s' (clear_start fu)
          (drop (max_rtp_payload_size - head) buf) (sub32 size (max_rtp_payload_size - head)) in
      let more = if sent then rest else (s', false) in
      if ltb max_rtp_payload_size (add32 size head)
      then more
      else send callback s channel (last_packet fu buf size)
