-- ===== src/Rtsp/Vp8.antt =====
-- src/rtsp/VP8Source.cpp: a frame cut into packets behind a one-byte payload descriptor.
pub mod Laws
use stream_sight.Base.{
  ℕ, zero, suc, ◌+◌, Bool, true, false, Option, List, ◌∷◌, if◌then◌else◌, ltb, ◌==◌, take, drop,
  add32, sub32,
}
use stream_sight.Rtsp.Packet.{
  AvFrame, RtpPacket, SendFrameCallback, send, stamp, rtp_tcp_head_size, rtp_header_size,
  rtp_vpx_head_size, max_rtp_payload_size,
}

-- The bytes of the frame that the next packet takes.
unfoldable pub payload_size : ℕ → ℕ
payload_size size = if ltb size max_rtp_payload_size then size else max_rtp_payload_size

module _ (kind timestamp : ℕ) where
  unfoldable pub packet : ℕ → List ℕ → ℕ → RtpPacket
  packet descriptor buf size = record {
    body = descriptor ∷ take (payload_size size) buf;
    size =
        if ltb size max_rtp_payload_size
        then add32 (rtp_tcp_head_size + rtp_header_size + rtp_vpx_head_size) size
        else rtp_tcp_head_size + rtp_header_size + rtp_vpx_head_size + max_rtp_payload_size;
    timestamp = timestamp;
    kind = kind;
    last = if ltb size max_rtp_payload_size then 1 else 0;
  }

  -- `while (frame_size > 0) { … }`. Every round takes at least one byte, so `size` is fuel enough.
  unfoldable pub vp8_loop :
      {S : Type 0} → Option (SendFrameCallback S) → ℕ → ℕ → S → ℕ → List ℕ → ℕ → S × Bool
  vp8_loop callback channel zero s descriptor buf size = (s, true)
  vp8_loop callback channel (suc fuel) s descriptor buf size =
      let (s', sent) = send callback s channel (packet descriptor buf size) in
      let rest =
        vp8_loop callback channel fuel s' 0x00 (drop (payload_size size) buf)
          (sub32 size (payload_size size)) in
      let round = if sent then rest else (s', false) in if size == 0 then (s, true) else round

-- `us` is the reading of the steady clock in microseconds.
unfoldable pub handle_frame :
    {S : Type 0} → Option (SendFrameCallback S) → S → ℕ → ℕ → AvFrame → S × Bool
handle_frame callback s us channel frame =
    vp8_loop frame.kind (stamp us frame) callback channel frame.size s 0x10 frame.buffer frame.size
