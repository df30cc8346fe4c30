-- ===== src/Rtsp/Audio.antt =====
-- src/rtsp/AACSource.cpp and G711ASource.cpp: one audio frame to one RTP packet.
pub mod Laws
use stream_sight.Base.{
  ℕ, ◌+◌, ◌-◌, ◌*◌, ◌/◌, ◌%◌, ◌^◌, Bool, true, false, Option, none, some, List, [], ◌∷◌, ◌++◌,
  if◌then◌else◌, ltb, take, drop, add32, sub32, bit_and,
}
use stream_sight.Rtsp.Packet.{
  AvFrame, RtpPacket, SendFrameCallback, send, single_packet, rtp_tcp_head_size, rtp_header_size,
  max_rtp_payload_size, rtp_packet_capacity,
}

abbrev pub adts_size : ℕ
adts_size = 7

abbrev pub au_size : ℕ
au_size = 4

-- `frame_size`: what is copied when the ADTS header is stripped.
unfoldable pub raw_size : Bool → AvFrame → ℕ
raw_size has_adts frame = sub32 frame.size (if has_adts then adts_size else 0)

-- The AU-headers-length and one AU header.
unfoldable pub au_header : ℕ → List ℕ
au_header size = 0x00 ∷ 0x10 ∷ bit_and size 0x1fe0 / 2 ^ 5 ∷ bit_and size 0x1f * 2 ^ 3 ∷ []

unfoldable pub aac_packet : Bool → AvFrame → RtpPacket
aac_packet has_adts frame = record {
  body =
      au_header (raw_size has_adts frame)
      ++ take (raw_size has_adts frame) (drop (if has_adts then adts_size else 0) frame.buffer);
  size = add32 (raw_size has_adts frame) (rtp_tcp_head_size + rtp_header_size + au_size);
  timestamp = frame.timestamp;
  kind = frame.kind;
  last = 1;
}

module _ {S : Type 0} where
  -- AACSource::HandleFrame; none is a memcpy past the end of the packet's buffer, which is undefined.
  -- What the callback returns is not looked at.
  unfoldable pub handle_aac :
      Option (SendFrameCallback S) → S → Bool → ℕ → AvFrame → Option (S × Bool)
  handle_aac callback s has_adts channel frame =
      if ltb (max_rtp_payload_size - au_size) frame.size
      then some (s, false)
      else if ltb rtp_packet_capacity
          (rtp_tcp_head_size + rtp_header_size + au_size + raw_size has_adts frame)
      then none
      else some ((send callback s channel (aac_packet has_adts frame)).0, true)

  -- G711ASource::HandleFrame
  unfoldable pub handle_g711a : Option (SendFrameCallback S) → S → ℕ → AvFrame → S × Bool
  handle_g711a callback s channel frame =
      if ltb max_rtp_payload_size frame.size
      then (s, false)
      else ((send callback s channel (single_packet frame.timestamp frame)).0, true)

-- AACSource::GetTimestamp and G711ASource::GetTimestamp, at `us` microseconds of the steady clock.
unfoldable pub aac_timestamp : ℕ → ℕ → ℕ
aac_timestamp us sample_rate = (us * sample_rate / 1000000) % 2 ^ 32

unfoldable pub g711a_timestamp : ℕ → ℕ
g711a_timestamp us = (us / 125) % 2 ^ 32
