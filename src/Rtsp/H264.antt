-- ===== src/Rtsp/H264.antt =====
-- src/rtsp/H264Source.cpp: NAL units as RTP packets, whole or as fragmentation units FU-A.
pub mod Laws
use stream_sight.Base.{
  ℕ, ◌+◌, ◌-◌, Bool, Option, List, [], ◌∷◌, if◌then◌else◌, leb, drop, sub32, get_or, bit_and,
  bit_or,
}
use stream_sight.Rtsp.Packet.{
  AvFrame, SendFrameCallback, send, stamp, single_packet, max_rtp_payload_size,
}
use stream_sight.Rtsp.Fragment.{Scheme, fragment_loop}

-- FU_A[0] and FU_A[1], from the first byte of the NAL unit.
unfoldable pub fu_a : ℕ → List ℕ
fu_a b = bit_or (bit_and b 0xe0) 28 ∷ bit_or 0x80 (bit_and b 0x1f) ∷ []

-- `FU_A[1] &= ~0x80`
unfoldable pub clear_start : List ℕ → List ℕ
clear_start (x ∷ y ∷ []) = x ∷ bit_and y 0x7f ∷ []
clear_start fu = fu

-- `FU_A[1] |= 0x40`
unfoldable pub set_end : List ℕ → List ℕ
set_end (x ∷ y ∷ []) = x ∷ bit_or y 0x40 ∷ []
set_end fu = fu

abbrev pub fu_a_scheme : Scheme
fu_a_scheme = record { head = 2; clear_start = clear_start; set_end = set_end }

-- `us` is the reading of the steady clock in microseconds.
unfoldable pub handle_frame :
    {S : Type 0} → Option (SendFrameCallback S) → S → ℕ → ℕ → AvFrame → S × Bool
handle_frame callback s us channel frame =
    let timestamp = stamp us frame in
    if leb frame.size max_rtp_payload_size
    then send callback s channel (single_packet timestamp frame)
    else fragment_loop fu_a_scheme frame.kind timestamp callback channel frame.size s
        (fu_a (get_or frame.buffer 0 0)) (drop 1 frame.buffer) (sub32 frame.size 1)
