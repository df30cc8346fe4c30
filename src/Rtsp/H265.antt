-- ===== src/Rtsp/H265.antt =====
-- src/rtsp/H265Source.cpp: NAL units as RTP packets, whole or as fragmentation units.
pub mod Laws
use stream_sight.Base.{
  ℕ, ◌/◌, Bool, Option, List, [], ◌∷◌, if◌then◌else◌, leb, drop, sub32, get_or, bit_and, bit_or,
}
use stream_sight.Rtsp.Packet.{
  AvFrame, SendFrameCallback, send, stamp, single_packet, max_rtp_payload_size,
}
use stream_sight.Rtsp.Fragment.{Scheme, fragment_loop}

-- FU[0], FU[1] and FU[2], from the two bytes of the NAL unit's header. `49 << 1` is 98.
unfoldable pub fu : ℕ → ℕ → List ℕ
fu b c =
    let nal_unit_type = bit_and b 0x7e / 2 in
    bit_or (bit_and b 0x81) 98 ∷ c ∷ bit_or 0x80 nal_unit_type ∷ []

-- `FU[2] &= ~0x80`
unfoldable pub clear_start : List ℕ → List ℕ
clear_start (x ∷ c ∷ y ∷ []) = x ∷ c ∷ bit_and y 0x7f ∷ []
clear_start fu = fu

-- `FU[2] |= 0x40`
unfoldable pub set_end : List ℕ → List ℕ
set_end (x ∷ c ∷ y ∷ []) = x ∷ c ∷ bit_or y 0x40 ∷ []
set_end fu = fu

abbrev pub fu_scheme : Scheme
fu_scheme = record { head = 3; clear_start = clear_start; set_end = set_end }

-- `us` is the reading of the steady clock in microseconds.
unfoldable pub handle_frame :
    {S : Type 0} → Option (SendFrameCallback S) → S → ℕ → ℕ → AvFrame → S × Bool
handle_frame callback s us channel frame =
    let timestamp = stamp us frame in
    if leb frame.size max_rtp_payload_size
    then send callback s channel (single_packet timestamp frame)
    else fragment_loop fu_scheme frame.kind timestamp callback channel frame.size s
        (fu (get_or frame.buffer 0 0) (get_or frame.buffer 1 0)) (drop 2 frame.buffer)
        (sub32 frame.size 2)
