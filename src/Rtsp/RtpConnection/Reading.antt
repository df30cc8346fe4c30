-- ===== src/Rtsp/RtpConnection/Reading.antt =====
-- How a client reads the interleaved frames that src/rtsp/RtpConnection.cpp sends, after RFC 2326 and
-- RFC 3550.
use stream_sight.Base.{
  ℕ, ◌+◌, ◌*◌, ◌/◌, ◌%◌, ◌^◌, ◌<◌, ◌≡◌, refl, ap, ◌∙◌, ◌&&◌, if◌then◌else◌, ◌==◌, ==_refl, Option,
  none, some, List, ◌∷◌, ◌++◌, length, take, drop, get_or, length-append, take-append, drop-append,
  arith,
}
use stream_sight.Net.Endian.{
  read_uint32_be, read_uint16_be, write_uint32_be, write_uint16_be, read-write_uint,
}
use stream_sight.Rtsp.RtpConnection.{RtpHeader}
use stream_sight.Rtsp.RtpConnection.Sending.{header_bytes}

-- What a client finds in an interleaved frame (RFC 2326, 10.12; RFC 3550, 5.1).
pub record Interleaved : Type 0 where
  pub channel : ℕ
  pub header : RtpHeader
  pub payload : List ℕ

unfoldable pub read_header : List ℕ → RtpHeader
read_header bs = record {
  csrc = get_or bs 0 0 % 2 ^ 4;
  extension = get_or bs 0 0 / 2 ^ 4 % 2;
  padding = get_or bs 0 0 / 2 ^ 5 % 2;
  version = get_or bs 0 0 / 2 ^ 6;
  payload = get_or bs 1 0 % 2 ^ 7;
  marker = get_or bs 1 0 / 2 ^ 7;
  seq = read_uint16_be (take 2 (drop 2 bs));
  ts = read_uint32_be (take 4 (drop 4 bs));
  ssrc = read_uint32_be (take 4 (drop 8 bs));
}

-- A frame whose length is the one that its header gives.
unfoldable pub read_interleaved : List ℕ → Option Interleaved
read_interleaved (magic ∷ channel ∷ high ∷ low ∷ bytes) =
    if magic == 36 && high * 256 + low == length bytes
    then some (record {
      channel = channel;
      header = read_header (take 12 bytes);
      payload = drop 12 bytes;
    })
    else none
read_interleaved bytes = none

-- Every field fits in its bits.
abbrev pub Fits : RtpHeader → Type 0
Fits h =
    (h.csrc < 16)
    × (h.extension < 2)
    × (h.padding < 2)
    × (h.version < 4)
    × (h.payload < 128)
    × (h.marker < 2)
    × (h.seq < 2 ^ 16)
    × (h.ts < 2 ^ 32)
    × (h.ssrc < 2 ^ 32)

read_header-header_bytes : (h : RtpHeader) → Fits h → read_header (header_bytes h) ≡ h
unfolding read_header header_bytes write_uint32_be write_uint16_be
read_header-header_bytes h f =
    let b0 = h.csrc + h.extension * 2 ^ 4 + h.padding * 2 ^ 5 + h.version * 2 ^ 6 in
    let b1 = h.payload + h.marker * 2 ^ 7 in
    let e0 : b0 % 2 ^ 4 ≡ h.csrc = omega arith in
    let e1 : b0 / 2 ^ 4 % 2 ≡ h.extension = omega arith in
    let e2 : b0 / 2 ^ 5 % 2 ≡ h.padding = omega arith in
    let e3 : b0 / 2 ^ 6 ≡ h.version = omega arith in
    let e4 : b1 % 2 ^ 7 ≡ h.payload = omega arith in
    let e5 : b1 / 2 ^ 7 ≡ h.marker = omega arith in
    let seq_small : h.seq < 2 ^ 32 = omega arith in
    let seq_mod : h.seq % 2 ^ 16 ≡ h.seq = omega arith in
    let e6 = (read-write_uint h.seq seq_small).4 ∙ seq_mod in
    let e7 = (read-write_uint h.ts f.7).0 in
    let e8 = (read-write_uint h.ssrc f.8).0 in
    λ i. record {
      csrc = e0 i;
      extension = e1 i;
      padding = e2 i;
      version = e3 i;
      payload = e4 i;
      marker = e5 i;
      seq = e6 i;
      ts = e7 i;
      ssrc = e8 i;
    }

pub length-header_bytes : (h : RtpHeader) → length (header_bytes h) ≡ 12
unfolding header_bytes write_uint32_be write_uint16_be
length-header_bytes h = refl

-- The interleaved frame for a packet: the length is that of header and body.
pub read_interleaved-frame :
    (channel : ℕ) (h : RtpHeader) (body : List ℕ)
    → Fits h
    → 12 + length body < 2 ^ 16
    → let n = 12 + length body in
      read_interleaved (36 ∷ channel ∷ n / 2 ^ 8 % 2 ^ 8 ∷ n % 2 ^ 8 ∷ (header_bytes h ++ body))
      ≡ some (record { channel = channel; header = h; payload = body })
unfolding read_interleaved
read_interleaved-frame channel h body f small =
    let n = 12 + length body in
    let l : length (header_bytes h ++ body) ≡ n =
      length-append (header_bytes h) body ∙ ap (λ k. k + length body) (length-header_bytes h) in
    let e : n / 2 ^ 8 % 2 ^ 8 * 256 + n % 2 ^ 8 ≡ n = omega arith in
    rw
      (
        l,
        e,
        ==_refl n,
        take-append 12 (header_bytes h) body (length-header_bytes h),
        drop-append 12 (header_bytes h) body (length-header_bytes h),
        read_header-header_bytes h f,
      )
      refl
