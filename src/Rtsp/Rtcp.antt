-- ===== src/Rtsp/Rtcp.antt =====
-- src/rtsp/RtcpMessage.h and RtcpMessage.cpp: the RTCP sender report. `us` is the system clock in
-- microseconds.
use stream_sight.Base.{
  ℕ, ◌+◌, ◌*◌, ◌/◌, ◌%◌, ◌^◌, ◌<◌, ◌≡◌, refl, ◌∙◌, List, ◌∷◌, ◌++◌, length, take, drop, get_or, ◌-◌,
  bit_or, bit_or-shifted, arith,
}
use stream_sight.Net.Endian.{
  read_uint32_be, read_uint16_be, write_uint32_be, write_uint16_be, read-write_uint,
}

abbrev pub rtcp_version : ℕ
rtcp_version = 2

abbrev pub rtcp_sr_size : ℕ
rtcp_sr_size = 28

-- RtcpPacketType::SR
abbrev pub rtcp_sr_type : ℕ
rtcp_sr_type = 200

abbrev pub ntp_epoch_offset : ℕ
ntp_epoch_offset = 2208988800

-- The seconds since 1900 above the fraction.
unfoldable pub get_ntp_timestamp : ℕ → ℕ
get_ntp_timestamp us =
    bit_or ((us / 1000000 + ntp_epoch_offset) * 2 ^ 32 % 2 ^ 64)
      (us % 1000000 * 4294967296 / 1000000 % 2 ^ 32)

-- The bytes of an RtcpSRPacket; the fields of its header are packed from the lowest bit.
unfoldable pub build_rtcp_sr : ℕ → ℕ → ℕ → ℕ → ℕ → List ℕ
build_rtcp_sr us ssrc rtp_ts pkt_count octet_count =
    let ntp = get_ntp_timestamp us in
    (0 + 0 * 2 ^ 5 + rtcp_version * 2 ^ 6)
    ∷ rtcp_sr_type
    ∷ (write_uint16_be 6
        ++ (write_uint32_be ssrc
            ++ (write_uint32_be (ntp / 2 ^ 32 % 2 ^ 32)
                ++ (write_uint32_be (ntp % 2 ^ 32)
                    ++ (write_uint32_be rtp_ts
                        ++ (write_uint32_be pkt_count ++ write_uint32_be octet_count))))))

-- A receiver's view (RFC 3550, 6.4.1).
pub record SenderReport : Type 0 where
  pub version : ℕ
  pub padding : ℕ
  pub report_count : ℕ
  pub packet_type : ℕ
  pub words : ℕ
  pub ssrc : ℕ
  pub ntp_seconds : ℕ
  pub ntp_fraction : ℕ
  pub rtp_ts : ℕ
  pub pkt_count : ℕ
  pub octet_count : ℕ

-- The 32-bit word at an offset.
abbrev pub word_at : ℕ → List ℕ → ℕ
word_at k bs = read_uint32_be (take 4 (drop k bs))

unfoldable pub read_sr : List ℕ → SenderReport
read_sr bs = record {
  version = get_or bs 0 0 / 2 ^ 6;
  padding = get_or bs 0 0 / 2 ^ 5 % 2;
  report_count = get_or bs 0 0 % 2 ^ 5;
  packet_type = get_or bs 1 0;
  words = read_uint16_be (take 2 (drop 2 bs));
  ssrc = word_at 4 bs;
  ntp_seconds = word_at 8 bs;
  ntp_fraction = word_at 12 bs;
  rtp_ts = word_at 16 bs;
  pkt_count = word_at 20 bs;
  octet_count = word_at 24 bs;
}

-- The fraction fits below the seconds, so `|` puts them side by side.
ntp_halves :
    (us : ℕ)
    → (get_ntp_timestamp us / 2 ^ 32 % 2 ^ 32 ≡ (us / 1000000 + ntp_epoch_offset) % 2 ^ 32)
      × (get_ntp_timestamp us % 2 ^ 32 ≡ us % 1000000 * 2 ^ 32 / 1000000)
unfolding get_ntp_timestamp
ntp_halves us =
    let sec = (us / 1000000 + ntp_epoch_offset) % 2 ^ 32 in
    let frac = us % 1000000 * 4294967296 / 1000000 in
    let shifted : (us / 1000000 + ntp_epoch_offset) * 2 ^ 32 % 2 ^ 64 ≡ sec * 2 ^ 32 =
      omega arith in
    let small : frac % 2 ^ 32 ≡ frac = omega arith in
    let fits : frac < 2 ^ 32 = omega arith in
    rw (shifted, small, bit_or-shifted 32 sec frac fits) (omega arith, omega arith)

-- BuildRtcpSR, for values below 2^32, writes 28 bytes that a receiver reads as a version 2 sender report
-- without padding and without report blocks, of the length that its own header gives in words,
-- with the counts, the timestamp and the source handed over, and the clock as seconds since 1900,
-- modulo 2^32, and a binary fraction.
pub read_sr-build_rtcp_sr :
    (us ssrc rtp_ts pkt_count octet_count : ℕ)
    → ssrc < 2 ^ 32
    → rtp_ts < 2 ^ 32
    → pkt_count < 2 ^ 32
    → octet_count < 2 ^ 32
    → let bs = build_rtcp_sr us ssrc rtp_ts pkt_count octet_count in
      (length bs ≡ rtcp_sr_size)
      × (read_sr bs ≡ record {
        version = 2;
        padding = 0;
        report_count = 0;
        packet_type = 200;
        words = length bs / 4 - 1;
        ssrc = ssrc;
        ntp_seconds = (us / 1000000 + ntp_epoch_offset) % 2 ^ 32;
        ntp_fraction = us % 1000000 * 2 ^ 32 / 1000000;
        rtp_ts = rtp_ts;
        pkt_count = pkt_count;
        octet_count = octet_count;
      })
unfolding read_sr build_rtcp_sr write_uint32_be write_uint16_be
read_sr-build_rtcp_sr us ssrc rtp_ts pkt_count octet_count h1 h2 h3 h4 =
    let n = ntp_halves us in
    let w4 = (read-write_uint ssrc h1).0 in
    let w8 = (read-write_uint (get_ntp_timestamp us / 2 ^ 32 % 2 ^ 32) (omega arith)).0 in
    let w12 = (read-write_uint (get_ntp_timestamp us % 2 ^ 32) (omega arith)).0 in
    let w16 = (read-write_uint rtp_ts h2).0 in
    let w20 = (read-write_uint pkt_count h3).0 in
    let w24 = (read-write_uint octet_count h4).0 in
    let l = (read-write_uint 6 (omega arith)).4 in
    let s8 = w8 ∙ n.0 in
    let s12 = w12 ∙ n.1 in
    (
      refl,
      λ i. record {
        version = 2;
        padding = 0;
        report_count = 0;
        packet_type = 200;
        words = l i;
        ssrc = w4 i;
        ntp_seconds = s8 i;
        ntp_fraction = s12 i;
        rtp_ts = w16 i;
        pkt_count = w20 i;
        octet_count = w24 i;
      },
    )
