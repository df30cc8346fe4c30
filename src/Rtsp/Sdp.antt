-- ===== src/Rtsp/Sdp.antt =====
-- The session description: GetMediaDescription and GetAttribute of the sources (src/rtsp/…Source.cpp),
-- their clock rate and payload type, and MediaSession::GetSdpMessage of src/rtsp/MediaSession.cpp. The
-- local time is below 10^10 seconds.
pub mod Laws
mod Tests
use stream_sight.Base.{
  ℕ, zero, suc, ◌+◌, ◌-◌, ◌*◌, ◌/◌, ◌%◌, ◌^◌, Bool, true, false, Option, none, some, List, [], ◌∷◌,
  ◌++◌, if◌then◌else◌, ltb, ◌==◌, length, bit_or,
}
use stream_sight.Rtsp.RtpConnection.{max_media_channel}
use stream_sight.Text.Print.{decimal, decimal_int, snprintf, print_behind}
use stream_sight.Text.Scan.{number}
use stream_sight.Text.{Text, codes, text_eq}

-- What a MediaSource tells of itself.
pub record Described : Type 0 where
  pub media_description : ℕ → Text
  pub attribute : Text
  pub clock_rate : ℕ
  pub payload_type : ℕ

abbrev media_line : Text → Text → ℕ → Text
media_line kind format port =
    codes "m=" ++ kind ++ codes " " ++ decimal port ++ codes " RTP/AVP " ++ format

unfoldable pub h264_source : Described
h264_source = record {
  media_description = media_line (codes "video") (codes "96");
  attribute = codes "a=rtpmap:96 H264/90000";
  clock_rate = 90000;
  payload_type = 96;
}

unfoldable pub h265_source : Described
h265_source = record {
  media_description = media_line (codes "video") (codes "96");
  attribute = codes "a=rtpmap:96 H265/90000";
  clock_rate = 90000;
  payload_type = 96;
}

unfoldable pub vp8_source : Described
vp8_source = record {
  media_description = media_line (codes "video") (codes "96");
  attribute = codes "a=rtpmap:96 VP8/90000";
  clock_rate = 90000;
  payload_type = 96;
}

unfoldable pub g711a_source : Described
g711a_source = record {
  media_description = media_line (codes "audio") (codes "8");
  attribute = codes "a=rtpmap:8 PCMA/8000/1";
  clock_rate = 8000;
  payload_type = 8;
}

-- `AACSampleRate`
abbrev pub aac_sample_rate : List ℕ
aac_sample_rate =
    96000 ∷ 88200 ∷ 64000 ∷ 48000 ∷ 44100 ∷ 32000 ∷ 24000 ∷ 22050 ∷ 16000 ∷ 12000 ∷ 11025 ∷ 8000
    ∷ 7350 ∷ 0 ∷ 0 ∷ 0 ∷ []

-- The loop over the table: the first index with the rate, or the table's length.
unfoldable pub rate_index : ℕ → List ℕ → ℕ
rate_index rate [] = 0
rate_index rate (r ∷ rs) = let later = suc (rate_index rate rs) in if r == rate then 0 else later

abbrev hex_digit : ℕ → ℕ
hex_digit n = if ltb n 10 then b'0' + n else b'a' + (n - 10)

-- `%02x` of a byte.
abbrev pub hex_byte : ℕ → Text
hex_byte n = hex_digit (n / 16) ∷ hex_digit (n % 16) ∷ []

-- The two bytes of the AudioSpecificConfig, in hexadecimal digits.
unfoldable pub aac_config : ℕ → ℕ → Text
aac_config index channels =
    hex_byte (bit_or (2 * 2 ^ 3) (index / 2))
    ++ hex_byte (bit_or (index * 2 ^ 7) (channels * 2 ^ 3) % 2 ^ 8)

-- `%04u`
abbrev pub padded : ℕ → Text
padded n =
    if ltb n 10
    then codes "000" ++ decimal n
    else if ltb n 100
    then codes "00" ++ decimal n
    else if ltb n 1000
    then codes "0" ++ decimal n
    else decimal n

-- `%04u` of `atoi(config)`: the decimal digits in front.
unfoldable pub printed_config : ℕ → ℕ → Text
printed_config index channels = padded (number 0 (aac_config index channels)).0

unfoldable pub aac_attribute : ℕ → ℕ → Text
aac_attribute samplerate channels =
    let index = rate_index samplerate aac_sample_rate in
    if index == 16
    then []
    else codes "a=rtpmap:97 MPEG4-GENERIC/"
      ++ decimal samplerate
      ++ codes "/"
      ++ decimal channels
      ++ codes "\r\na=fmtp:97 profile-level-id=1;mode=AAC-hbr;"
      ++ codes "sizelength=13;indexlength=3;indexdeltalength=3;config="
      ++ printed_config index channels

unfoldable pub aac_source : ℕ → ℕ → Described
aac_source samplerate channels = record {
  media_description = media_line (codes "audio") (codes "97");
  attribute = aac_attribute samplerate channels;
  clock_rate = samplerate;
  payload_type = 97;
}

-- What GetSdpMessage reads of the session, and its cache `sdp`.
pub record Description : Type 0 where
  pub sdp : Text
  pub media_sources : ℕ → Option Described
  pub is_multicast : Bool
  pub multicast_ip : Text
  pub multicast_port : ℕ → ℕ

abbrev pub sdp_size : ℕ
sdp_size = 2048

abbrev pub print : Text → Text → Text
print = print_behind sdp_size

-- One channel's part of the loop.
unfoldable pub describe_source : Description → ℕ → Described → Text → Text
describe_source d chn source buf =
    let media =
      if d.is_multicast
      then print (print buf (source.media_description (d.multicast_port chn) ++ codes "\r\n"))
          (codes "c=IN IP4 " ++ d.multicast_ip ++ codes "/255\r\n")
      else print buf (source.media_description 0 ++ codes "\r\n") in
    print (print media (source.attribute ++ codes "\r\n"))
      (codes "a=control:track" ++ decimal chn ++ codes "\r\n")

abbrev pub describe_channel : Description → ℕ → Option Described → Text → Text
describe_channel d chn none buf = buf
describe_channel d chn (some source) buf = describe_source d chn source buf

-- The loop over the channels below `n`.
unfoldable pub describe_channels : Description → ℕ → Text → Text
describe_channels d zero buf = buf
describe_channels d (suc n) buf =
    let before = describe_channels d n buf in describe_channel d n (d.media_sources n) before

unfoldable pub describe_session : ℕ → Text → Text → Description → Text
describe_session now ip session_name d =
    let origin = snprintf sdp_size (
      codes "v=0\r\no=- 9"
      ++ decimal now
      ++ codes " 1 IN IP4 "
      ++ ip
      ++ codes "\r\nt=0 0\r\na=control:*\r\n") in
    let named =
      if text_eq session_name []
      then origin
      else print origin (codes "s=" ++ session_name ++ codes "\r\n") in
    let cast =
      if d.is_multicast
      then print named (codes "a=type:broadcast\r\na=rtcp-unicast: reflection\r\n")
      else named in
    describe_channels d max_media_channel cast

-- GetSdpMessage. `media_sources_` has its two places from the constructor on, so it is never empty.
unfoldable pub get_sdp_message : ℕ → Text → Text → Description → Description × Text
get_sdp_message now ip session_name d =
    let fresh = describe_session now ip session_name d in
    if text_eq d.sdp [] then (record d { sdp = fresh }, fresh) else (d, d.sdp)
