-- ===== src/Rtsp/RtspMessage.antt =====
-- src/rtsp/RtspMessage.h and RtspMessage.cpp, RtspRequest: what the server keeps of a request. A map
-- that is keyed by constant names is a record with a field per name. What goes beyond an array or a text
-- is a fault.
pub mod RequestLine
pub mod HeaderLines
pub mod Request
pub mod Respond
pub mod Response
pub mod Faults
pub mod Laws
pub mod Url
pub mod Stages
pub mod DescribeHeaders
pub mod DescribeLine
pub mod RoundTrip
mod Tests
use stream_sight.Base.{
  ℕ, ◌%◌, ◌^◌, Bool, true, false, Option, none, some, List, [], ◌∷◌, if◌then◌else◌,
}
use stream_sight.Rtsp.RtpConnection.{TransportMode}
use stream_sight.Text.{Text}

pub data Method : Type 0 where
  options describe setup play teardown get_parameter rtcp no_method : Method

pub data ParseState : Type 0 where
  parse_request_line parse_headers_line got_all : ParseState

pub record RequestLineParam : Type 0 where
  pub url : Option Text
  pub url_ip : Option Text
  pub url_port : Option ℕ
  pub url_suffix : Option Text
  pub version : Option Text
  pub method_name : Option Text

pub record HeaderLineParam : Type 0 where
  pub cseq : Option ℕ
  pub rtp_channel : Option ℕ
  pub rtcp_channel : Option ℕ
  pub rtp_port : Option ℕ
  pub rtcp_port : Option ℕ

pub record RtspRequest : Type 0 where
  pub method : Method
  pub channel_id : ℕ
  pub transport : TransportMode
  pub auth_response : Text
  pub request_line_param : RequestLineParam
  pub header_line_param : HeaderLineParam
  pub state : ParseState

-- A write past the end of an array, a call through a null pointer, and `std::out_of_range` that nobody catches.
pub data Fault : Type 0 where
  array_overrun substr_out_of_range null_pointer : Fault

pub data Result {ℓ} (A : Type ℓ) : Type ℓ where
  ok : A → Result A
  fault : Fault → Result A

infixl 5 ◌>>=◌
abbrev pub ◌>>=◌ {ℓ κ} : {A : Type ℓ} {B : Type κ} → Result A → (A → Result B) → Result B
ok a >>= f = f a
fault why >>= f = fault why

-- `emplace` keeps what is there.
abbrev pub emplace {ℓ} : {A : Type ℓ} → Option A → A → Option A
emplace none a = some a
emplace (some old) a = some old

abbrev pub or_else {ℓ} : {A : Type ℓ} → Option A → A → A
or_else none a = a
or_else (some b) a = b

abbrev pub no_request_line : RequestLineParam
no_request_line = record {
  url = none;
  url_ip = none;
  url_port = none;
  url_suffix = none;
  version = none;
  method_name = none;
}

abbrev pub no_header_line : HeaderLineParam
no_header_line = record {
  cseq = none;
  rtp_channel = none;
  rtcp_channel = none;
  rtp_port = none;
  rtcp_port = none;
}

-- The members that no initializer sets are arguments.
unfoldable pub create : Method → ℕ → TransportMode → RtspRequest
create method channel_id transport = record {
  method = method;
  channel_id = channel_id;
  transport = transport;
  auth_response = [];
  request_line_param = no_request_line;
  header_line_param = no_header_line;
  state = parse_request_line;
}

unfoldable pub reset : RtspRequest → RtspRequest
reset r = record r {
  state = parse_request_line;
  request_line_param = no_request_line;
  header_line_param = no_header_line;
}

abbrev is_got_all : ParseState → Bool
is_got_all got_all = true
is_got_all _ = false

abbrev pub has_got_all : RtspRequest → Bool
has_got_all r = is_got_all r.state

abbrev pub get_cseq : RtspRequest → ℕ
get_cseq r = or_else r.header_line_param.cseq 0

abbrev pub get_ip : RtspRequest → Text
get_ip r = or_else r.request_line_param.url_ip []

abbrev pub get_rtsp_url : RtspRequest → Text
get_rtsp_url r = or_else r.request_line_param.url []

abbrev pub get_rtsp_url_suffix : RtspRequest → Text
get_rtsp_url_suffix r = or_else r.request_line_param.url_suffix []

-- `uint8_t`
abbrev pub get_rtp_channel : RtspRequest → ℕ
get_rtp_channel r = or_else r.header_line_param.rtp_channel 0 % 2 ^ 8

abbrev pub get_rtcp_channel : RtspRequest → ℕ
get_rtcp_channel r = or_else r.header_line_param.rtcp_channel 0 % 2 ^ 8

-- `uint16_t`
abbrev pub get_rtp_port : RtspRequest → ℕ
get_rtp_port r = or_else r.header_line_param.rtp_port 0 % 2 ^ 16

abbrev pub get_rtcp_port : RtspRequest → ℕ
get_rtcp_port r = or_else r.header_line_param.rtcp_port 0 % 2 ^ 16
