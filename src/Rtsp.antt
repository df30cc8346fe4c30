-- ===== src/Rtsp.antt =====
-- The RTSP/RTP stack of src/rtsp.
mod Tests
pub mod Packet
pub mod Fragment
pub mod H264
pub mod H265
pub mod Vp8
pub mod Audio
pub mod Rtcp
pub mod RtpConnection
pub mod MediaSession
pub mod Sdp
pub mod RtspMessage
pub mod RtspConnection
pub mod RtspServer
pub mod SeiLatencyMarker
