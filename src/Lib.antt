-- ===== src/Lib.antt =====
-- StreamSight, a live stream processing server in C++: an RTSP/RTP stack of its own over a small
-- reactor, an FFmpeg pipeline that feeds it, and an HTTP API. This library models the parts that the
-- server implements itself; paths below are from the repository's root.
--
-- Base and its children hold what the modules share: tests on numbers, lists by native numbers, bits.
--
-- Rtsp models src/rtsp.
--   Rtsp/Packet: media.h, rtp.h and MediaSource.h. `AvFrame` is AVFrame; `RtpPacket` is RtpPacket with
--   the bytes that a source writes behind the sixteen reserved header bytes as `body`. A callback is a
--   function on a state of the caller's choice.
--   Rtsp/Fragment: the fragmentation loop of H264Source.cpp and H265Source.cpp, over the heads that
--   Rtsp/H264 and Rtsp/H265 give it. Rtsp/Fragment/Receive is a receiver after the RFCs, written
--   independently of the sender, which the theorems compare the packets with.
--   Rtsp/Rtcp: RtcpMessage.cpp, with a reader of sender reports after RFC 3550.
--   Rtsp/RtpConnection: RtpConnection.h and RtpConnection.cpp, the sender of one client, whose state
--   includes the scheduler's timer queue (Net/Timer) and what went out (`sent`). Its child Setup draws
--   the UDP ports, ten draws at most as in the code; Timers is about the RTCP timer. Sending is a
--   packet's way out (`deliver` is the trigger event that SendRtpPacket makes) and the sender reports,
--   Reading a client's reader of interleaved frames after the RFCs, Packets and Stream compare them.
--   Rtsp/MediaSession: MediaSession.h and MediaSession.cpp. `on_packet` is the callback that AddSource
--   sets on a source; a connection is a number, and what is known of it a parameter. Clients is about
--   the map of clients, Frames about the way of a frame to a client, Multicast is MulticastAddr.
--   Rtsp/Vp8: VP8Source.cpp. Rtsp/Audio: AACSource.cpp and G711ASource.cpp.
--   Rtsp/Sdp: the session description, from the texts of the sources to GetSdpMessage of
--   MediaSession.cpp with its cache.
--   Rtsp/RtspMessage: RtspMessage.h and RtspMessage.cpp. The state of a request is RtspRequest; Request is
--   ParseRequest and all that it calls, over the receive buffer of Net/BufferReader (RequestLine and
--   HeaderLines hold the sscanf formats), Respond the answers, Response the class RtspResponse. A write
--   past an array and a throwing `substr` are results of their own (`fault`). Stages and RoundTrip follow a
--   request through the parser, Url, Laws and Faults say where the parser fails.
--   Rtsp/RtspConnection: RtspConnection.h and RtspConnection.cpp, rtsp.h and DigestAuthentication.cpp. Server
--   holds the command handlers, Pusher the steps of a pusher, Read what comes from the network. `State` is
--   the connection with what its `rtsp_` leads to; the handlers use Rtsp/RtpConnection,
--   Rtsp/MediaSession and Rtsp/Sdp as the code does. Safe, PusherSafe and Reads are about the null pointers,
--   Message and Answers about the number of messages. An error of the socket when a message is written
--   closes the connection, as in TcpConnection.cpp.
--   Rtsp/RtspServer: RtspServer.h and RtspServer.cpp, the table of sessions.
--   Rtsp/SeiLatencyMarker: SeiLatencyMarker.h, as bytes on a little-endian host.
--
-- Text: texts as lists of bytes, with the conversions of sscanf (Scan) and snprintf (Print) that the sources
-- use, as glibc does them. A number is printed with ten digits at most, which are enough for 32 bits.
--
-- Ffmpeg models src/ffmpeg.
--   Ffmpeg/Session: the serial runner of StreamSession.cpp. What other threads and the media library do
--   enters by answers that depend on a time, which goes up with every call that may take long. The
--   loop takes fuel; enough is the time until the session is stopped and one round. WaitForClients is a loop of
--   wake-ups, whose fuel is that time too. Watched is about the times at which frames are read.
--   Ffmpeg/Pipeline: StreamPipeline.h and StreamPipeline.cpp, with FrameDropPolicy.h and AudioFrame.h. Each
--   of DemuxDecodeLoop, AIProcessLoop and EncodeOutputLoop is cut into steps (Stages): the top of the loop
--   with the sliding window and, in the last one, the pending audio; the pop with what is done to the frame;
--   the push with its count. `run` takes the steps of the three threads and of Stop in any order. What
--   FFmpeg reads is an argument of a step; what the callback, the encoder and the audio output are given
--   is recorded, and so are the frames that a ring refuses, which the code does not count. Balance and
--   Accounts are about the counters, Frames and Kept about the frames themselves, View and Drain about the
--   end, Offers about one push or prune.
--   Ffmpeg/Pacer: Pacer.h, and PithyPrint.h of src/observe.
--
-- Net models src/net.
--   Net/RingBuffer: RingBuffer.h, the queue of frames and trigger events; its specification is
--   Net/RingBuffer/Queue, over lists.
--   Net/Endian: the ReadUint… and WriteUint… functions of BufferReader.cpp and BufferWriter.cpp.
--   Net/BufferReader: BufferReader.h and BufferReader.cpp. `recv` is a parameter.
--   Net/BufferWriter: BufferWriter.h and BufferWriter.cpp. The system's `send` is a parameter; Run is
--   about sequences of calls.
--   Net/MemoryManager: MemoryManager.h and MemoryManager.cpp, the pools of blocks.
--   Net/TaskScheduler: the trigger events of TaskScheduler.h and TaskScheduler.cpp, over Net/RingBuffer.
--   Net/Timer: Timer.h and Timer.cpp, the timer queue; the callbacks are a parameter.
--
-- Not modelled: the pipeline's waits on condition variables, FFmpeg and OpenCV and what only calls them, the HTTP
-- handlers, the RTSP pusher's wait, and the sockets and event queues of the operating system, which enter as parameters.
--
-- Conventions. A byte is a number below 256, a 32-bit size a number with its wrap-around written out
-- (`add32`, `sub32`). A `while` loop takes fuel; each loop says which count of rounds it is, and the
-- theorems are about the whole function, so they show that the fuel suffices. The steady clock is an
-- argument in microseconds. A method returns the new state beside its result. Calls of one object are
-- made one at a time: mutexes are not modelled, and interleavings of threads are sequences of such calls.
-- What happens inside a call, as in Pop of the ring buffer, which takes no mutex, is not interleaved.
pub mod Base
pub mod Rtsp
pub mod Net
pub mod Text
pub mod Ffmpeg
