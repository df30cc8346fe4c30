-- ===== src/Ffmpeg/Pipeline.antt =====
-- src/ffmpeg/StreamPipeline.h and StreamPipeline.cpp, FrameDropPolicy.h, AudioFrame.h: the three stages of a
-- stream and the rings between them. Each stage has its place in its loop, and the steps of the stages are
-- taken in any order. A step is the top of a loop with the sliding window (and the pending audio), a pop
-- with what is done to the frame, or a push with its count. Pixel data is a reference. FFmpeg's answers,
-- the clock and the comparisons of floats are parameters.
pub mod Stages
pub mod Offers
pub mod Balance
pub mod Accounts
pub mod Frames
pub mod Kept
pub mod View
pub mod Drain
mod Tests
use stream_sight.Base.{
  ℕ, ◌+◌, Bool, true, false, Option, none, some, List, [], ◌∷◌, if◌then◌else◌, ltb,
}
use stream_sight.Ffmpeg.Pacer.{Pacer, set_fps}
use stream_sight.Net.RingBuffer.{RingBuffer}
use stream_sight.Net.RingBuffer as Ring

-- DecodedFrame, and ProcessedFrame, that has the same members.
pub record DecodedFrame : Type 0 where
  pub pixel_data : ℕ
  pub width : ℕ
  pub height : ℕ
  pub linesize : ℕ
  pub frame_index : ℕ
  pub capture_time_us : ℕ
  pub is_keyframe : Bool

pub record AudioFrame : Type 0 where
  pub pcm_data : List ℕ
  pub capture_time_us : ℕ
  pub sample_rate : ℕ
  pub channels : ℕ
  pub nb_samples : ℕ

-- FrameDropPolicy. The comparisons of a ring's fill, a size and a capacity, are `>= start_drop_ratio`,
-- `> start_drop_ratio` and `> start_drop_ratio + 0.15f`.
pub record FrameDropPolicy : Type 0 where
  pub max_frame_age_us : ℕ
  pub prefer_keep_keyframe : Bool
  pub starts_drop : ℕ → ℕ → Bool
  pub is_over : ℕ → ℕ → Bool
  pub is_far_over : ℕ → ℕ → Bool

pub record PipelineConfig : Type 0 where
  pub fps : ℕ
  pub pace_fps : ℕ
  pub decode_ring_size : ℕ
  pub process_ring_size : ℕ
  pub audio_ring_size : ℕ
  pub drop_policy : FrameDropPolicy
  pub enable_backpressure : Bool
  pub has_frame_cb : Bool

-- Where the thread of a stage is: at the top of its loop, before its read or its pop, with a frame in
-- hand, or behind its loop.
pub data DemuxAt : Type 0 where
  at_top reading ended : DemuxAt

pub data AiAt : Type 0 where
  at_top popping ended : AiAt
  holding : DecodedFrame → AiAt

pub data EncodeAt : Type 0 where
  at_top popping ended : EncodeAt

-- A time stamp of the encoder, before or from the first frame's on.
pub data Pts : Type 0 where
  before from_base : ℕ → Pts

-- `frame_idx` of the first and of the last stage are locals of their loops. `analysed`, `encoded` and
-- `played` record what frame_cb, the encoder (with its time stamp) and the audio output were given;
-- `refused_demux` and `refused_ai` count the frames that PushOrDrop answers with NewDropped, and
-- `taken` those that the second stage popped, which the code does not count.
pub record StreamPipeline : Type 0 where
  pub running : Bool
  pub stop : Bool
  pub demux_at : DemuxAt
  pub ai_at : AiAt
  pub encode_at : EncodeAt
  pub decode_ring : RingBuffer DecodedFrame
  pub process_ring : RingBuffer DecodedFrame
  pub audio_ring : RingBuffer AudioFrame
  pub pacer : Pacer
  pub demux_idx : ℕ
  pub encode_idx : ℕ
  pub pts_base_us : ℕ
  pub frames_decoded : ℕ
  pub dropped_demux : ℕ
  pub dropped_ai : ℕ
  pub pruned_demux : ℕ
  pub pruned_ai : ℕ
  pub audio_dropped : ℕ
  pub audio_pruned : ℕ
  pub max_decode_ring_fill : ℕ
  pub max_process_ring_fill : ℕ
  pub backpressure_events : ℕ
  pub refused_demux : ℕ
  pub refused_ai : ℕ
  pub taken : ℕ
  pub read_frames : List DecodedFrame
  pub analysed : List DecodedFrame
  pub encoded : List (Pts × DecodedFrame)
  pub played : List AudioFrame

abbrev pub no_frame : DecodedFrame
no_frame = record {
  pixel_data = 0;
  width = 0;
  height = 0;
  linesize = 0;
  frame_index = 0;
  capture_time_us = 0;
  is_keyframe = false;
}

abbrev pub no_audio : AudioFrame
no_audio = record {
  pcm_data = [];
  capture_time_us = 0;
  sample_rate = 0;
  channels = 0;
  nb_samples = 0;
}

unfoldable pub create : PipelineConfig → StreamPipeline
create cfg = record {
  running = false;
  stop = false;
  demux_at = DemuxAt.ended;
  ai_at = AiAt.ended;
  encode_at = EncodeAt.ended;
  decode_ring = Ring.create no_frame cfg.decode_ring_size;
  process_ring = Ring.create no_frame cfg.process_ring_size;
  audio_ring = Ring.create no_audio cfg.audio_ring_size;
  pacer = record { fps = 0; next_us = 0 };
  demux_idx = 0;
  encode_idx = 0;
  pts_base_us = 0;
  frames_decoded = 0;
  dropped_demux = 0;
  dropped_ai = 0;
  pruned_demux = 0;
  pruned_ai = 0;
  audio_dropped = 0;
  audio_pruned = 0;
  max_decode_ring_fill = 0;
  max_process_ring_fill = 0;
  backpressure_events = 0;
  refused_demux = 0;
  refused_ai = 0;
  taken = 0;
  read_frames = [];
  analysed = [];
  encoded = [];
  played = [];
}

-- Start, whose threads are the steps to come.
unfoldable pub start : PipelineConfig → StreamPipeline → StreamPipeline
start cfg s = if s.running then s else record s {
  stop = false;
  demux_at = DemuxAt.at_top;
  ai_at = AiAt.at_top;
  encode_at = EncodeAt.at_top;
  pacer = set_fps cfg.pace_fps s.pacer;
  demux_idx = 0;
  encode_idx = 0;
  running = true;
}

-- Stop, before it waits for the threads.
unfoldable pub request_stop : StreamPipeline → StreamPipeline
request_stop s = if s.running then record s { stop = true; running = false } else s

-- The peak of a ring's fill.
abbrev pub peak : ℕ → ℕ → ℕ
peak fill prev_max = if ltb prev_max fill then fill else prev_max
