-- ===== src/Ffmpeg/Pipeline/Stages.antt =====
-- The loops of src/ffmpeg/StreamPipeline.cpp, step by step: DemuxDecodeLoop, AIProcessLoop, EncodeOutputLoop.
use stream_sight.Base.{
  ℕ, zero, suc, ◌+◌, ◌-◌, ◌*◌, ◌/◌, Bool, true, false, not, ◌&&◌, ◌||◌, Option, none, some, List,
  [], ◌∷◌, ◌++◌, if◌then◌else◌, ltb, ◌==◌,
}
use stream_sight.Ffmpeg.Pipeline.{
  StreamPipeline, PipelineConfig, DecodedFrame, AudioFrame, DemuxAt, AiAt, EncodeAt, Pts, before,
  from_base, no_frame, no_audio, peak, request_stop,
}
use stream_sight.Ffmpeg.Pacer.{wait}
use stream_sight.Net.RingBuffer.{
  RingBuffer, DropStatus, accepted, old_dropped, new_dropped, push, push_overwrite, push_or_drop,
  pop, prune_stale, is_empty,
}

-- How a push ended, for the counts: taken in, one lost from the ring, or the new one refused.
pub data Offer : Type 0 where
  kept replaced refused : Offer

abbrev pub offer_of : DropStatus → Offer
offer_of accepted = kept
offer_of old_dropped = replaced
offer_of new_dropped = refused

module _ {A : Type 0} (d : A) (timestamp : A → ℕ) (cfg : PipelineConfig) where
  -- `if (!Push(…)) { PushOverwrite(…); ++dropped; }`
  unfoldable pub push_always : RingBuffer A → A → RingBuffer A × Offer
  push_always r x =
      if (push r x).1 then ((push r x).0, kept) else ((push_overwrite r x).0, replaced)

  unfoldable pub offer : ℕ → RingBuffer A → A → RingBuffer A × Offer
  offer now_us r x =
      let (r', status) = push_or_drop d r x now_us cfg.drop_policy.max_frame_age_us timestamp in
      if cfg.enable_backpressure then (r', offer_of status) else push_always r x

abbrev pub replaced_one : Offer → ℕ
replaced_one replaced = 1
replaced_one _ = 0

abbrev pub refused_one : Offer → ℕ
refused_one refused = 1
refused_one _ = 0

module _ (cfg : PipelineConfig) where
  -- An audio frame in ReadAndDecodeOnce, whose time is that of its capture.
  unfoldable pub take_audio : AudioFrame → StreamPipeline → StreamPipeline
  take_audio f s =
      let (r, o) =
        offer no_audio (λ (x : AudioFrame). x.capture_time_us) cfg f.capture_time_us s.audio_ring
          f in
      record s { audio_ring = r; audio_dropped = s.audio_dropped + replaced_one o }

  unfoldable pub take_all_audio : List AudioFrame → StreamPipeline → StreamPipeline
  take_all_audio [] s = s
  take_all_audio (f ∷ fs) s = take_all_audio fs (take_audio f s)

  unfoldable pub push_decoded : ℕ → DecodedFrame → StreamPipeline → StreamPipeline
  push_decoded capture_us f s =
      let (r, o) =
        offer no_frame (λ (x : DecodedFrame). x.capture_time_us) cfg capture_us s.decode_ring f in
      record s {
        decode_ring = r;
        dropped_demux = s.dropped_demux + replaced_one o;
        refused_demux = s.refused_demux + refused_one o;
        frames_decoded = s.frames_decoded + 1;
        demux_idx = s.demux_idx + 1;
        read_frames = s.read_frames ++ (f ∷ []);
        max_decode_ring_fill = peak r.num_datas s.max_decode_ring_fill;
      }

  -- ReadAndDecodeOnce gave the audio frames on its way, and a picture (pixels, sizes, key flag) or the end.
  unfoldable pub demux_read :
      ℕ → List AudioFrame → Option DecodedFrame → StreamPipeline → StreamPipeline
  demux_read capture_us audio none s = record (take_all_audio audio s) {
    stop = true;
    demux_at = DemuxAt.ended;
  }
  demux_read capture_us audio (some picture) s =
      let f = record picture { frame_index = s.demux_idx; capture_time_us = capture_us } in
      record (push_decoded capture_us f (take_all_audio audio s)) { demux_at = DemuxAt.at_top }

  -- DemuxDecodeLoop, once it is open: the wait for a client, the test and the pacer, then the read
  -- and the push. A turn comes when a wait is over.
  unfoldable pub demux_step :
      DemuxAt → ℕ → List AudioFrame → Option DecodedFrame → StreamPipeline → StreamPipeline
  demux_step DemuxAt.at_top now_us audio picture s = record s {
    demux_at = if s.stop then DemuxAt.ended else DemuxAt.reading;
    pacer = if s.stop then s.pacer else (wait now_us s.pacer).0;
  }
  demux_step DemuxAt.reading capture_us audio picture s = demux_read capture_us audio picture s
  demux_step DemuxAt.ended capture_us audio picture s = s

  abbrev pub keep_fn : Option (DecodedFrame → Bool)
  keep_fn = if cfg.drop_policy.prefer_keep_keyframe then some (λ f. f.is_keyframe) else none

  -- The sliding window over a ring: the ring, how many frames were pruned, and whether the window was applied.
  unfoldable pub prune_window : ℕ → RingBuffer DecodedFrame → RingBuffer DecodedFrame × ℕ × ℕ
  prune_window now_us r =
      let (r', pruned) =
        prune_stale no_frame (now_us - cfg.drop_policy.max_frame_age_us)
          (λ (x : DecodedFrame). x.capture_time_us) keep_fn r in
      if cfg.enable_backpressure && cfg.drop_policy.starts_drop r.num_datas r.capacity
      then (r', pruned, 1)
      else (r, 0, 0)

  -- The rate control on what is left in the ring.
  unfoldable pub skips_ai : RingBuffer DecodedFrame → DecodedFrame → Bool
  skips_ai r f =
      cfg.enable_backpressure
      && (cfg.drop_policy.is_far_over r.num_datas r.capacity
          || (cfg.drop_policy.is_over r.num_datas r.capacity && not f.is_keyframe))

  abbrev one_if : Bool → ℕ
  one_if true = 1
  one_if false = 0

  -- The callback, which draws into the pixels that the frame refers to.
  unfoldable pub analyse : DecodedFrame → StreamPipeline → StreamPipeline
  analyse f s =
      let skip = skips_ai s.decode_ring f in
      record s {
        backpressure_events = s.backpressure_events + one_if skip;
        analysed = if cfg.has_frame_cb && not skip then s.analysed ++ (f ∷ []) else s.analysed;
      }

  unfoldable pub push_processed : ℕ → DecodedFrame → StreamPipeline → StreamPipeline
  push_processed now_us f s =
      let (r, o) =
        offer no_frame (λ (x : DecodedFrame). x.capture_time_us) cfg now_us s.process_ring f in
      record s {
        process_ring = r;
        dropped_ai = s.dropped_ai + replaced_one o;
        refused_ai = s.refused_ai + refused_one o;
        max_process_ring_fill = peak r.num_datas s.max_process_ring_fill;
      }

  unfoldable pub prune_decoded : ℕ → StreamPipeline → StreamPipeline
  prune_decoded now_us s =
      let (r, pruned, applied) = prune_window now_us s.decode_ring in
      record s {
        decode_ring = r;
        pruned_demux = s.pruned_demux + pruned;
        backpressure_events = s.backpressure_events + applied;
      }

  -- An empty ring ends the loop when the pipeline stops, and means a wait otherwise.
  unfoldable pub ai_popped :
      RingBuffer DecodedFrame × Option DecodedFrame → StreamPipeline → StreamPipeline
  ai_popped (r, none) s = record s { ai_at = if s.stop then AiAt.ended else AiAt.at_top }
  ai_popped (r, some f) s = record (analyse f (record s { decode_ring = r })) {
    taken = s.taken + 1;
    ai_at = AiAt.holding f;
  }

  -- AIProcessLoop: the test and the window, the pop and the callback, the push. Where the loop ends, `stop_`
  -- is set already.
  unfoldable pub ai_step : AiAt → ℕ → StreamPipeline → StreamPipeline
  ai_step AiAt.at_top now_us s =
      if s.stop && is_empty s.decode_ring
      then record s { ai_at = AiAt.ended }
      else record (prune_decoded now_us s) { ai_at = AiAt.popping }
  ai_step AiAt.popping now_us s = ai_popped (pop no_frame s.decode_ring) s
  ai_step (AiAt.holding f) now_us s = record (push_processed now_us f s) { ai_at = AiAt.at_top }
  ai_step AiAt.ended now_us s = s

  unfoldable pub prune_processed : ℕ → StreamPipeline → StreamPipeline
  prune_processed now_us s =
      let (r, pruned, applied) = prune_window now_us s.process_ring in
      record s {
        process_ring = r;
        pruned_ai = s.pruned_ai + pruned;
        backpressure_events = s.backpressure_events + applied;
      }

  -- The pending audio, `rounds` of the inner loop at most; `audio` is `audio_enabled`.
  unfoldable pub prune_audio : ℕ → StreamPipeline → StreamPipeline
  prune_audio now_us s =
      let (r, pruned) =
        prune_stale no_audio (now_us - cfg.drop_policy.max_frame_age_us)
          (λ (x : AudioFrame). x.capture_time_us) none s.audio_ring in
      if cfg.enable_backpressure
      then record s { audio_ring = r; audio_pruned = s.audio_pruned + pruned }
      else s

  unfoldable pub play_popped :
      RingBuffer AudioFrame × Option AudioFrame → StreamPipeline → StreamPipeline
  play_popped (r, none) s = s
  play_popped (r, some f) s = record s { audio_ring = r; played = s.played ++ (f ∷ []) }

  unfoldable pub audio_rounds : ℕ → ℕ → StreamPipeline → StreamPipeline
  audio_rounds zero now_us s = s
  audio_rounds (suc rounds) now_us s =
      let pruned = prune_audio now_us s in
      let later =
        audio_rounds rounds now_us (play_popped (pop no_audio pruned.audio_ring) pruned) in
      if is_empty s.audio_ring then s else later

  -- `(capture_time_us - pts_base_us_) * fps / 1000000`
  unfoldable pub pts : ℕ → ℕ → Pts
  pts base capture_us =
      if ltb capture_us base
      then before ((base - capture_us) * cfg.fps / 1000000)
      else from_base ((capture_us - base) * cfg.fps / 1000000)

  -- The frame goes to the encoder with the time since the first one, in frames.
  unfoldable pub encode : DecodedFrame → StreamPipeline → StreamPipeline
  encode f s =
      let base = if s.encode_idx == 0 then f.capture_time_us else s.pts_base_us in
      record s {
        pts_base_us = base;
        encode_idx = s.encode_idx + 1;
        encoded = s.encoded ++ ((pts base f.capture_time_us, f) ∷ []);
      }

  unfoldable pub encode_popped :
      RingBuffer DecodedFrame × Option DecodedFrame → StreamPipeline → StreamPipeline
  encode_popped (r, none) s = record s {
    encode_at = if s.stop then EncodeAt.ended else EncodeAt.at_top;
  }
  encode_popped (r, some f) s = record (encode f (record s { process_ring = r })) {
    encode_at = EncodeAt.at_top;
  }

  -- EncodeOutputLoop, once it is open. The fill of the audio ring bounds the rounds of the inner loop.
  unfoldable pub encode_step : EncodeAt → Bool → ℕ → StreamPipeline → StreamPipeline
  encode_step EncodeAt.at_top audio now_us s =
      let heard = if audio then audio_rounds s.audio_ring.num_datas now_us s else s in
      if s.stop && (is_empty s.process_ring && is_empty s.audio_ring)
      then record s { encode_at = EncodeAt.ended }
      else record (prune_processed now_us heard) { encode_at = EncodeAt.popping }
  encode_step EncodeAt.popping audio now_us s = encode_popped (pop no_frame s.process_ring) s
  encode_step EncodeAt.ended audio now_us s = s

-- Whose turn it is, with what comes from outside.
pub data Turn : Type 0 where
  demux : ℕ → List AudioFrame → Option DecodedFrame → Turn
  ai : ℕ → Turn
  encodes : Bool → ℕ → Turn
  stops : Turn

module _ (cfg : PipelineConfig) where
  unfoldable pub turn : StreamPipeline → Turn → StreamPipeline
  turn s (demux capture_us audio picture) = demux_step cfg s.demux_at capture_us audio picture s
  turn s (ai now_us) = ai_step cfg s.ai_at now_us s
  turn s (encodes audio now_us) = encode_step cfg s.encode_at audio now_us s
  turn s stops = request_stop s

  unfoldable pub run : StreamPipeline → List Turn → StreamPipeline
  run s [] = s
  run s (t ∷ ts) = run (turn s t) ts
