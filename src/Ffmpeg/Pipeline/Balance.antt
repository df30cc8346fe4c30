-- ===== src/Ffmpeg/Pipeline/Balance.antt =====
-- The counters of src/ffmpeg/StreamPipeline.cpp against the rings and what the encoder was given, and what the
-- pushes and the windows make of them.
use stream_sight.Base.{ℕ, ◌+◌, ◌≤◌, ◌≡◌, ap, List, [], ◌∷◌, length, arith}
use stream_sight.Ffmpeg.Pipeline.{
  StreamPipeline, PipelineConfig, DecodedFrame, AudioFrame, AiAt, holding, peak, no_frame,
}
use stream_sight.Ffmpeg.Pipeline.Stages.{
  take_audio, take_all_audio, push_decoded, push_processed, prune_decoded,
}
use stream_sight.Ffmpeg.Pipeline.Offers.{offer-Pushed, prune_window-Pruned}
use stream_sight.Net.RingBuffer.Counts.{Fits}

-- The frame that the second stage has popped and not yet pushed.
abbrev pub in_hand : AiAt → ℕ
in_hand (holding f) = 1
in_hand _ = 0

-- The rings and their peaks are within their sizes. A decoded frame is in the first ring, was dropped
-- from it, refused by it or pruned, or was taken by the second stage; a taken frame is in hand, in the
-- second ring, was dropped, refused or pruned there, or went to the encoder.
pub record Accounts (cfg : PipelineConfig) (s : StreamPipeline) : Type 0 where
  pub decode_fits : Fits cfg.decode_ring_size s.decode_ring
  pub process_fits : Fits cfg.process_ring_size s.process_ring
  pub decode_peak : s.max_decode_ring_fill ≤ cfg.decode_ring_size
  pub process_peak : s.max_process_ring_fill ≤ cfg.process_ring_size
  pub decoded :
      s.frames_decoded
      ≡ s.decode_ring.num_datas + s.dropped_demux + s.refused_demux + s.pruned_demux + s.taken
  pub processed :
      s.taken
      ≡ in_hand s.ai_at
        + s.process_ring.num_datas
        + s.dropped_ai
        + s.refused_ai
        + s.pruned_ai
        + length s.encoded

peak_le : (fill prev_max c : ℕ) → fill ≤ c → prev_max ≤ c → peak fill prev_max ≤ c
peak_le fill prev_max c h k = ground arith

module _ (cfg : PipelineConfig) where
  -- `t` differs from `s` in nothing that the accounts speak of.
  pub untouched :
      {s : StreamPipeline} (t : StreamPipeline)
      → Accounts cfg s
      → Accounts cfg (record t {
        ai_at = s.ai_at;
        decode_ring = s.decode_ring;
        process_ring = s.process_ring;
        frames_decoded = s.frames_decoded;
        dropped_demux = s.dropped_demux;
        dropped_ai = s.dropped_ai;
        pruned_demux = s.pruned_demux;
        pruned_ai = s.pruned_ai;
        max_decode_ring_fill = s.max_decode_ring_fill;
        max_process_ring_fill = s.max_process_ring_fill;
        refused_demux = s.refused_demux;
        refused_ai = s.refused_ai;
        taken = s.taken;
        encoded = s.encoded;
      })
  untouched t a = record {
    decode_fits = a.decode_fits;
    process_fits = a.process_fits;
    decode_peak = a.decode_peak;
    process_peak = a.process_peak;
    decoded = a.decoded;
    processed = a.processed;
  }

  take_audio-Accounts :
      (f : AudioFrame) {s : StreamPipeline} → Accounts cfg s → Accounts cfg (take_audio cfg f s)
  unfolding take_audio
  take_audio-Accounts f {s} a = untouched (take_audio cfg f s) a

  pub take_all_audio-Accounts :
      (fs : List AudioFrame) {s : StreamPipeline}
      → Accounts cfg s
      → Accounts cfg (take_all_audio cfg fs s)
  unfolding take_all_audio
  take_all_audio-Accounts [] a = a
  take_all_audio-Accounts (f ∷ fs) a = take_all_audio-Accounts fs (take_audio-Accounts f a)

  pub push_decoded-Accounts :
      (capture_us : ℕ) (f : DecodedFrame) {s : StreamPipeline}
      → Accounts cfg s
      → Accounts cfg (push_decoded cfg capture_us f s)
  unfolding push_decoded
  push_decoded-Accounts capture_us f {s} a =
      let p =
        offer-Pushed no_frame (λ (x : DecodedFrame). x.capture_time_us) cfg capture_us f
          a.decode_fits in
      record {
        decode_fits = p.fits;
        process_fits = a.process_fits;
        decode_peak =
            peak_le _ s.max_decode_ring_fill cfg.decode_ring_size p.fits.within a.decode_peak;
        process_peak = a.process_peak;
        decoded = omega (arith, p.balance, a.decoded);
        processed = a.processed;
      }

  pub push_processed-Accounts :
      (now_us : ℕ) (f : DecodedFrame) {s : StreamPipeline}
      → s.ai_at ≡ holding f
      → Accounts cfg s
      → Accounts cfg (record (push_processed cfg now_us f s) { ai_at = AiAt.at_top })
  unfolding push_processed
  push_processed-Accounts now_us f {s} here a =
      let p =
        offer-Pushed no_frame (λ (x : DecodedFrame). x.capture_time_us) cfg now_us f
          a.process_fits in
      record {
        decode_fits = a.decode_fits;
        process_fits = p.fits;
        decode_peak = a.decode_peak;
        process_peak =
            peak_le _ s.max_process_ring_fill cfg.process_ring_size p.fits.within a.process_peak;
        decoded = a.decoded;
        processed = omega (arith, p.balance, a.processed, ap in_hand here);
      }

  pub prune_decoded-Accounts :
      (now_us : ℕ) {s : StreamPipeline}
      → in_hand s.ai_at ≡ 0
      → Accounts cfg s
      → Accounts cfg (record (prune_decoded cfg now_us s) { ai_at = AiAt.popping })
  unfolding prune_decoded
  prune_decoded-Accounts now_us {s} free a =
      let p = prune_window-Pruned cfg now_us a.decode_fits in
      record {
        decode_fits = p.fits;
        process_fits = a.process_fits;
        decode_peak = a.decode_peak;
        process_peak = a.process_peak;
        decoded = omega (arith, p.balance, a.decoded);
        processed = omega (arith, a.processed, free);
      }

  -- Between its frames the second stage goes from place to place.
  pub placed-Accounts :
      (at : AiAt) {s : StreamPipeline}
      → in_hand s.ai_at ≡ 0
      → in_hand at ≡ 0
      → Accounts cfg s
      → Accounts cfg (record s { ai_at = at })
  placed-Accounts at {s} free still a = record {
    decode_fits = a.decode_fits;
    process_fits = a.process_fits;
    decode_peak = a.decode_peak;
    process_peak = a.process_peak;
    decoded = a.decoded;
    processed = omega (arith, a.processed, free, still);
  }
