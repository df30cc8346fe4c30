-- ===== src/Ffmpeg/Pipeline/Accounts.antt =====
-- The steps of src/ffmpeg/StreamPipeline.cpp keep the accounts.
use stream_sight.Base.{
  ℕ, zero, suc, ◌<◌, ◌≡◌, refl, ap, Bool, true, false, ◌&&◌, if-elim, Option, none, some, List, [],
  ◌∷◌, length-append, arith,
}
use stream_sight.Ffmpeg.Pipeline.{
  StreamPipeline, PipelineConfig, DecodedFrame, AudioFrame, DemuxAt, AiAt, holding, EncodeAt,
  create, start, request_stop, no_frame,
}
use stream_sight.Ffmpeg.Pipeline.Stages.{
  take_all_audio, push_decoded, demux_read, demux_step, analyse, ai_popped, ai_step,
  prune_processed, prune_audio, play_popped, audio_rounds, encode, encode_popped, encode_step, Turn,
  demux, ai, encodes, stops, turn, run,
}
use stream_sight.Ffmpeg.Pipeline.Offers.{prune_window-Pruned}
use stream_sight.Ffmpeg.Pipeline.Kept.{Kept, run-start-Kept}
use stream_sight.Net.RingBuffer.{RingBuffer, pop, is_empty}
use stream_sight.Net.RingBuffer as Ring
use stream_sight.Net.RingBuffer.Counts.{Popped, pop-Popped}
use stream_sight.Ffmpeg.Pipeline.Balance.{
  Accounts, in_hand, untouched, take_all_audio-Accounts, push_decoded-Accounts,
  push_processed-Accounts, prune_decoded-Accounts, placed-Accounts,
}

module _ (cfg : PipelineConfig) where
  ai_popped-Accounts :
      (w : RingBuffer DecodedFrame × Option DecodedFrame) {s : StreamPipeline}
      → in_hand s.ai_at ≡ 0
      → Popped cfg.decode_ring_size s.decode_ring w
      → Accounts cfg s
      → Accounts cfg (ai_popped cfg w s)
  unfolding ai_popped Popped analyse
  ai_popped-Accounts (r, none) {s} free p a =
      if-elim (λ at. Accounts cfg (record s { ai_at = at })) s.stop AiAt.ended AiAt.at_top
        (λ on. placed-Accounts cfg AiAt.ended free refl a)
        (λ off. placed-Accounts cfg AiAt.at_top free refl a)
  ai_popped-Accounts (r, some f) {s} free p a = record {
    decode_fits = p.0;
    process_fits = a.process_fits;
    decode_peak = a.decode_peak;
    process_peak = a.process_peak;
    decoded = omega (arith, a.decoded, p.1);
    processed = omega (arith, a.processed, free);
  }

  ai_step-Accounts :
      (at : AiAt) (now_us : ℕ) {s : StreamPipeline}
      → s.ai_at ≡ at
      → Accounts cfg s
      → Accounts cfg (ai_step cfg at now_us s)
  unfolding ai_step
  ai_step-Accounts AiAt.at_top now_us {s} here a =
      if-elim (Accounts cfg) (s.stop && is_empty s.decode_ring) _ _
        (λ over. placed-Accounts cfg AiAt.ended (ap in_hand here) refl a)
        (λ on. prune_decoded-Accounts cfg now_us (ap in_hand here) a)
  ai_step-Accounts AiAt.popping now_us {s} here a =
      ai_popped-Accounts (pop no_frame s.decode_ring) (ap in_hand here)
        (pop-Popped no_frame a.decode_fits) a
  ai_step-Accounts (holding f) now_us here a = push_processed-Accounts cfg now_us f here a
  ai_step-Accounts AiAt.ended now_us here a = a

  demux_step-Accounts :
      (at : DemuxAt) (capture_us : ℕ) (audio : List AudioFrame) (picture : Option DecodedFrame)
      {s : StreamPipeline}
      → Accounts cfg s
      → Accounts cfg (demux_step cfg at capture_us audio picture s)
  unfolding demux_step demux_read
  demux_step-Accounts DemuxAt.at_top capture_us audio picture {s} a =
      untouched cfg (demux_step cfg DemuxAt.at_top capture_us audio picture s) a
  demux_step-Accounts DemuxAt.reading capture_us audio none {s} a =
      untouched cfg (record (take_all_audio cfg audio s) { stop = true; demux_at = DemuxAt.ended })
        (take_all_audio-Accounts cfg audio a)
  demux_step-Accounts DemuxAt.reading capture_us audio (some picture) {s} a =
      let f = record picture { frame_index = s.demux_idx; capture_time_us = capture_us } in
      untouched cfg
        (record (push_decoded cfg capture_us f (take_all_audio cfg audio s)) {
          demux_at = DemuxAt.at_top;
        })
        (push_decoded-Accounts cfg capture_us f (take_all_audio-Accounts cfg audio a))
  demux_step-Accounts DemuxAt.ended capture_us audio picture a = a

  prune_audio-Accounts :
      (now_us : ℕ) {s : StreamPipeline} → Accounts cfg s → Accounts cfg (prune_audio cfg now_us s)
  unfolding prune_audio
  prune_audio-Accounts now_us {s} a =
      if-elim (Accounts cfg) cfg.enable_backpressure _ s
        (λ on. untouched cfg (record s { audio_ring = _; audio_pruned = _ }) a) (λ off. a)

  play_popped-Accounts :
      (w : RingBuffer AudioFrame × Option AudioFrame) {s : StreamPipeline}
      → Accounts cfg s
      → Accounts cfg (play_popped cfg w s)
  unfolding play_popped
  play_popped-Accounts (r, none) a = a
  play_popped-Accounts (r, some f) {s} a = untouched cfg (play_popped cfg (r, some f) s) a

  audio_rounds-Accounts :
      (rounds now_us : ℕ) {s : StreamPipeline}
      → Accounts cfg s
      → Accounts cfg (audio_rounds cfg rounds now_us s)
  unfolding audio_rounds
  audio_rounds-Accounts zero now_us a = a
  audio_rounds-Accounts (suc rounds) now_us {s} a =
      if-elim (Accounts cfg) (is_empty s.audio_ring) s _ (λ quiet. a)
        (λ pending.
          audio_rounds-Accounts rounds now_us
            (play_popped-Accounts _ (prune_audio-Accounts now_us a)))

  prune_processed-Accounts :
      (now_us : ℕ) {s : StreamPipeline}
      → Accounts cfg s
      → Accounts cfg (prune_processed cfg now_us s)
  unfolding prune_processed
  prune_processed-Accounts now_us a =
      let p = prune_window-Pruned cfg now_us a.process_fits in
      record {
        decode_fits = a.decode_fits;
        process_fits = p.fits;
        decode_peak = a.decode_peak;
        process_peak = a.process_peak;
        decoded = a.decoded;
        processed = omega (arith, p.balance, a.processed);
      }

  encode_popped-Accounts :
      (w : RingBuffer DecodedFrame × Option DecodedFrame) {s : StreamPipeline}
      → Popped cfg.process_ring_size s.process_ring w
      → Accounts cfg s
      → Accounts cfg (encode_popped cfg w s)
  unfolding encode_popped Popped encode
  encode_popped-Accounts (r, none) {s} p a = untouched cfg (encode_popped cfg (r, none) s) a
  encode_popped-Accounts (r, some f) {s} p a = record {
    decode_fits = a.decode_fits;
    process_fits = p.0;
    decode_peak = a.decode_peak;
    process_peak = a.process_peak;
    decoded = a.decoded;
    processed = omega (arith, a.processed, p.1, length-append s.encoded ((_, f) ∷ []));
  }

  encode_step-Accounts :
      (at : EncodeAt) (audio : Bool) (now_us : ℕ) {s : StreamPipeline}
      → Accounts cfg s
      → Accounts cfg (encode_step cfg at audio now_us s)
  unfolding encode_step
  encode_step-Accounts EncodeAt.at_top audio now_us {s} a =
      let heard =
        if-elim (Accounts cfg) audio _ s
          (λ on. audio_rounds-Accounts s.audio_ring.num_datas now_us a) (λ off. a) in
      if-elim (Accounts cfg) (s.stop && (is_empty s.process_ring && is_empty s.audio_ring)) _ _
        (λ over. untouched cfg (record s { encode_at = EncodeAt.ended }) a)
        (λ on.
          untouched cfg (record (prune_processed cfg now_us _) { encode_at = EncodeAt.popping })
            (prune_processed-Accounts now_us heard))
  encode_step-Accounts EncodeAt.popping audio now_us {s} a =
      encode_popped-Accounts (pop no_frame s.process_ring) (pop-Popped no_frame a.process_fits) a
  encode_step-Accounts EncodeAt.ended audio now_us a = a

  stop-Accounts : {s : StreamPipeline} → Accounts cfg s → Accounts cfg (request_stop s)
  unfolding request_stop
  stop-Accounts {s} a =
      if-elim (Accounts cfg) s.running _ s
        (λ on. untouched cfg (record s { stop = true; running = false }) a) (λ off. a)

  turn-Accounts : (t : Turn) {s : StreamPipeline} → Accounts cfg s → Accounts cfg (turn cfg s t)
  unfolding turn
  turn-Accounts (demux capture_us audio picture) {s} a =
      demux_step-Accounts s.demux_at capture_us audio picture a
  turn-Accounts (ai now_us) {s} a = ai_step-Accounts s.ai_at now_us refl a
  turn-Accounts (encodes audio now_us) {s} a = encode_step-Accounts s.encode_at audio now_us a
  turn-Accounts stops a = stop-Accounts a

  run-Accounts :
      (ts : List Turn) {s : StreamPipeline} → Accounts cfg s → Accounts cfg (run cfg s ts)
  unfolding run
  run-Accounts [] a = a
  run-Accounts (t ∷ ts) a = run-Accounts ts (turn-Accounts t a)

  fresh-Accounts :
      0 < cfg.decode_ring_size → 0 < cfg.process_ring_size → Accounts cfg (start cfg (create cfg))
  unfolding start create Ring.create
  fresh-Accounts d p = record {
    decode_fits = record { sized = refl; has_room = d; within = omega arith };
    process_fits = record { sized = refl; has_room = p; within = omega arith };
    decode_peak = omega arith;
    process_peak = omega arith;
    decoded = refl;
    processed = refl;
  }

  -- After Start, with the steps of the three stages and of Stop in any order, each call of a ring at once, and
  -- with any frames, times and policy: neither ring nor its recorded peak is over its size. The number of
  -- decoded frames is that of the frames in the first ring, dropped, refused or pruned there, and taken
  -- by the second stage; the number of taken frames is that of the frames in hand, in the second ring,
  -- dropped, refused or pruned there, and given to the encoder. And for any test of frames, no more of
  -- those in the rings, in hand and with the encoder pass it than of those that the first stage made, which
  -- `frames_decoded` counts: so no frame is made up, changed or passed on twice. The sizes of both
  -- rings are positive.
  pub run-start-Accounts :
      (q : DecodedFrame → Bool) (ts : List Turn)
      → 0 < cfg.decode_ring_size
      → 0 < cfg.process_ring_size
      → Accounts cfg (run cfg (start cfg (create cfg)) ts)
        × Kept q (run cfg (start cfg (create cfg)) ts)
  run-start-Accounts q ts d p = (run-Accounts ts (fresh-Accounts d p), run-start-Kept q cfg ts d p)
