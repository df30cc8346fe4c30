-- ===== src/Ffmpeg/Pipeline/Kept.antt =====
-- The steps of src/ffmpeg/StreamPipeline.cpp make up no frame and give none away twice.
use stream_sight.Base.{
  ℕ, zero, suc, ◌+◌, ◌≤◌, ◌<◌, ◌≡◌, refl, ap, Bool, true, false, ◌&&◌, if-elim, Option, none, some,
  List, [], ◌∷◌, length, length-append, arith,
}
use stream_sight.Ffmpeg.Pipeline.{
  StreamPipeline, PipelineConfig, DecodedFrame, AudioFrame, DemuxAt, AiAt, holding, EncodeAt, Pts,
  no_frame, create, start, request_stop,
}
use stream_sight.Ffmpeg.Pipeline.Frames.{
  one, one_of, count, count-append_one, in_ring, pop-in_ring, offer-Holds, prune_window-Holds,
}
use stream_sight.Ffmpeg.Pipeline.Stages.{
  take_audio, take_all_audio, push_decoded, push_processed, prune_decoded, demux_read, demux_step,
  analyse, ai_popped, ai_step, prune_processed, prune_audio, play_popped, audio_rounds, encode,
  encode_popped, encode_step, Turn, demux, ai, encodes, stops, turn, run,
}
use stream_sight.Net.RingBuffer.{RingBuffer, pop, is_empty}
use stream_sight.Net.RingBuffer as Ring
use stream_sight.Net.RingBuffer.Inv.{IsValid}
use stream_sight.Net.RingBuffer.Refine.{contents, entries}
use stream_sight.Net.RingBuffer.Run.{create-IsValid}

module _ (q : DecodedFrame → Bool) where
  -- Whether the frame in hand passes the test.
  abbrev pub hand : AiAt → ℕ
  hand (holding f) = one q f
  hand _ = 0

  -- The frames in the rings, in hand and with the encoder that pass the test are no more than those that the
  -- first stage made, which `frames_decoded` counts.
  pub record Kept (s : StreamPipeline) : Type 0 where
    pub decode_valid : IsValid s.decode_ring
    pub process_valid : IsValid s.process_ring
    pub counted : s.frames_decoded ≡ length s.read_frames
    pub bound :
        in_ring no_frame q s.decode_ring
          + hand s.ai_at
          + in_ring no_frame q s.process_ring
          + count (λ (e : Pts × DecodedFrame). q e.1) s.encoded
        ≤ count q s.read_frames

  -- `t` differs from `s` in nothing that this speaks of.
  other :
      {s : StreamPipeline} (t : StreamPipeline)
      → Kept s
      → Kept (record t {
        ai_at = s.ai_at;
        decode_ring = s.decode_ring;
        process_ring = s.process_ring;
        frames_decoded = s.frames_decoded;
        read_frames = s.read_frames;
        encoded = s.encoded;
      })
  other t k = record {
    decode_valid = k.decode_valid;
    process_valid = k.process_valid;
    counted = k.counted;
    bound = k.bound;
  }

  module _ (cfg : PipelineConfig) where
    take_all_audio-Kept :
        (fs : List AudioFrame) {s : StreamPipeline} → Kept s → Kept (take_all_audio cfg fs s)
    unfolding take_all_audio take_audio
    take_all_audio-Kept [] k = k
    take_all_audio-Kept (f ∷ fs) {s} k = take_all_audio-Kept fs (other (take_audio cfg f s) k)

    push_decoded-Kept :
        (capture_us : ℕ) (f : DecodedFrame) {s : StreamPipeline}
        → Kept s
        → Kept (push_decoded cfg capture_us f s)
    unfolding push_decoded
    push_decoded-Kept capture_us f {s} k =
        let p =
          offer-Holds no_frame q (λ (x : DecodedFrame). x.capture_time_us) cfg capture_us f
            k.decode_valid in
        record {
          decode_valid = p.valid;
          process_valid = k.process_valid;
          counted = omega (arith, k.counted, length-append s.read_frames (f ∷ []));
          bound = omega (arith, k.bound, p.held, count-append_one q s.read_frames f);
        }

    push_processed-Kept :
        (now_us : ℕ) (f : DecodedFrame) {s : StreamPipeline}
        → s.ai_at ≡ holding f
        → Kept s
        → Kept (record (push_processed cfg now_us f s) { ai_at = AiAt.at_top })
    unfolding push_processed
    push_processed-Kept now_us f {s} here k =
        let p =
          offer-Holds no_frame q (λ (x : DecodedFrame). x.capture_time_us) cfg now_us f
            k.process_valid in
        record {
          decode_valid = k.decode_valid;
          process_valid = p.valid;
          counted = k.counted;
          bound = omega (arith, k.bound, p.held, ap hand here);
        }

    -- The second stage lets go of its frame, if any.
    placed-Kept :
        (at : AiAt) {s : StreamPipeline} → hand at ≡ 0 → Kept s → Kept (record s { ai_at = at })
    placed-Kept at {s} free k = record {
      decode_valid = k.decode_valid;
      process_valid = k.process_valid;
      counted = k.counted;
      bound = omega (arith, k.bound, free);
    }

    prune_decoded-Kept :
        (now_us : ℕ) {s : StreamPipeline} → Kept s → Kept (prune_decoded cfg now_us s)
    unfolding prune_decoded
    prune_decoded-Kept now_us k =
        let p = prune_window-Holds q cfg now_us k.decode_valid in
        record {
          decode_valid = p.valid;
          process_valid = k.process_valid;
          counted = k.counted;
          bound = omega (arith, k.bound, p.held);
        }

    prune_processed-Kept :
        (now_us : ℕ) {s : StreamPipeline} → Kept s → Kept (prune_processed cfg now_us s)
    unfolding prune_processed
    prune_processed-Kept now_us k =
        let p = prune_window-Holds q cfg now_us k.process_valid in
        record {
          decode_valid = k.decode_valid;
          process_valid = p.valid;
          counted = k.counted;
          bound = omega (arith, k.bound, p.held);
        }

    abbrev Popped : RingBuffer DecodedFrame → RingBuffer DecodedFrame × Option DecodedFrame → Type 0
    Popped r w = IsValid w.0 × (in_ring no_frame q w.0 + one_of q w.1 ≡ in_ring no_frame q r)

    ai_popped-Kept :
        (w : RingBuffer DecodedFrame × Option DecodedFrame) {s : StreamPipeline}
        → s.ai_at ≡ AiAt.popping
        → Popped s.decode_ring w
        → Kept s
        → Kept (ai_popped cfg w s)
    unfolding ai_popped analyse
    ai_popped-Kept (r, none) {s} here p k =
        if-elim (λ at. Kept (record s { ai_at = at })) s.stop AiAt.ended AiAt.at_top
          (λ on. placed-Kept AiAt.ended refl k) (λ off. placed-Kept AiAt.at_top refl k)
    ai_popped-Kept (r, some f) {s} here p k = record {
      decode_valid = p.0;
      process_valid = k.process_valid;
      counted = k.counted;
      bound = omega (arith, k.bound, p.1, ap hand here);
    }

    ai_step-Kept :
        (at : AiAt) (now_us : ℕ) {s : StreamPipeline}
        → s.ai_at ≡ at
        → Kept s
        → Kept (ai_step cfg at now_us s)
    unfolding ai_step
    ai_step-Kept AiAt.at_top now_us {s} here k =
        if-elim Kept (s.stop && is_empty s.decode_ring) _ _ (λ over. placed-Kept AiAt.ended refl k)
          (λ on. placed-Kept AiAt.popping refl (prune_decoded-Kept now_us k))
    ai_step-Kept AiAt.popping now_us {s} here k =
        ai_popped-Kept (pop no_frame s.decode_ring) here (pop-in_ring no_frame q k.decode_valid) k
    ai_step-Kept (holding f) now_us here k = push_processed-Kept now_us f here k
    ai_step-Kept AiAt.ended now_us here k = k

    demux_step-Kept :
        (at : DemuxAt) (capture_us : ℕ) (audio : List AudioFrame) (picture : Option DecodedFrame)
        {s : StreamPipeline}
        → Kept s
        → Kept (demux_step cfg at capture_us audio picture s)
    unfolding demux_step demux_read
    demux_step-Kept DemuxAt.at_top capture_us audio picture {s} k =
        other (demux_step cfg DemuxAt.at_top capture_us audio picture s) k
    demux_step-Kept DemuxAt.reading capture_us audio none {s} k =
        other (record (take_all_audio cfg audio s) { stop = true; demux_at = DemuxAt.ended })
          (take_all_audio-Kept audio k)
    demux_step-Kept DemuxAt.reading capture_us audio (some picture) {s} k =
        let f = record picture { frame_index = s.demux_idx; capture_time_us = capture_us } in
        other
          (record (push_decoded cfg capture_us f (take_all_audio cfg audio s)) {
            demux_at = DemuxAt.at_top;
          })
          (push_decoded-Kept capture_us f (take_all_audio-Kept audio k))
    demux_step-Kept DemuxAt.ended capture_us audio picture k = k

    play_popped-Kept :
        (w : RingBuffer AudioFrame × Option AudioFrame) {s : StreamPipeline}
        → Kept s
        → Kept (play_popped cfg w s)
    unfolding play_popped
    play_popped-Kept (r, none) k = k
    play_popped-Kept (r, some f) {s} k = other (play_popped cfg (r, some f) s) k

    audio_rounds-Kept :
        (rounds now_us : ℕ) {s : StreamPipeline} → Kept s → Kept (audio_rounds cfg rounds now_us s)
    unfolding audio_rounds prune_audio
    audio_rounds-Kept zero now_us k = k
    audio_rounds-Kept (suc rounds) now_us {s} k =
        let pruned =
          if-elim Kept cfg.enable_backpressure _ s
            (λ on. other (record s { audio_ring = _; audio_pruned = _ }) k) (λ off. k) in
        if-elim Kept (is_empty s.audio_ring) s _ (λ quiet. k)
          (λ pending. audio_rounds-Kept rounds now_us (play_popped-Kept _ pruned))

    encode_popped-Kept :
        (w : RingBuffer DecodedFrame × Option DecodedFrame) {s : StreamPipeline}
        → Popped s.process_ring w
        → Kept s
        → Kept (encode_popped cfg w s)
    unfolding encode_popped encode
    encode_popped-Kept (r, none) {s} p k = other (encode_popped cfg (r, none) s) k
    encode_popped-Kept (r, some f) {s} p k = record {
      decode_valid = k.decode_valid;
      process_valid = p.0;
      counted = k.counted;
      bound = omega (
        arith,
        k.bound,
        p.1,
        count-append_one (λ (e : Pts × DecodedFrame). q e.1) s.encoded (_, f),
      );
    }

    encode_step-Kept :
        (at : EncodeAt) (audio : Bool) (now_us : ℕ) {s : StreamPipeline}
        → Kept s
        → Kept (encode_step cfg at audio now_us s)
    unfolding encode_step
    encode_step-Kept EncodeAt.at_top audio now_us {s} k =
        let heard =
          if-elim Kept audio _ s (λ on. audio_rounds-Kept s.audio_ring.num_datas now_us k)
            (λ off. k) in
        if-elim Kept (s.stop && (is_empty s.process_ring && is_empty s.audio_ring)) _ _
          (λ over. other (record s { encode_at = EncodeAt.ended }) k)
          (λ on.
            other (record (prune_processed cfg now_us _) { encode_at = EncodeAt.popping })
              (prune_processed-Kept now_us heard))
    encode_step-Kept EncodeAt.popping audio now_us {s} k =
        encode_popped-Kept (pop no_frame s.process_ring) (pop-in_ring no_frame q k.process_valid) k
    encode_step-Kept EncodeAt.ended audio now_us k = k

    turn-Kept : (t : Turn) {s : StreamPipeline} → Kept s → Kept (turn cfg s t)
    unfolding turn request_stop
    turn-Kept (demux capture_us audio picture) {s} k =
        demux_step-Kept s.demux_at capture_us audio picture k
    turn-Kept (ai now_us) {s} k = ai_step-Kept s.ai_at now_us refl k
    turn-Kept (encodes audio now_us) {s} k = encode_step-Kept s.encode_at audio now_us k
    turn-Kept stops {s} k =
        if-elim Kept s.running _ s (λ on. other (record s { stop = true; running = false }) k)
          (λ off. k)

    run-Kept : (ts : List Turn) {s : StreamPipeline} → Kept s → Kept (run cfg s ts)
    unfolding run
    run-Kept [] k = k
    run-Kept (t ∷ ts) k = run-Kept ts (turn-Kept t k)

    fresh-Kept :
        0 < cfg.decode_ring_size → 0 < cfg.process_ring_size → Kept (start cfg (create cfg))
    unfolding start create Ring.create count contents entries
    fresh-Kept d p =
        let age = λ (x : DecodedFrame). x.capture_time_us in
        record {
          decode_valid = create-IsValid no_frame age cfg.decode_ring_size d;
          process_valid = create-IsValid no_frame age cfg.process_ring_size p;
          counted = refl;
          bound = omega arith;
        }

    pub run-start-Kept :
        (ts : List Turn)
        → 0 < cfg.decode_ring_size
        → 0 < cfg.process_ring_size
        → Kept (run cfg (start cfg (create cfg)) ts)
    run-start-Kept ts d p = run-Kept ts (fresh-Kept d p)
