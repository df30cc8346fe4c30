-- ===== src/Ffmpeg/Pipeline/View.antt =====
-- What EncodeOutputLoop of src/ffmpeg/StreamPipeline.cpp leaves as it is.
use stream_sight.Base.{ℕ, zero, suc, ◌≡◌, refl, ◌∙◌, Bool, ◌&&◌, if-elim, Option, none, some}
use stream_sight.Ffmpeg.Pipeline.{
  StreamPipeline, PipelineConfig, DecodedFrame, AudioFrame, DemuxAt, AiAt, EncodeAt, no_frame,
}
use stream_sight.Ffmpeg.Pipeline.Stages.{
  prune_processed, prune_audio, play_popped, audio_rounds, encode, encode_popped, encode_step,
}
use stream_sight.Net.RingBuffer.{RingBuffer, pop, is_empty}

-- What the other stages leave as it is.
abbrev pub view : StreamPipeline → Bool × DemuxAt × AiAt × RingBuffer DecodedFrame
view s = (s.stop, s.demux_at, s.ai_at, s.decode_ring)

module _ (cfg : PipelineConfig) where
  prune_audio_same : (now_us : ℕ) (s : StreamPipeline) → view (prune_audio cfg now_us s) ≡ view s
  unfolding prune_audio
  prune_audio_same now_us s =
      if-elim (λ t. view t ≡ view s) cfg.enable_backpressure _ s (λ on. refl) (λ off. refl)

  play_popped_same :
      (w : RingBuffer AudioFrame × Option AudioFrame) (s : StreamPipeline)
      → view (play_popped cfg w s) ≡ view s
  unfolding play_popped
  play_popped_same (r, none) s = refl
  play_popped_same (r, some f) s = refl

  audio_rounds_same :
      (rounds now_us : ℕ) (s : StreamPipeline) → view (audio_rounds cfg rounds now_us s) ≡ view s
  unfolding audio_rounds
  audio_rounds_same zero now_us s = refl
  audio_rounds_same (suc rounds) now_us s =
      if-elim (λ t. view t ≡ view s) (is_empty s.audio_ring) s _ (λ quiet. refl)
        (λ pending.
          audio_rounds_same rounds now_us _ ∙ play_popped_same _ _ ∙ prune_audio_same now_us s)

  encode_popped_same :
      (w : RingBuffer DecodedFrame × Option DecodedFrame) (s : StreamPipeline)
      → view (encode_popped cfg w s) ≡ view s
  unfolding encode_popped encode
  encode_popped_same (r, none) s = refl
  encode_popped_same (r, some f) s = refl

  pub encode_step_same :
      (at : EncodeAt) (audio : Bool) (now_us : ℕ) (s : StreamPipeline)
      → view (encode_step cfg at audio now_us s) ≡ view s
  unfolding encode_step prune_processed
  encode_step_same EncodeAt.at_top audio now_us s =
      if-elim (λ t. view t ≡ view s) (s.stop && (is_empty s.process_ring && is_empty s.audio_ring))
        _ _ (λ over. refl)
        (λ on.
          if-elim (λ t. view t ≡ view s) audio _ s
            (λ heard. audio_rounds_same s.audio_ring.num_datas now_us s) (λ unheard. refl))
  encode_step_same EncodeAt.popping audio now_us s =
      encode_popped_same (pop no_frame s.process_ring) s
  encode_step_same EncodeAt.ended audio now_us s = refl
