-- ===== src/Ffmpeg/Pipeline/Tests.antt =====
-- The theorems on the pipeline at a run with a full first ring, a drop, a prune and a Stop.
use stream_sight.Base.{
  ℕ, ◌*◌, ◌≤◌, ◌≡◌, ◌≢◌, refl, Bool, true, false, none, some, List, [], ◌∷◌, leb, ltb, arith, ap,
  false≢true, ◌+◌,
}
use stream_sight.Ffmpeg.Pipeline.{
  StreamPipeline, PipelineConfig, FrameDropPolicy, DecodedFrame, DemuxAt, AiAt, no_frame, create,
  start,
}
use stream_sight.Ffmpeg.Pipeline.Stages.{
  Turn, demux, ai, encodes, stops, run, turn, demux_step, demux_read, take_all_audio, push_decoded,
  offer, ai_step, prune_decoded, prune_window, ai_popped, analyse,
}
use stream_sight.Net.RingBuffer.{
  push_or_drop, store, remove, oldest, advance, is_empty, prune_stale, prune_loop, pop,
}
use stream_sight.Net.RingBuffer as Ring
use stream_sight.Ffmpeg.Pipeline.Accounts.{run-start-Accounts}
use stream_sight.Ffmpeg.Pipeline.Balance.{Accounts}
use stream_sight.Ffmpeg.Pipeline.Kept.{Kept}
use stream_sight.Ffmpeg.Pipeline.Drain.{ai_turns, run-later_lem}

-- A ring is over its ratio from three quarters on.
abbrev policy : FrameDropPolicy
policy = record {
  max_frame_age_us = 100;
  prefer_keep_keyframe = true;
  starts_drop = λ size capacity. leb (3 * capacity) (4 * size);
  is_over = λ size capacity. ltb (3 * capacity) (4 * size);
  is_far_over = λ size capacity. ltb (18 * capacity) (20 * size);
}

abbrev config : PipelineConfig
config = record {
  fps = 25;
  pace_fps = 0;
  decode_ring_size = 2;
  process_ring_size = 2;
  audio_ring_size = 1;
  drop_policy = policy;
  enable_backpressure = true;
  has_frame_cb = true;
}

abbrev key_frame : DecodedFrame
key_frame = record no_frame { is_keyframe = true }

abbrev reads : ℕ → DecodedFrame → List Turn → List Turn
reads t f ts = demux t [] none ∷ demux t [] (some f) ∷ ts

-- Two frames fill the ring, the third is refused, the fourth pushes out the first, which is stale; the window
-- lets the second go when the next stage takes the last one; then the source ends.
abbrev script : List Turn
script = reads 1000 key_frame (
    reads 1010 no_frame (
      reads 1020 no_frame
        (reads 1101 no_frame (ai 1111 ∷ ai 1111 ∷ demux 1120 [] none ∷ demux 1120 [] none ∷ []))))

abbrev before : StreamPipeline
before = run config (start config (create config)) script

before_counts :
    (before.frames_decoded ≡ 4)
    × (before.refused_demux ≡ 1)
    × (before.dropped_demux ≡ 1)
    × (before.pruned_demux ≡ 1)
    × (before.taken ≡ 1)
unfolding run turn start create Ring.create demux_step demux_read take_all_audio push_decoded offer
    push_or_drop store remove oldest advance is_empty ai_step prune_decoded prune_window prune_stale
    prune_loop ai_popped pop analyse
before_counts = (refl, refl, refl, refl, refl)

before_stop : before.stop ≡ true
unfolding run turn start create Ring.create demux_step demux_read take_all_audio push_decoded offer
    push_or_drop store remove oldest advance is_empty ai_step prune_decoded prune_window prune_stale
    prune_loop ai_popped pop analyse
before_stop = refl

before_closed : before.demux_at ≡ DemuxAt.ended
unfolding run turn start create Ring.create demux_step demux_read take_all_audio push_decoded offer
    push_or_drop store remove oldest advance is_empty ai_step prune_decoded prune_window prune_stale
    prune_loop ai_popped pop analyse
before_closed = refl

before_alive : before.ai_at ≢ AiAt.ended
unfolding run turn start create Ring.create demux_step demux_read take_all_audio push_decoded offer
    push_or_drop store remove oldest advance is_empty ai_step prune_decoded prune_window prune_stale
    prune_loop ai_popped pop analyse
before_alive h = false≢true (ap is_over_there h)
  where
    is_over_there : AiAt → Bool
    is_over_there AiAt.ended = true
    is_over_there at = false

run-start-Accounts_example :
    Accounts config (run config (start config (create config)) script)
    × Kept (λ f. f.is_keyframe) (run config (start config (create config)) script)
run-start-Accounts_example =
    run-start-Accounts config (λ f. f.is_keyframe) script (omega arith) (omega arith)

before-Accounts : Accounts config before
before-Accounts =
    (run-start-Accounts config (λ f. f.is_keyframe) script (omega arith) (omega arith)).0

-- The second stage pushes its frame, and finds nothing more; the last one works and Stop comes in between.
abbrev later : List Turn
later =
    ai 1130
    ∷ encodes false 1130
    ∷ ai 1131
    ∷ stops
    ∷ ai 1132
    ∷ encodes false 1133
    ∷ ai 1134
    ∷ ai 1135
    ∷ ai 1136
    ∷ ai 1137
    ∷ ai 1138
    ∷ ai 1139
    ∷ []

enough_later : 3 * config.decode_ring_size + 3 ≤ ai_turns later
unfolding ai_turns
enough_later = omega arith

run-later_lem_example :
    ((run config before later).ai_at ≡ AiAt.ended)
    × ((run config before later).decode_ring.num_datas ≡ 0)
run-later_lem_example =
    run-later_lem config before later before-Accounts before_stop before_closed before_alive
      enough_later
