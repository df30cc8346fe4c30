-- ===== src/Ffmpeg/Pipeline/Drain.antt =====
-- How AIProcessLoop of src/ffmpeg/StreamPipeline.cpp ends after the demuxer.
use stream_sight.Base.{
  ℕ, ◌+◌, ◌*◌, ◌-◌, ◌≤◌, ◌≡◌, ◌≢◌, refl, sym, subst, Bool, true, false, false≢true, ◌&&◌, if-elim,
  if◌then◌else◌, Option, none, some, List, [], ◌∷◌, ==→eq, arith,
}
use stream_sight.Ffmpeg.Pipeline.{
  StreamPipeline, PipelineConfig, DecodedFrame, DemuxAt, AiAt, holding, request_stop, no_frame,
}
use stream_sight.Ffmpeg.Pipeline.Stages.{
  demux_step, push_processed, prune_decoded, analyse, ai_popped, ai_step, Turn, demux, ai, encodes,
  stops, turn, run,
}
use stream_sight.Ffmpeg.Pipeline.Offers.{prune_window-Pruned}
use stream_sight.Ffmpeg.Pipeline.Balance.{Accounts}
use stream_sight.Ffmpeg.Pipeline.View.{view, encode_step_same}
use stream_sight.Net.RingBuffer.{RingBuffer, pop, is_empty}
use stream_sight.Net.RingBuffer.Counts.{Fits, Popped, pop-Popped}

-- The steps that the second stage needs at most, for the frames in its ring.
abbrev work : AiAt → ℕ → ℕ
work AiAt.at_top n = 3 * n + 2
work AiAt.popping n = 3 * n + 1
work (holding f) n = 3 * n + 3
work AiAt.ended n = 0

-- A stage that has ended has left nothing.
abbrev Clean : AiAt → ℕ → Type 0
Clean AiAt.ended n = n ≡ 0
Clean at n = n ≡ n

record Draining (c left : ℕ) (v : Bool × DemuxAt × AiAt × RingBuffer DecodedFrame) : Type 0 where
  stopped : v.0 ≡ true
  closed : v.1 ≡ DemuxAt.ended
  fits : Fits c v.3
  budget : work v.2 v.3.num_datas ≤ left
  clean : Clean v.2 v.3.num_datas

abbrev one_ai : Turn → ℕ
one_ai (ai now_us) = 1
one_ai _ = 0

unfoldable pub ai_turns : List Turn → ℕ
ai_turns [] = 0
ai_turns (t ∷ ts) = one_ai t + ai_turns ts

true→eq : (b c : Bool) → (b && c) ≡ true → c ≡ true
true→eq true c h = h
true→eq false c h = elim (false≢true h) [ ]

no_less :
    (c left : ℕ) (v : Bool × DemuxAt × AiAt × RingBuffer DecodedFrame)
    → Draining c left v
    → Draining c (left - 0) v
no_less c left v d = subst (λ k. Draining c k v) (omega arith) d

module _ (cfg : PipelineConfig) where
  module _ {c left : ℕ} where
    ai_top-Draining :
        (now_us : ℕ) (s : StreamPipeline)
        → s.ai_at ≡ AiAt.at_top
        → Draining c left (view s)
        → Draining c (left - 1) (view (ai_step cfg AiAt.at_top now_us s))
    unfolding ai_step prune_decoded is_empty
    ai_top-Draining now_us s here d =
        let n = s.decode_ring.num_datas in
        let P : StreamPipeline → Type 0 = λ t. Draining c (left - 1) (view t) in
        let p = prune_window-Pruned cfg now_us d.fits in
        let most = subst (λ at. work at n ≤ left) here d.budget in
        if-elim P (s.stop && is_empty s.decode_ring) _ _
          (λ over. record {
            stopped = d.stopped;
            closed = d.closed;
            fits = d.fits;
            budget = omega arith;
            clean = ==→eq n 0 (true→eq s.stop _ over);
          })
          (λ on. record {
            stopped = d.stopped;
            closed = d.closed;
            fits = p.fits;
            budget = omega (arith, p.balance, most);
            clean = refl;
          })

    ai_popped-Draining :
        (w : RingBuffer DecodedFrame × Option DecodedFrame) (s : StreamPipeline)
        → s.ai_at ≡ AiAt.popping
        → Popped c s.decode_ring w
        → Draining c left (view s)
        → Draining c (left - 1) (view (ai_popped cfg w s))
    unfolding ai_popped Popped analyse
    ai_popped-Draining (r, none) s here p d =
        let at : Bool → AiAt = λ b. if b then AiAt.ended else AiAt.at_top in
        subst (λ b. Draining c (left - 1) (s.stop, s.demux_at, at b, s.decode_ring)) (sym d.stopped)
          (record {
            stopped = d.stopped;
            closed = d.closed;
            fits = d.fits;
            budget = omega arith;
            clean = p;
          })
    ai_popped-Draining (r, some f) s here p d = record {
      stopped = d.stopped;
      closed = d.closed;
      fits = p.0;
      budget =
          omega (arith, p.1, subst (λ at. work at s.decode_ring.num_datas ≤ left) here d.budget);
      clean = refl;
    }

    -- A step of the second stage uses up one of its steps.
    ai_step-Draining :
        (at : AiAt) (now_us : ℕ) (s : StreamPipeline)
        → s.ai_at ≡ at
        → Draining c left (view s)
        → Draining c (left - 1) (view (ai_step cfg at now_us s))
    unfolding ai_step push_processed
    ai_step-Draining AiAt.at_top now_us s here d = ai_top-Draining now_us s here d
    ai_step-Draining AiAt.popping now_us s here d =
        ai_popped-Draining (pop no_frame s.decode_ring) s here (pop-Popped no_frame d.fits) d
    ai_step-Draining (holding f) now_us s here d = record {
      stopped = d.stopped;
      closed = d.closed;
      fits = d.fits;
      budget = omega (arith, subst (λ at. work at s.decode_ring.num_datas ≤ left) here d.budget);
      clean = refl;
    }
    ai_step-Draining AiAt.ended now_us s here d = record {
      stopped = d.stopped;
      closed = d.closed;
      fits = d.fits;
      budget = subst (λ at. work at s.decode_ring.num_datas ≤ left - 1) (sym here) (omega arith);
      clean = d.clean;
    }

    stop-Draining :
        (s : StreamPipeline) → Draining c left (view s) → Draining c left (view (request_stop s))
    unfolding request_stop
    stop-Draining s d =
        if-elim (λ t. Draining c left (view t)) s.running _ s
          (λ on. record {
            stopped = refl;
            closed = d.closed;
            fits = d.fits;
            budget = d.budget;
            clean = d.clean;
          })
          (λ off. d)

    turn-Draining :
        (t : Turn) (s : StreamPipeline)
        → Draining c left (view s)
        → Draining c (left - one_ai t) (view (turn cfg s t))
    unfolding turn demux_step
    turn-Draining (demux capture_us audio picture) s d = no_less c left _ (
        subst (λ at. Draining c left (view (demux_step cfg at capture_us audio picture s)))
          (sym d.closed) d)
    turn-Draining (ai now_us) s d = ai_step-Draining s.ai_at now_us s refl d
    turn-Draining (encodes audio now_us) s d =
        no_less c left _
          (subst (Draining c left) (sym (encode_step_same cfg s.encode_at audio now_us s)) d)
    turn-Draining stops s d = no_less c left (view (request_stop s)) (stop-Draining s d)

  run-Draining :
      (ts : List Turn) {c left : ℕ} (s : StreamPipeline)
      → Draining c left (view s)
      → Draining c (left - ai_turns ts) (view (run cfg s ts))
  unfolding run ai_turns
  run-Draining [] {c} {left} s d = no_less c left (view s) d
  run-Draining (t ∷ ts) {c} {left} s d =
      subst (λ k. Draining c k (view (run cfg s (t ∷ ts)))) (omega arith)
        (run-Draining ts (turn cfg s t) (turn-Draining t s d))

none_left : {A : Type 0} → 1 ≤ 0 → A
none_left h = ground arith

over : (at : AiAt) (n : ℕ) → work at n ≤ 0 → Clean at n → (at ≡ AiAt.ended) × (n ≡ 0)
over AiAt.at_top n h k = none_left (omega (arith, h))
over AiAt.popping n h k = none_left (omega (arith, h))
over (holding f) n h k = none_left (omega (arith, h))
over AiAt.ended n h k = (refl, k)

going : (at : AiAt) (n : ℕ) → at ≢ AiAt.ended → Clean at n
going AiAt.at_top n h = refl
going AiAt.popping n h = refl
going (holding f) n h = refl
going AiAt.ended n h = elim (h refl) [ ]

enough : (at : AiAt) (n : ℕ) → work at n ≤ 3 * n + 3
enough AiAt.at_top n = omega arith
enough AiAt.popping n = omega arith
enough (holding f) n = omega arith
enough AiAt.ended n = omega arith

-- Once the pipeline stops and the first stage has ended, the second stage comes to its end after at most
-- three steps for each place of its ring and three more, whatever the other stages do in
-- between, and has left no frame in its ring; for a pipeline with right accounts, as it is after
-- any steps, whose second stage has not ended.
pub run-later_lem :
    (cfg : PipelineConfig) (s : StreamPipeline) (later : List Turn)
    → Accounts cfg s
    → s.stop ≡ true
    → s.demux_at ≡ DemuxAt.ended
    → s.ai_at ≢ AiAt.ended
    → 3 * cfg.decode_ring_size + 3 ≤ ai_turns later
    → ((run cfg s later).ai_at ≡ AiAt.ended) × ((run cfg s later).decode_ring.num_datas ≡ 0)
run-later_lem cfg s later a stopped closed alive turns =
    let n = s.decode_ring.num_datas in
    let before : Draining cfg.decode_ring_size (3 * cfg.decode_ring_size + 3) (view s) = record {
      stopped = stopped;
      closed = closed;
      fits = a.decode_fits;
      budget = omega (arith, enough s.ai_at n, a.decode_fits.within);
      clean = going s.ai_at n alive;
    } in
    let after = run-Draining cfg later s before in
    over (run cfg s later).ai_at (run cfg s later).decode_ring.num_datas
      (omega (arith, after.budget, turns)) after.clean
