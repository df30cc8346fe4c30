-- ===== src/Ffmpeg/Pipeline/Offers.antt =====
-- The pushes and the windows of src/ffmpeg/StreamPipeline.cpp on one ring.
use stream_sight.Base.{
  ℕ, ◌+◌, ◌<◌, ◌≡◌, refl, subst, true, false, Bool-cases, inl, inr, ◌&&◌, if-elim, ltb, leb, ltb→lt,
  arith,
}
use stream_sight.Ffmpeg.Pipeline.{PipelineConfig, DecodedFrame, no_frame}
use stream_sight.Ffmpeg.Pipeline.Stages.{
  Offer, offer_of, offer, push_always, replaced_one, refused_one, prune_window, keep_fn,
}
use stream_sight.Net.RingBuffer.{RingBuffer, DropStatus, push, push_or_drop, oldest}
use stream_sight.Net.RingBuffer.Counts.{
  Fits, Pushed, Pruned, store-Fits, push_overwrite-Pushed, prune_stale-Pruned,
}

-- What a push that ended so has lost.
abbrev pub lost : Offer → ℕ
lost o = replaced_one o + refused_one o

ltb-false→leb : (a b : ℕ) → ltb a b ≡ false → leb b a ≡ true
ltb-false→leb a b h = ground arith

module _ {A : Type 0} (d : A) (timestamp : A → ℕ) (cfg : PipelineConfig) {c : ℕ} where
  push_or_drop-Pushed :
      (now_us : ℕ) {r : RingBuffer A} (x : A)
      → Fits c r
      → let (r', status) = push_or_drop d r x now_us cfg.drop_policy.max_frame_age_us timestamp in
        Pushed c r r' (lost (offer_of status))
  unfolding push_or_drop
  push_or_drop-Pushed now_us {r} x v =
      let P : RingBuffer A × DropStatus → Type 0 = λ w. Pushed c r w.0 (lost (offer_of w.1)) in
      if-elim P (ltb r.num_datas r.capacity) _ _
        (λ room.
          let (fits, one) =
            store-Fits x v
              (subst (λ k. r.num_datas < k) v.sized (ltb→lt r.num_datas r.capacity room)) in
          record { fits = fits; balance = omega (arith, one) })
        (λ full.
          if-elim P (ltb (cfg.drop_policy.max_frame_age_us + timestamp (oldest d r)) now_us) _ _
            (λ old. record {
              fits = record { sized = v.sized; has_room = v.has_room; within = v.within };
              balance = refl;
            })
            (λ young. record { fits = v; balance = refl }))

  push_always-Pushed :
      {r : RingBuffer A} (x : A)
      → Fits c r
      → let (r', o) = push_always d timestamp cfg r x in Pushed c r r' (lost o)
  unfolding push_always push
  push_always-Pushed {r} x v =
      let room = ltb r.num_datas r.capacity in
      elim (Bool-cases room) [
        | inl e ↦
            let (fits, one) =
              store-Fits x v
                (subst (λ k. r.num_datas < k) v.sized (ltb→lt r.num_datas r.capacity e)) in
            rw e (record { fits = fits; balance = omega (arith, one) })
        | inr e ↦ rw e (push_overwrite-Pushed x v (ltb-false→leb r.num_datas r.capacity e))
      ]

  pub offer-Pushed :
      (now_us : ℕ) {r : RingBuffer A} (x : A)
      → Fits c r
      → let (r', o) = offer d timestamp cfg now_us r x in Pushed c r r' (lost o)
  unfolding offer
  offer-Pushed now_us {r} x v =
      let P : RingBuffer A × Offer → Type 0 = λ w. Pushed c r w.0 (lost w.1) in
      if-elim P cfg.enable_backpressure _ _ (λ on. push_or_drop-Pushed now_us x v)
        (λ off. push_always-Pushed x v)

module _ (cfg : PipelineConfig) {c : ℕ} where
  pub prune_window-Pruned :
      (now_us : ℕ) {r : RingBuffer DecodedFrame}
      → Fits c r
      → let (r', pruned, applied) = prune_window cfg now_us r in Pruned c r r' 0 pruned
  unfolding prune_window
  prune_window-Pruned now_us {r} v =
      let P : RingBuffer DecodedFrame × ℕ × ℕ → Type 0 = λ w. Pruned c r w.0 0 w.1 in
      if-elim P (cfg.enable_backpressure && cfg.drop_policy.starts_drop r.num_datas r.capacity) _ _
        (λ on.
          prune_stale-Pruned no_frame _ (λ (x : DecodedFrame). x.capture_time_us) (keep_fn cfg) v)
        (λ off. record { fits = v; balance = refl })
