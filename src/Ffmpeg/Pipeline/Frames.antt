-- ===== src/Ffmpeg/Pipeline/Frames.antt =====
-- Which frames the rings of src/ffmpeg/StreamPipeline.cpp hold: none that was not pushed, and none twice.
use stream_sight.Base.{
  ℕ, ◌+◌, ◌-◌, ◌≤◌, ◌≡◌, refl, sym, ap, ◌∙◌, subst, Bool, true, false, Bool-cases, inl, inr, ◌&&◌,
  if◌then◌else◌, if-elim, Option, none, some, List, [], ◌∷◌, ◌++◌, ltb, length, arith,
}
use stream_sight.Ffmpeg.Pipeline.{PipelineConfig, DecodedFrame, no_frame}
use stream_sight.Ffmpeg.Pipeline.Stages.{Offer, offer, push_always, prune_window, keep_fn}
use stream_sight.Net.RingBuffer.{RingBuffer, DropStatus, push, push_or_drop, pop, keeps}
use stream_sight.Net.RingBuffer.Inv.{IsValid}
use stream_sight.Net.RingBuffer.Prune.{prune_stale_refines}
use stream_sight.Net.RingBuffer.Queue
use stream_sight.Net.RingBuffer.Queue.{stale, fresh, select}
use stream_sight.Net.RingBuffer.Refine.{
  contents, push_refines, push_overwrite_refines, push_or_drop_refines, pop_refines,
}

module _ {A : Type 0} (q : A → Bool) where
  abbrev pub one : A → ℕ
  one x = if q x then 1 else 0

  abbrev pub one_of : Option A → ℕ
  one_of none = 0
  one_of (some x) = one x

  -- How many entries pass the test.
  unfoldable pub count : List A → ℕ
  count [] = 0
  count (x ∷ xs) = one x + count xs

  pub count-append : (xs ys : List A) → count (xs ++ ys) ≡ count xs + count ys
  unfolding count
  count-append [] ys = omega arith
  count-append (x ∷ xs) ys = omega (arith, count-append xs ys)

  pub count-append_one : (xs : List A) (x : A) → count (xs ++ (x ∷ [])) ≡ count xs + one x
  unfolding count
  count-append_one xs x = omega (arith, count-append xs (x ∷ []))

  count-pop : (l : List A) → count (Queue.pop l).0 + one_of (Queue.pop l).1 ≡ count l
  unfolding Queue.pop count
  count-pop [] = refl
  count-pop (x ∷ l) = omega arith

  count-replace_old :
      (l : List A) (x : A) (now_us max_age_us : ℕ) (timestamp : A → ℕ)
      → count (Queue.replace_old l x now_us max_age_us timestamp).0 ≤ count l + one x
  unfolding Queue.replace_old count
  count-replace_old [] x now_us max_age_us timestamp = omega arith
  count-replace_old (y ∷ l) x now_us max_age_us timestamp =
      if-elim (λ (w : List A × DropStatus). count w.0 ≤ one y + count l + one x)
        (ltb (max_age_us + timestamp y) now_us) _ _ (λ old. omega (arith, count-append_one l x))
        (λ young. omega arith)

  count-select : (k : A → Bool) (l : List A) → count (select k l) ≤ count l
  unfolding Queue.select count
  count-select k [] = omega arith
  count-select k (x ∷ l) =
      if-elim (λ w. count w ≤ one x + count l) (k x) _ _ (λ kept. omega (arith, count-select k l))
        (λ gone. omega (arith, count-select k l))

  count-fresh-stale :
      (cutoff_us : ℕ) (timestamp : A → ℕ) (l : List A)
      → count (fresh cutoff_us timestamp l) + count (stale cutoff_us timestamp l) ≡ count l
  unfolding Queue.stale Queue.fresh count
  count-fresh-stale cutoff_us timestamp [] = refl
  count-fresh-stale cutoff_us timestamp (x ∷ l) = elim (Bool-cases (ltb (timestamp x) cutoff_us)) [
    | inl old ↦ rw old (omega (arith, count-fresh-stale cutoff_us timestamp l))
    | inr young ↦ rw young (omega arith)
  ]

  count-prune :
      (cutoff_us : ℕ) (timestamp : A → ℕ) (keep : Option (A → Bool)) (l : List A)
      → count (Queue.prune_stale cutoff_us timestamp keep l).0 ≤ count l
  unfolding Queue.prune_stale
  count-prune cutoff_us timestamp keep l =
      let back = select (keeps keep) (stale cutoff_us timestamp l) in
      omega (
        arith,
        count-append (fresh cutoff_us timestamp l) back,
        count-select (keeps keep) (stale cutoff_us timestamp l),
        count-fresh-stale cutoff_us timestamp l,
      )

module _ {A : Type 0} (d : A) (q : A → Bool) where
  abbrev pub in_ring : RingBuffer A → ℕ
  in_ring r = count q (contents d r)

  -- A ring after an operation: it is consistent, and holds at most so many entries that pass the test.
  pub record Holds (most : ℕ) (r : RingBuffer A) : Type 0 where
    pub valid : IsValid r
    pub held : in_ring r ≤ most

  pub pop-in_ring :
      {r : RingBuffer A}
      → IsValid r
      → IsValid (pop d r).0 × (in_ring (pop d r).0 + one_of q (pop d r).1 ≡ in_ring r)
  pop-in_ring {r} v =
      let p = pop_refines d v in
      (p.0, ap (λ w. count q w.0 + one_of q w.1) p.1 ∙ count-pop q (contents d r))

  module _ (timestamp : A → ℕ) (cfg : PipelineConfig) where
    push_always-Holds :
        {r : RingBuffer A} (x : A)
        → IsValid r
        → Holds (in_ring r + one q x) (push_always d timestamp cfg r x).0
    unfolding push_always Queue.push Queue.push_overwrite
    push_always-Holds {r} x v =
        let l = contents d r in
        let most = in_ring r + one q x in
        let p = push_refines d x v in
        let o = push_overwrite_refines d x v in
        let pushed =
          if-elim (λ (w : List A × Bool). count q w.0 ≤ most) (ltb (length l) r.capacity)
            (l ++ (x ∷ []), true) (l, false) (λ room. omega (arith, count-append_one q l x))
            (λ full. omega arith) in
        let popped =
          if-elim (λ w. count q w ≤ count q l) (ltb (length l) r.capacity) l (Queue.pop l).0
            (λ room. omega arith) (λ full. omega (arith, count-pop q l)) in
        let left = if ltb (length l) r.capacity then l else (Queue.pop l).0 in
        let over : count q (left ++ (x ∷ [])) ≤ most =
          omega (arith, popped, count-append_one q left x) in
        if-elim (λ (w : RingBuffer A × Offer). Holds most w.0) (push r x).1 _ _
          (λ done. record {
            valid = p.0;
            held = subst (λ k. k ≤ most) (sym (ap (λ w. count q w.0) p.1)) pushed;
          })
          (λ full. record {
            valid = o.0;
            held = subst (λ k. k ≤ most) (sym (ap (λ w. count q w.0) o.1)) over;
          })

    push_or_drop-Holds :
        (now_us : ℕ) {r : RingBuffer A} (x : A)
        → IsValid r
        → Holds
            (in_ring r + one q x)
            (push_or_drop d r x now_us cfg.drop_policy.max_frame_age_us timestamp).0
    unfolding Queue.push_or_drop
    push_or_drop-Holds now_us {r} x v =
        let l = contents d r in
        let most = in_ring r + one q x in
        let p = push_or_drop_refines d x now_us cfg.drop_policy.max_frame_age_us timestamp v in
        let bound =
          if-elim (λ (w : List A × DropStatus). count q w.0 ≤ most) (ltb (length l) r.capacity) _ _
            (λ room. omega (arith, count-append_one q l x))
            (λ full. count-replace_old q l x now_us cfg.drop_policy.max_frame_age_us timestamp) in
        record { valid = p.0; held = subst (λ k. k ≤ most) (sym (ap (λ w. count q w.0) p.1)) bound }

    pub offer-Holds :
        (now_us : ℕ) {r : RingBuffer A} (x : A)
        → IsValid r
        → Holds (in_ring r + one q x) (offer d timestamp cfg now_us r x).0
    unfolding offer
    offer-Holds now_us {r} x v =
        if-elim (λ (w : RingBuffer A × Offer). Holds (in_ring r + one q x) w.0)
          cfg.enable_backpressure _ _ (λ on. push_or_drop-Holds now_us x v)
          (λ off. push_always-Holds x v)

module _ (q : DecodedFrame → Bool) (cfg : PipelineConfig) where
  pub prune_window-Holds :
      (now_us : ℕ) {r : RingBuffer DecodedFrame}
      → IsValid r
      → Holds no_frame q (in_ring no_frame q r) (prune_window cfg now_us r).0
  unfolding prune_window
  prune_window-Holds now_us {r} v =
      let cutoff_us = now_us - cfg.drop_policy.max_frame_age_us in
      let age = λ (x : DecodedFrame). x.capture_time_us in
      let most = in_ring no_frame q r in
      let p = prune_stale_refines no_frame cutoff_us age (keep_fn cfg) v in
      if-elim (λ (w : RingBuffer DecodedFrame × ℕ × ℕ). Holds no_frame q most w.0)
        (cfg.enable_backpressure && cfg.drop_policy.starts_drop r.num_datas r.capacity) _ _
        (λ on. record {
          valid = p.0;
          held =
              subst (λ k. k ≤ most) (sym (ap (λ w. count q w.0) p.1))
                (count-prune q cutoff_us age (keep_fn cfg) (contents no_frame r));
        })
        (λ off. record { valid = v; held = omega arith })
