-- ===== src/Net/RingBuffer/Prune.antt =====
-- PruneStale against the queue, and any sequence of calls against it.
use stream_sight.Base.{
  ℕ, zero, suc, ◌+◌, ◌<◌, ◌≡◌, sym, ap, ap₂, ◌∙◌, inl, inr, Bool, true, false, not, Option, List,
  [], ◌∷◌, ◌++◌, ltb, lt→ltb, length, append-nil, append_assoc, arith, Bool-cases,
}
use stream_sight.Net.RingBuffer.{RingBuffer, remove, oldest, keeps, prune_loop, prune_stale}
use stream_sight.Net.RingBuffer.Inv.{IsValid, store-IsValid, remove-IsValid}
use stream_sight.Net.RingBuffer.Queue
use stream_sight.Net.RingBuffer.Queue.{stale, fresh, select}
use stream_sight.Net.RingBuffer.Refine.{contents, contents-store, contents_first, length-contents}

module _ {A : Type 0} (d : A) (cutoff_us : ℕ) (timestamp : A → ℕ) (keep : Option (A → Bool)) where
  -- What is left of a queue whose first part `q` is still to be scanned, before `back`.
  left : List A → List A → List A
  left q back =
      fresh cutoff_us timestamp q ++ (back ++ select (keeps keep) (stale cutoff_us timestamp q))

  gone : List A → ℕ
  gone q = length (select (λ x. not (keeps keep x)) (stale cutoff_us timestamp q))

  module _ (x : A) (q back : List A) where
    left_young : ltb (timestamp x) cutoff_us ≡ false → left (x ∷ q) back ≡ (x ∷ q) ++ back
    unfolding left Queue.stale Queue.fresh Queue.select
    left_young e = rw e (ap (λ l. (x ∷ q) ++ l) (append-nil back))

    left_kept :
        ltb (timestamp x) cutoff_us ≡ true
        → keeps keep x ≡ true
        → left q (back ++ (x ∷ [])) ≡ left (x ∷ q) back
    unfolding left Queue.stale Queue.fresh Queue.select
    left_kept e k =
        rw (e, k) (ap (λ l. fresh cutoff_us timestamp q ++ l) (append_assoc back (x ∷ []) _))

    left_dropped :
        ltb (timestamp x) cutoff_us ≡ true → keeps keep x ≡ false → left q back ≡ left (x ∷ q) back
    unfolding left Queue.stale Queue.fresh Queue.select
    left_dropped e k = rw (e, k)

    gone_young : ltb (timestamp x) cutoff_us ≡ false → gone (x ∷ q) ≡ 0
    unfolding gone Queue.stale Queue.select
    gone_young e = rw e

    gone_kept : ltb (timestamp x) cutoff_us ≡ true → keeps keep x ≡ true → gone (x ∷ q) ≡ gone q
    unfolding gone Queue.stale Queue.select
    gone_kept e k = rw (e, k)

    gone_dropped :
        ltb (timestamp x) cutoff_us ≡ true → keeps keep x ≡ false → gone (x ∷ q) ≡ suc (gone q)
    unfolding gone Queue.stale Queue.select
    gone_dropped e k = rw (e, k)

  record Pruned (r : RingBuffer A) (q back : List A) (pruned : ℕ) (out : RingBuffer A × ℕ)
      : Type 0 where
    valid : IsValid out.0
    kept : contents d out.0 ≡ left q back
    count : out.1 ≡ pruned + gone q

  loop-Pruned :
      (scans : ℕ) {r : RingBuffer A} (q back : List A) (pruned : ℕ)
      → IsValid r
      → length q ≡ scans
      → contents d r ≡ q ++ back
      → Pruned r q back pruned (prune_loop d cutoff_us timestamp keep scans r pruned)
  unfolding prune_loop left gone Queue.stale Queue.fresh Queue.select
  loop-Pruned zero [] back pruned v l e = record {
    valid = v;
    kept = e ∙ sym (append-nil back);
    count = omega arith;
  }
  loop-Pruned zero (x ∷ q) back pruned v l e = absurd (omega arith)
  loop-Pruned (suc scans) [] back pruned v l e = absurd (omega arith)
  loop-Pruned (suc scans) {r} (x ∷ q) back pruned v l e =
      let h : 0 < r.num_datas = omega (arith, ap length e, length-contents d r) in
      let first : oldest d r ≡ x = cc (contents_first d r h) in
      let rest : contents d (remove r) ≡ q ++ back = cc (contents_first d r h) in
      let w = remove-IsValid v h in
      elim (Bool-cases (ltb (timestamp x) cutoff_us)) [
        | inr young ↦
            rw (lt→ltb 0 r.num_datas h, first, young)
              (record {
                valid = v;
                kept = e ∙ sym (left_young x q back young);
                count = omega (arith, gone_young x q back young);
              })
        | inl old ↦ elim (Bool-cases (keeps keep x)) [
          | inl kept ↦
              let room : (remove r).num_datas < (remove r).capacity =
                unfold remove in omega (arith, v.within) in
              let ih =
                loop-Pruned scans q (back ++ (x ∷ [])) pruned (store-IsValid x w room) (omega arith)
                  (contents-store d x w room
                    ∙ (ap (λ l. l ++ (x ∷ [])) rest ∙ append_assoc q back (x ∷ []))) in
              rw (lt→ltb 0 r.num_datas h, first, old, kept)
                (record {
                  valid = ih.valid;
                  kept = ih.kept ∙ left_kept x q back old kept;
                  count = omega (arith, ih.count, gone_kept x q back old kept);
                })
          | inr dropped ↦
              let ih = loop-Pruned scans q back (pruned + 1) w (omega arith) rest in
              rw (lt→ltb 0 r.num_datas h, first, old, dropped)
                (record {
                  valid = ih.valid;
                  kept = ih.kept ∙ left_dropped x q back old dropped;
                  count = omega (arith, ih.count, gone_dropped x q back old dropped);
                })
        ]
      ]

  -- PruneStale drops exactly the stale entries in front of the first fresh one, keeps those that the
  -- key-frame test protects, behind the fresh entries and in their order, and returns how many it
  -- dropped.
  pub prune_stale_refines :
      {r : RingBuffer A}
      → IsValid r
      → let (r', pruned) = prune_stale d cutoff_us timestamp keep r in
        IsValid r'
        × ((contents d r', pruned) ≡ Queue.prune_stale cutoff_us timestamp keep (contents d r))
  unfolding prune_stale Queue.prune_stale left gone
  prune_stale_refines {r} v =
      let p =
        loop-Pruned r.num_datas (contents d r) [] 0 v (length-contents d r)
          (sym (append-nil (contents d r))) in
      (p.valid, ap₂ (λ a b. (a, b)) p.kept (omega (arith, p.count)))
