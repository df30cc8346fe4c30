-- ===== src/Net/RingBuffer/Counts.antt =====
-- src/net/RingBuffer.h: how the operations change the number of the entries.
use stream_sight.Base.{
  ℕ, zero, suc, ◌+◌, ◌≤◌, ◌<◌, ◌≡◌, refl, Bool, true, Option, none, some, sym, if-elim, ltb, leb,
  ltb→lt, ltb-false→le, arith,
}
use stream_sight.Net.RingBuffer.{
  RingBuffer, store, remove, push_overwrite, pop, prune_loop, prune_stale, keeps, oldest,
}

-- Room for an entry, and not more entries than room.
pub record Fits {A : Type 0} (capacity : ℕ) (r : RingBuffer A) : Type 0 where
  pub sized : r.capacity ≡ capacity
  pub has_room : 0 < capacity
  pub within : r.num_datas ≤ capacity

module _ {A : Type 0} where
  pub store-Fits :
      {c : ℕ} {r : RingBuffer A} (x : A)
      → Fits c r
      → r.num_datas < c
      → Fits c (store r x) × ((store r x).num_datas ≡ r.num_datas + 1)
  unfolding store
  store-Fits x v h =
      (record { sized = v.sized; has_room = v.has_room; within = omega (arith, h) }, refl)

  pub remove-Fits :
      {c : ℕ} {r : RingBuffer A}
      → Fits c r
      → 0 < r.num_datas
      → Fits c (remove r) × ((remove r).num_datas + 1 ≡ r.num_datas)
  unfolding remove
  remove-Fits v h = (
    record { sized = v.sized; has_room = v.has_room; within = omega (arith, h, v.within) },
    omega (arith, h),
  )

-- How a push ended: the entries that it took from the ring, or did not let in, make up for the new one.
pub record Pushed {A : Type 0} (capacity : ℕ) (r r' : RingBuffer A) (lost : ℕ) : Type 0 where
  pub fits : Fits capacity r'
  pub balance : r'.num_datas + lost ≡ r.num_datas + 1

-- How a prune ended.
pub record Pruned {A : Type 0} (capacity : ℕ) (r r' : RingBuffer A) (before pruned : ℕ)
    : Type 0 where
  pub fits : Fits capacity r'
  pub balance : pruned + r'.num_datas ≡ before + r.num_datas

-- How a pop ended: an empty ring gives nothing, any other one entry.
unfoldable pub Popped : {A : Type 0} → ℕ → RingBuffer A → RingBuffer A × Option A → Type 0
Popped c r (r', none) = r.num_datas ≡ 0
Popped c r (r', some x) = Fits c r' × (r'.num_datas + 1 ≡ r.num_datas)

full_enough : (a b : ℕ) → leb a b ≡ true → a ≤ b
full_enough a b h = ground arith

module _ {A : Type 0} {c : ℕ} where
  pub push_overwrite-Pushed :
      {r : RingBuffer A} (x : A)
      → Fits c r
      → leb r.capacity r.num_datas ≡ true
      → Pushed c r (push_overwrite r x).0 1
  unfolding push_overwrite
  push_overwrite-Pushed {r} x v h =
      let full : c ≤ r.num_datas = full_enough c r.num_datas (rw (sym v.sized) h) in
      let (w, one) = remove-Fits v (omega (arith, full, v.has_room)) in
      let (fits, two) = store-Fits x w (omega (arith, one, v.within)) in
      rw h (record { fits = fits; balance = omega (arith, one, two) })

module _ {A : Type 0} (d : A) {c : ℕ} where
  module _ (cutoff_us : ℕ) (timestamp : A → ℕ) (keep : Option (A → Bool)) where
    -- A stale entry goes to the back, or it goes and counts.
    prune_loop-Pruned :
        (scans : ℕ) {r : RingBuffer A} (pruned : ℕ)
        → Fits c r
        → let (r', pruned') = prune_loop d cutoff_us timestamp keep scans r pruned in
          Pruned c r r' pruned pruned'
    unfolding prune_loop
    prune_loop-Pruned zero pruned v = record { fits = v; balance = refl }
    prune_loop-Pruned (suc scans) {r} pruned v =
        let P : RingBuffer A × ℕ → Type 0 = λ w. Pruned c r w.0 pruned w.1 in
        if-elim P (ltb 0 r.num_datas) _ _
          (λ some_left.
            let (w, one) = remove-Fits v (ltb→lt 0 r.num_datas some_left) in
            if-elim P (ltb (timestamp (oldest d r)) cutoff_us) _ _
              (λ old.
                if-elim P (keeps keep (oldest d r)) _ _
                  (λ kept.
                    let (again, two) = store-Fits (oldest d r) w (omega (arith, one, v.within)) in
                    let p = prune_loop-Pruned scans pruned again in
                    record { fits = p.fits; balance = omega (arith, p.balance, one, two) })
                  (λ gone.
                    let p = prune_loop-Pruned scans (pruned + 1) w in
                    record { fits = p.fits; balance = omega (arith, p.balance, one) }))
              (λ young. record { fits = v; balance = refl }))
          (λ none_left. record { fits = v; balance = refl })

    pub prune_stale-Pruned :
        {r : RingBuffer A}
        → Fits c r
        → let (r', pruned) = prune_stale d cutoff_us timestamp keep r in Pruned c r r' 0 pruned
    unfolding prune_stale
    prune_stale-Pruned {r} v = prune_loop-Pruned r.num_datas 0 v

  pub pop-Popped : {r : RingBuffer A} → Fits c r → Popped c r (pop d r)
  unfolding pop Popped
  pop-Popped {r} v =
      if-elim (Popped c r) (ltb 0 r.num_datas) _ _
        (λ some_left. remove-Fits v (ltb→lt 0 r.num_datas some_left))
        (λ none_left. omega (arith, ltb-false→le 0 r.num_datas none_left))
