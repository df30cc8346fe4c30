-- ===== src/Net/RingBuffer/Run.antt =====
-- Sequences of calls: a ring buffer answers as the queue does.
use stream_sight.Base.{
  ℕ, zero, suc, ◌+◌, ◌<◌, ◌≡◌, refl, ap, ◌∙◌, inl, Bool, Option, List, [], ◌∷◌, length-replicate,
  arith,
}
use stream_sight.Net.RingBuffer.{
  RingBuffer, DropStatus, create, store, remove, oldest, push, pop, push_overwrite, peek_oldest,
  push_or_drop, prune_stale, prune_loop,
}
use stream_sight.Net.RingBuffer.Inv.{IsValid}
use stream_sight.Net.RingBuffer.Queue
use stream_sight.Net.RingBuffer.Refine.{
  contents, contents_none, push_refines, pop_refines, peek_oldest_refines, push_overwrite_refines,
  push_or_drop_refines,
}
use stream_sight.Net.RingBuffer.Prune.{prune_stale_refines}

pub data Call (A : Type 0) : Type 0 where
  pushes : A → Call A
  overwrites : A → Call A
  pops : Call A
  peeks : Call A
  offers : A → ℕ → ℕ → Call A
  prunes : ℕ → Option (A → Bool) → Call A

pub data Reply (A : Type 0) : Type 0 where
  done : Bool → Reply A
  got : Option A → Reply A
  status : DropStatus → Reply A
  dropped : ℕ → Reply A

module _ {A : Type 0} (d : A) (timestamp : A → ℕ) where
  unfoldable pub step : RingBuffer A → Call A → RingBuffer A × Reply A
  step r (pushes x) = let (r', b) = push r x in (r', done b)
  step r (overwrites x) = let (r', b) = push_overwrite r x in (r', done b)
  step r pops = let (r', x) = pop d r in (r', got x)
  step r peeks = (r, got (peek_oldest d r))
  step r (offers x now_us max_age_us) =
      let (r', s) = push_or_drop d r x now_us max_age_us timestamp in (r', status s)
  step r (prunes cutoff_us keep) =
      let (r', n) = prune_stale d cutoff_us timestamp keep r in (r', dropped n)

  unfoldable pub run : RingBuffer A → List (Call A) → List (Reply A)
  run r [] = []
  run r (c ∷ cs) = (step r c).1 ∷ run (step r c).0 cs

module _ {A : Type 0} (capacity : ℕ) (timestamp : A → ℕ) where
  unfoldable pub queue_step : List A → Call A → List A × Reply A
  queue_step q (pushes x) = let (q', b) = Queue.push capacity q x in (q', done b)
  queue_step q (overwrites x) = let (q', b) = Queue.push_overwrite capacity q x in (q', done b)
  queue_step q pops = let (q', x) = Queue.pop q in (q', got x)
  queue_step q peeks = (q, got (Queue.peek q))
  queue_step q (offers x now_us max_age_us) =
      let (q', s) = Queue.push_or_drop capacity q x now_us max_age_us timestamp in (q', status s)
  queue_step q (prunes cutoff_us keep) =
      let (q', n) = Queue.prune_stale cutoff_us timestamp keep q in (q', dropped n)

  unfoldable pub queue_run : List A → List (Call A) → List (Reply A)
  queue_run q [] = []
  queue_run q (c ∷ cs) = (queue_step q c).1 ∷ queue_run (queue_step q c).0 cs

module _ {A : Type 0} (d : A) (timestamp : A → ℕ) where
  pub create-IsValid : (capacity : ℕ) → 0 < capacity → IsValid (create d capacity)
  unfolding create
  create-IsValid capacity h = record {
    has_room = h;
    full_length = length-replicate capacity d;
    get_in = h;
    put_in = h;
    within = omega arith;
    apart = inl (omega arith);
  }

  capacity-prune_loop :
      (cutoff_us : ℕ) (keep : Option (A → Bool)) (scans : ℕ) (r : RingBuffer A) (n : ℕ)
      → (prune_loop d cutoff_us timestamp keep scans r n).0.capacity ≡ r.capacity
  unfolding prune_loop store remove
  capacity-prune_loop cutoff_us keep zero r n = refl
  capacity-prune_loop cutoff_us keep (suc scans) r n = ground (
    arith,
    capacity-prune_loop cutoff_us keep scans (store (remove r) (oldest d r)) n,
    capacity-prune_loop cutoff_us keep scans (remove r) (n + 1),
  )

  capacity-step : (r : RingBuffer A) (c : Call A) → (step d timestamp r c).0.capacity ≡ r.capacity
  unfolding step push push_overwrite pop push_or_drop prune_stale store remove
  capacity-step r (pushes x) = ground arith
  capacity-step r (overwrites x) = ground arith
  capacity-step r pops = ground arith
  capacity-step r peeks = refl
  capacity-step r (offers x now_us max_age_us) = ground arith
  capacity-step r (prunes cutoff_us keep) = capacity-prune_loop cutoff_us keep r.num_datas r 0

  step_refines :
      {r : RingBuffer A} (c : Call A)
      → IsValid r
      → let (r', reply) = step d timestamp r c in
        IsValid r' × ((contents d r', reply) ≡ queue_step r.capacity timestamp (contents d r) c)
  unfolding step queue_step
  step_refines (pushes x) v = let p = push_refines d x v in (p.0, ap (λ o. (o.0, done o.1)) p.1)
  step_refines (overwrites x) v =
      let p = push_overwrite_refines d x v in (p.0, ap (λ o. (o.0, done o.1)) p.1)
  step_refines pops v = let p = pop_refines d v in (p.0, ap (λ o. (o.0, got o.1)) p.1)
  step_refines {r} peeks v = (v, ap (λ x. (contents d r, got x)) (peek_oldest_refines d r))
  step_refines (offers x now_us max_age_us) v =
      let p = push_or_drop_refines d x now_us max_age_us timestamp v in
      (p.0, ap (λ o. (o.0, status o.1)) p.1)
  step_refines (prunes cutoff_us keep) v =
      let p = prune_stale_refines d cutoff_us timestamp keep v in
      (p.0, ap (λ o. (o.0, dropped o.1)) p.1)

  run_refines_from :
      (cs : List (Call A)) {r : RingBuffer A}
      → IsValid r
      → run d timestamp r cs ≡ queue_run r.capacity timestamp (contents d r) cs
  unfolding run queue_run
  run_refines_from [] v = refl
  run_refines_from (c ∷ cs) {r} v =
      let s = step_refines c v in
      let rest = run_refines_from cs s.0 in rw (rest, capacity-step r c, ← s.1)

  -- A ring buffer of positive capacity answers every sequence of calls as the queue of that
  -- capacity does that starts empty.
  pub run_refines :
      (capacity : ℕ) (cs : List (Call A))
      → 0 < capacity
      → run d timestamp (create d capacity) cs ≡ queue_run capacity timestamp [] cs
  unfolding create
  run_refines capacity cs h =
      run_refines_from cs (create-IsValid capacity h)
      ∙ ap (λ q. queue_run capacity timestamp q cs) (contents_none d (create d capacity) refl)
