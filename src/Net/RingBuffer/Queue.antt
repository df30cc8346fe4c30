-- ===== src/Net/RingBuffer/Queue.antt =====
-- What the ring buffer promises: a queue of at most `capacity` entries, oldest first.
use stream_sight.Base.{
  ℕ, ◌+◌, Bool, true, false, not, Option, none, some, List, [], ◌∷◌, ◌++◌, if◌then◌else◌, ltb,
  length,
}
use stream_sight.Net.RingBuffer.{DropStatus, accepted, old_dropped, new_dropped, keeps}

module _ {A : Type 0} where
  unfoldable pub pop : List A → List A × Option A
  pop [] = ([], none)
  pop (x ∷ q) = (q, some x)

  abbrev pub peek : List A → Option A
  peek q = (pop q).1

  unfoldable pub push : ℕ → List A → A → List A × Bool
  push capacity q x = if ltb (length q) capacity then (q ++ (x ∷ []), true) else (q, false)

  -- A full queue loses its oldest entry.
  unfoldable pub push_overwrite : ℕ → List A → A → List A × Bool
  push_overwrite capacity q x =
      ((if ltb (length q) capacity then q else (pop q).0) ++ (x ∷ []), true)

  unfoldable pub replace_old : List A → A → ℕ → ℕ → (A → ℕ) → List A × DropStatus
  replace_old [] x now_us max_age_us timestamp = ([], new_dropped)
  replace_old (y ∷ q) x now_us max_age_us timestamp =
      if ltb (max_age_us + timestamp y) now_us
      then (q ++ (x ∷ []), old_dropped)
      else (y ∷ q, new_dropped)

  -- A full queue loses its oldest entry if that is too old, and refuses the new one otherwise.
  unfoldable pub push_or_drop : ℕ → List A → A → ℕ → ℕ → (A → ℕ) → List A × DropStatus
  push_or_drop capacity q x now_us max_age_us timestamp =
      if ltb (length q) capacity
      then (q ++ (x ∷ []), accepted)
      else replace_old q x now_us max_age_us timestamp

  module _ (cutoff_us : ℕ) (timestamp : A → ℕ) where
    -- The entries before the first fresh one, and those from it on.
    unfoldable pub stale : List A → List A
    stale [] = []
    stale (x ∷ q) = if ltb (timestamp x) cutoff_us then x ∷ stale q else []

    unfoldable pub fresh : List A → List A
    fresh [] = []
    fresh (x ∷ q) = if ltb (timestamp x) cutoff_us then fresh q else x ∷ q

  unfoldable pub select : (A → Bool) → List A → List A
  select p [] = []
  select p (x ∷ q) = if p x then x ∷ select p q else select p q

  -- The stale entries go, but for those that `keep` protects, which move to the back.
  unfoldable pub prune_stale : ℕ → (A → ℕ) → Option (A → Bool) → List A → List A × ℕ
  prune_stale cutoff_us timestamp keep q = (
    fresh cutoff_us timestamp q ++ select (keeps keep) (stale cutoff_us timestamp q),
    length (select (λ x. not (keeps keep x)) (stale cutoff_us timestamp q)),
  )
