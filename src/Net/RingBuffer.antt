-- ===== src/Net/RingBuffer.antt =====
-- src/net/RingBuffer.h: the bounded FIFO of frames, packets and trigger events, one call at a time.
-- An element that is moved out keeps its value here; it is not read again before it is overwritten.
-- Timestamps are microseconds that do not overflow.
pub mod Queue
pub mod Inv
pub mod Refine
pub mod Prune
pub mod Run
pub mod Counts
use stream_sight.Base.{
  ℕ, zero, suc, ◌+◌, ◌-◌, ◌%◌, Bool, true, false, Option, none, some, List, if◌then◌else◌, ltb, leb,
  ◌==◌, get_or, set, replicate,
}

pub record RingBuffer (A : Type 0) : Type 0 where
  pub buffer : List A
  pub capacity : ℕ
  pub put_pos : ℕ
  pub get_pos : ℕ
  pub num_datas : ℕ

pub data DropStatus : Type 0 where
  accepted old_dropped new_dropped : DropStatus

unfoldable pub advance : ℕ → ℕ → ℕ
advance capacity pos = (pos + 1) % capacity

-- `d` is the default-constructed element that the vector is filled with.
module _ {A : Type 0} (d : A) where
  unfoldable pub create : ℕ → RingBuffer A
  create capacity = record {
    buffer = replicate capacity d;
    capacity = capacity;
    put_pos = 0;
    get_pos = 0;
    num_datas = 0;
  }

  -- buffer_[get_pos_]
  unfoldable pub oldest : RingBuffer A → A
  oldest r = get_or r.buffer r.get_pos d

module _ {A : Type 0} where
  -- `buffer_[put_pos_] = data; Advance(put_pos_); num_datas_++;`
  unfoldable pub store : RingBuffer A → A → RingBuffer A
  store r x = record r {
    buffer = set r.buffer r.put_pos x;
    put_pos = advance r.capacity r.put_pos;
    num_datas = r.num_datas + 1;
  }

  -- `Advance(get_pos_); num_datas_--;`
  unfoldable pub remove : RingBuffer A → RingBuffer A
  remove r = record r { get_pos = advance r.capacity r.get_pos; num_datas = r.num_datas - 1 }

  -- PushData, behind both overloads of Push.
  unfoldable pub push : RingBuffer A → A → RingBuffer A × Bool
  push r x = if ltb r.num_datas r.capacity then (store r x, true) else (r, false)

  unfoldable pub push_overwrite : RingBuffer A → A → RingBuffer A × Bool
  push_overwrite r x = (store (if leb r.capacity r.num_datas then remove r else r) x, true)

  unfoldable pub is_full : RingBuffer A → Bool
  is_full r = r.num_datas == r.capacity

  unfoldable pub is_empty : RingBuffer A → Bool
  is_empty r = r.num_datas == 0

  abbrev pub size : RingBuffer A → ℕ
  size r = r.num_datas

  -- `keep_keyframe_fn && keep_keyframe_fn(data)`
  abbrev pub keeps : Option (A → Bool) → A → Bool
  keeps none x = false
  keeps (some keep) x = keep x

module _ {A : Type 0} (d : A) where
  unfoldable pub pop : RingBuffer A → RingBuffer A × Option A
  pop r = if ltb 0 r.num_datas then (remove r, some (oldest d r)) else (r, none)

  unfoldable pub peek_oldest : RingBuffer A → Option A
  peek_oldest r = if leb r.num_datas 0 then none else some (oldest d r)

  -- The oldest is dropped when `now_us - oldest_ts > max_age_us`.
  unfoldable pub push_or_drop : RingBuffer A → A → ℕ → ℕ → (A → ℕ) → RingBuffer A × DropStatus
  push_or_drop r x now_us max_age_us timestamp =
      if ltb r.num_datas r.capacity
      then (store r x, accepted)
      else if ltb (max_age_us + timestamp (oldest d r)) now_us
      then (
        record r {
          buffer = set r.buffer r.get_pos x;
          get_pos = advance r.capacity r.get_pos;
          put_pos = advance r.capacity r.put_pos;
        },
        old_dropped,
      )
      else (r, new_dropped)

  module _ (cutoff_us : ℕ) (timestamp : A → ℕ) (keep : Option (A → Bool)) where
    -- The loop of PruneStale: `scans` is `total - scanned`, and every round scans one entry.
    unfoldable pub prune_loop : ℕ → RingBuffer A → ℕ → RingBuffer A × ℕ
    prune_loop zero r pruned = (r, pruned)
    prune_loop (suc scans) r pruned =
        let kept = prune_loop scans (store (remove r) (oldest d r)) pruned in
        let dropped = prune_loop scans (remove r) (pruned + 1) in
        let stale = if keeps keep (oldest d r) then kept else dropped in
        if ltb 0 r.num_datas
        then if ltb (timestamp (oldest d r)) cutoff_us then stale else (r, pruned)
        else (r, pruned)

    unfoldable pub prune_stale : RingBuffer A → RingBuffer A × ℕ
    prune_stale r = prune_loop r.num_datas r 0
