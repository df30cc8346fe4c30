-- ===== src/Net/RingBuffer/Inv.antt =====
-- The representation invariant of the ring buffer.
use stream_sight.Base.{ℕ, ◌+◌, ◌≤◌, ◌<◌, ◌≡◌, ◌⊎◌, length, length-set, arith}
use stream_sight.Net.RingBuffer.{RingBuffer, advance, store, remove}

-- `put_pos` stands `num_datas` steps after `get_pos`, going round once at most.
pub record IsValid {A : Type 0} (r : RingBuffer A) : Type 0 where
  pub has_room : 0 < r.capacity
  pub full_length : length r.buffer ≡ r.capacity
  pub get_in : r.get_pos < r.capacity
  pub put_in : r.put_pos < r.capacity
  pub within : r.num_datas ≤ r.capacity
  pub apart :
      (r.get_pos + r.num_datas ≡ r.put_pos) ⊎ (r.get_pos + r.num_datas ≡ r.put_pos + r.capacity)

pub advance_cases :
    (c p : ℕ) → p < c → ((p + 1 < c) × (advance c p ≡ p + 1)) ⊎ ((p + 1 ≡ c) × (advance c p ≡ 0))
unfolding advance
advance_cases c p h = grind arith

module _ {A : Type 0} where
  pub store-IsValid :
      {r : RingBuffer A} (x : A) → IsValid r → r.num_datas < r.capacity → IsValid (store r x)
  unfolding store
  store-IsValid {r} x v h =
      ground (arith, length-set r.buffer r.put_pos x, advance_cases r.capacity r.put_pos v.put_in)

  pub remove-IsValid : {r : RingBuffer A} → IsValid r → 0 < r.num_datas → IsValid (remove r)
  unfolding remove
  remove-IsValid {r} v h = ground (arith, advance_cases r.capacity r.get_pos v.get_in)
