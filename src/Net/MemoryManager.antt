-- ===== src/Net/MemoryManager.antt =====
-- src/net/MemoryManager.h and MemoryManager.cpp: pools of blocks of one size. A block is the number of
-- its place in the pool; the links that the blocks store are the function `next`. A pool's
-- memory is not given back. Memory from the system has no number.
mod Tests
pub mod Laws
pub mod Init
use stream_sight.Base.{
  ℕ, zero, suc, ◌+◌, ◌-◌, ◌≤◌, Bool, true, false, Option, none, some, if◌then◌else◌, leb, ◌==◌,
}

-- `ready` is whether `memory_` has been allocated.
pub record MemoryPool : Type 0 where
  pub ready : Bool
  pub block_size : ℕ
  pub num_blocks : ℕ
  pub head : Option ℕ
  pub next : ℕ → Option ℕ

pub data Pointer : Type 0 where
  pooled : ℕ → ℕ → Pointer
  system : ℕ → Pointer

-- `b->next = o`
abbrev pub link : ℕ → Option ℕ → (ℕ → Option ℕ) → ℕ → Option ℕ
link b o f k = if k == b then o else f k

-- The links after `n` rounds of the loop of Init.
unfoldable pub link_all : ℕ → ℕ → Option ℕ
link_all zero = link 0 none (λ k. none)
link_all (suc n) = link n (some (suc n)) (link (suc n) none (link_all n))

unfoldable pub init : ℕ → ℕ → MemoryPool → MemoryPool
init size n pool = if pool.ready then pool else record {
  ready = true;
  block_size = size;
  num_blocks = n;
  head = some 0;
  next = link_all (n - 1);
}

unfoldable pub alloc : MemoryPool → MemoryPool × Option ℕ
alloc pool = elim pool.head [
  | none ↦ (pool, none)
  | some b ↦ (record pool { head = pool.next b }, some b)
]

-- A pool's block has a `block_id` that is not 0.
unfoldable pub free : ℕ → MemoryPool → MemoryPool
free b pool = record pool { next = link b pool.head pool.next; head = some b }

abbrev pub max_memory_pool : ℕ
max_memory_pool = 3

-- `memory_pools_`
abbrev pub MemoryManager : Type 0
MemoryManager = ℕ → MemoryPool

unfoldable pub put_pool : ℕ → MemoryPool → MemoryManager → MemoryManager
put_pool n p m k = if k == n then p else m k

-- MemoryManager::Alloc, from pool `n` on with `left` pools to go: the first pool whose blocks are
-- large enough, or else, and when that pool is empty, the system.
unfoldable pub alloc_from : ℕ → ℕ → ℕ → MemoryManager → MemoryManager × Pointer
alloc_from zero n size m = (m, system size)
alloc_from (suc left) n size m =
    let (pool, block) = alloc (m n) in
    let smaller = alloc_from left (suc n) size m in
    if leb size (m n).block_size
    then elim block [ none ↦ (m, system size) | some b ↦ (put_pool n pool m, pooled n b) ]
    else smaller

unfoldable pub manager_alloc : ℕ → MemoryManager → MemoryManager × Pointer
manager_alloc size m = alloc_from max_memory_pool 0 size m

unfoldable pub manager_free : Pointer → MemoryManager → MemoryManager
manager_free (pooled n b) m = put_pool n (free b (m n)) m
manager_free (system size) m = m
