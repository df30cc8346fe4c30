-- ===== src/Net/MemoryManager/Tests.antt =====
-- The theorems on the memory pools at inputs that exercise the code.
use stream_sight.Base.{
  ◌⊎◌, ℕ, ◌+◌, ◌*◌, ◌<◌, ◌≡◌, refl, Bool, true, false, none, some, [], ◌∷◌, if◌then◌else◌, ◌==◌,
  arith,
}
use stream_sight.Net.MemoryManager.{MemoryPool, pooled, alloc, free, alloc_from}
use stream_sight.Net.MemoryManager.Laws.{IsPool, mark, alloc-IsPool, free-IsPool}

abbrev empty_pool : MemoryPool
empty_pool = record { ready = false; block_size = 0; num_blocks = 0; head = none; next = λ k. none }

-- Block 1 is in use; block 0 is free.
abbrev half : MemoryPool
half = record { ready = true; block_size = 4096; num_blocks = 2; head = some 0; next = λ k. none }

abbrev second : ℕ → Bool
second b = if b == 1 then true else false

half-IsPool : IsPool second half
half-IsPool = (0 ∷ [], (refl, refl), (refl, tt), ((omega arith, refl), tt), λ b lt f. ground arith)

alloc-IsPool_example :
    let (p', block) = alloc half in
    ((b : ℕ) × (block ≡ some b) × (b < 2) × (second b ≡ false) × IsPool (mark b true second) p')
    ⊎ ((block ≡ none) × (p' ≡ half) × ((b : ℕ) → b < 2 → second b ≡ true))
alloc-IsPool_example = alloc-IsPool second half half-IsPool

free-IsPool_example :
    IsPool (mark 1 false second) (free 1 half) × ((alloc (free 1 half)).1 ≡ some 1)
free-IsPool_example = free-IsPool second half 1 half-IsPool (omega arith) refl

abbrev pools : ℕ → MemoryPool
pools n = record half { block_size = (n + 1) * 1000 }

second_pool : (alloc_from 3 0 1500 pools).1 ≡ pooled 1 0
unfolding alloc_from alloc
second_pool = refl
