-- ===== src/Net/MemoryManager/Init.antt =====
-- The links that MemoryPool::Init of src/net/MemoryManager.cpp lays.
use stream_sight.Base.{
  ℕ, zero, suc, ◌+◌, ◌-◌, ◌≤◌, ◌<◌, ◌≡◌, refl, sym, ap, ◌∙◌, true, false, none, some, List, [], ◌∷◌,
  if-false, subst, All, arith,
}
use stream_sight.Net.MemoryManager.{MemoryPool, link_all, init}
use stream_sight.Net.MemoryManager.Laws.{elem, IsDistinct, Leads, IsPool}

link_all_lem : (n k : ℕ) → (k < n → link_all n k ≡ some (suc k)) × (link_all n n ≡ none)
unfolding link_all
link_all_lem zero k = (λ h. absurd (omega arith), refl)
link_all_lem (suc n) k = let ih = link_all_lem n k in (λ h. ground (arith, ih.0), ground arith)

range : ℕ → ℕ → List ℕ
range k zero = []
range k (suc c) = k ∷ range (suc k) c

Leads-range : (c k n : ℕ) → k + c ≡ n → Leads (some k) (link_all n) (range k (suc c))
unfolding range
Leads-range zero k n e = let e' : k ≡ n = omega arith in (refl, rw e' (link_all_lem n 0).1)
Leads-range (suc c) k n e =
    let l : link_all n k ≡ some (suc k) = (link_all_lem n k).0 (omega arith) in
    (refl, rw l (Leads-range c (suc k) n (omega arith)))

elem-range_below : (c k b : ℕ) → b < k → elem b (range k c) ≡ false
unfolding range
elem-range_below zero k b h = refl
elem-range_below (suc c) k b h = ground (arith, elem-range_below c (suc k) b)

elem-range : (c k b : ℕ) → k ≤ b → b < k + c → elem b (range k c) ≡ true
unfolding range
elem-range zero k b h lt = absurd (omega arith)
elem-range (suc c) k b h lt = ground (arith, elem-range c (suc k) b)

range-IsDistinct : (c k : ℕ) → IsDistinct (range k c)
unfolding range
range-IsDistinct zero k = tt
range-IsDistinct (suc c) k =
    (elem-range_below c (suc k) k (omega arith), range-IsDistinct c (suc k))

All-range : (c k n : ℕ) → k + c ≤ n → All (λ b. (b < n) × (false ≡ false)) (range k c)
unfolding range
All-range zero k n h = tt
All-range (suc c) k n h = ((omega arith, refl), All-range c (suc k) n (omega arith))

-- Init, on a pool without memory and for at least one block, leaves every block free, and a second
-- Init changes nothing.
pub init-IsPool :
    (size n size' n' : ℕ) (p : MemoryPool)
    → p.ready ≡ false
    → let p' = init size (suc n) p in
      IsPool (λ b. false) p' × (p'.num_blocks ≡ suc n) × (init size' n' p' ≡ p')
unfolding init
init-IsPool size n size' n' p h =
    let made : ℕ → MemoryPool = λ k. record {
      ready = true;
      block_size = size;
      num_blocks = suc n;
      head = some 0;
      next = link_all k;
    } in
    let r : init size (suc n) p ≡ made n =
      if-false p.ready p (made (suc n - 1)) h ∙ ap made (omega arith) in
    subst (λ w. IsPool (λ b. false) w × (w.num_blocks ≡ suc n) × (init size' n' w ≡ w)) (sym r)
      (
        (
          range 0 (suc n),
          Leads-range n 0 n (omega arith),
          range-IsDistinct (suc n) 0,
          All-range (suc n) 0 (suc n) (omega arith),
          λ b lt f. elem-range (suc n) 0 b (omega arith) (omega arith),
        ),
        refl,
        refl,
      )
