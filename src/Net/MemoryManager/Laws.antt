-- ===== src/Net/MemoryManager/Laws.antt =====
-- Which blocks of a pool of src/net/MemoryManager.cpp are free, and what an allocation gives.
use stream_sight.Base.{
  inl, inr, ◌⊎◌, ℕ, zero, suc, ◌≤◌, ◌<◌, ◌≡◌, refl, sym, ap, ◌∙◌, Bool, true, false, false≢true,
  Bool-cases, Option, none, some, Option-cases, List, [], ◌∷◌, if◌then◌else◌, leb, if-true,
  if-false, subst, ==_false→ne, ◌==◌, ==_refl, ==→eq, ne→==_false, All, arith,
}
use stream_sight.Net.MemoryManager.{
  MemoryPool, pooled, system, link, alloc, free, MemoryManager, alloc_from,
}

abbrev pub elem : ℕ → List ℕ → Bool
elem b [] = false
elem b (x ∷ xs) = if x == b then true else elem b xs

abbrev pub IsDistinct : List ℕ → Type 0
IsDistinct [] = Unit {0}
IsDistinct (x ∷ xs) = (elem x xs ≡ false) × IsDistinct xs

-- The links lead from the head through the blocks of the list and end there.
abbrev pub Leads : Option ℕ → (ℕ → Option ℕ) → List ℕ → Type 0
Leads head next [] = head ≡ none
Leads head next (b ∷ bs) = (head ≡ some b) × Leads (next b) next bs

-- The free list holds, once each, exactly the blocks of the pool that are not in use.
abbrev pub IsPool : (ℕ → Bool) → MemoryPool → Type 0
IsPool used p =
    (blocks : List ℕ) × Leads p.head p.next blocks
    × IsDistinct blocks
    × All (λ b. (b < p.num_blocks) × (used b ≡ false)) blocks
    × ((b : ℕ) → b < p.num_blocks → used b ≡ false → elem b blocks ≡ true)

abbrev pub mark : ℕ → Bool → (ℕ → Bool) → ℕ → Bool
mark b u used k = if k == b then u else used k

-- A new link of a block outside the list changes nothing for it.
Leads-link :
    (b : ℕ) (o head : Option ℕ) (next : ℕ → Option ℕ) (blocks : List ℕ)
    → elem b blocks ≡ false
    → Leads head next blocks
    → Leads head (link b o next) blocks
Leads-link b o head next [] e l = l
Leads-link b o head next (x ∷ xs) e (h, l) = elim (Bool-cases (x == b)) [
  | inl same ↦ absurd (false≢true (sym e ∙ if-true (x == b) true (elem b xs) same))
  | inr other ↦
      let out : elem b xs ≡ false = sym (if-false (x == b) true (elem b xs) other) ∙ e in
      (h, rw (if-false (x == b) o (next x) other) (Leads-link b o (next x) next xs out l))
]

-- Marking a block outside the list.
All-mark :
    (n b : ℕ) (u : Bool) (used : ℕ → Bool) (blocks : List ℕ)
    → elem b blocks ≡ false
    → All (λ k. (k < n) × (used k ≡ false)) blocks
    → All (λ k. (k < n) × (mark b u used k ≡ false)) blocks
All-mark n b u used [] e a = tt
All-mark n b u used (x ∷ xs) e a = ground (arith, All-mark n b u used xs)

-- A block in use is not on the free list.
elem-used :
    (n b : ℕ) (used : ℕ → Bool) (blocks : List ℕ)
    → used b ≡ true
    → All (λ k. (k < n) × (used k ≡ false)) blocks
    → elem b blocks ≡ false
elem-used n b used [] u a = refl
elem-used n b used (x ∷ xs) u (x_free, a) = elim (Bool-cases (x == b)) [
  | inl same ↦ absurd (false≢true (sym x_free.1 ∙ ap used (==→eq x b same) ∙ u))
  | inr other ↦ if-false (x == b) true (elem b xs) other ∙ elem-used n b used xs u a
]

on_none :
    (o : Option ℕ) (x : MemoryPool × Option ℕ) (f : ℕ → MemoryPool × Option ℕ)
    → o ≡ none
    → (elim o [ none ↦ x | some b ↦ f b ]) ≡ x
on_none o x f h = rw h refl

on_some :
    (o : Option ℕ) (b : ℕ) (x : MemoryPool × Option ℕ) (f : ℕ → MemoryPool × Option ℕ)
    → o ≡ some b
    → (elim o [ none ↦ x | some k ↦ f k ]) ≡ f b
on_some o b x f h = rw h refl

-- Alloc on a pool whose free list is exact takes a block of the pool that is not in use, and the free
-- list is exact with that block in use; or every block is in use, it fails and changes nothing.
pub alloc-IsPool :
    (used : ℕ → Bool) (p : MemoryPool)
    → IsPool used p
    → let (p', block) = alloc p in
      ((b : ℕ) × (block ≡ some b)
        × (b < p.num_blocks)
        × (used b ≡ false)
        × IsPool (mark b true used) p')
      ⊎ ((block ≡ none) × (p' ≡ p) × ((b : ℕ) → b < p.num_blocks → used b ≡ true))
unfolding alloc
alloc-IsPool used p ([], e, d, a, all) =
    let r = on_none p.head (p, none) (λ b. (record p { head = p.next b }, some b)) e in
    inr (
      ap (λ w. w.1) r,
      ap (λ w. w.0) r,
      λ b lt. elim (Bool-cases (used b)) [
        | inl yes' ↦ yes'
        | inr no' ↦ absurd (false≢true (all b lt no'))
      ],
    )
alloc-IsPool used p (b ∷ bs, l, d, a, all) =
    let r : alloc p ≡ (record p { head = p.next b }, some b) =
      on_some p.head b (p, none) (λ k. (record p { head = p.next k }, some k)) l.0 in
    let rest : IsPool (mark b true used) (record p { head = p.next b }) = (
      bs,
      l.1,
      d.1,
      All-mark p.num_blocks b true used bs d.0 a.1,
      λ k lt un. elim (Bool-cases (k == b)) [
        | inl same ↦ absurd (false≢true (sym un ∙ if-true (k == b) true (used k) same))
        | inr other ↦
            let un' = sym (if-false (k == b) true (used k) other) ∙ un in
            let ne = ==_false→ne k b other in
            sym (if-false (b == k) true (elem k bs) (ne→==_false b k (λ e. ne (sym e))))
            ∙ all k lt un'
      ],
    ) in
    inl (b, ap (λ w. w.1) r, a.0.0, a.0.1, subst (λ w. IsPool (mark b true used) w.0) (sym r) rest)

-- Free of a block that is in use, on a pool whose free list is exact: the free list is exact without
-- that block in use, and the next Alloc returns that very block.
pub free-IsPool :
    (used : ℕ → Bool) (p : MemoryPool) (b : ℕ)
    → IsPool used p
    → b < p.num_blocks
    → used b ≡ true
    → IsPool (mark b false used) (free b p) × ((alloc (free b p)).1 ≡ some b)
unfolding free alloc
free-IsPool used p b (blocks, l, d, a, all) lt u =
    let out = elem-used p.num_blocks b used blocks u a in
    (
      (
        b ∷ blocks,
        (
          refl,
          rw (if-true (b == b) p.head (p.next b) (==_refl b))
              (Leads-link b p.head p.head p.next blocks out l),
        ),
        (out, d),
        (
          (lt, if-true (b == b) false (used b) (==_refl b)),
          All-mark p.num_blocks b false used blocks out a,
        ),
        λ k lt' un. elim (Bool-cases (b == k)) [
          | inl same ↦ if-true (b == k) true (elem k blocks) same
          | inr other ↦
              let ne = ==_false→ne b k other in
              let un' =
                sym (if-false (k == b) false (used k) (ne→==_false k b (λ e. ne (sym e)))) ∙ un in
              if-false (b == k) true (elem k blocks) other ∙ all k lt' un'
        ],
      ),
      refl,
    )

-- MemoryManager::Alloc hands out room for what was asked: a block of a pool whose blocks are at least
-- that large, which that pool's Alloc took, or that much from the system; and no pool before that one
-- has blocks large enough.
pub alloc_from_lem :
    (left n size : ℕ) (m : MemoryManager)
    → let (m', pointer) = alloc_from left n size m in
      ((k : ℕ) × (b : ℕ) × (pointer ≡ pooled k b)
        × (size ≤ (m k).block_size)
        × ((alloc (m k)).1 ≡ some b)
        × ((j : ℕ) → n ≤ j → j < k → (m j).block_size < size))
      ⊎ ((pointer ≡ system size) × (m' ≡ m))
unfolding alloc_from
alloc_from_lem zero n size m = inr (refl, refl)
alloc_from_lem (suc left) n size m = elim (Bool-cases (leb size (m n).block_size)) [
  | inl fits ↦ elim (Option-cases (alloc (m n)).1) [
    | inl empty ↦ rw (fits, empty, alloc_from) (inr (refl, refl))
    | inr (b, found) ↦
        rw (fits, found, alloc_from)
          (inl (n, b, refl, ground arith, found, λ j le lt. absurd (omega arith)))
  ]
  | inr small ↦ elim (alloc_from_lem left (suc n) size m) [
    | inl (k, b, e, room, found, least) ↦
        rw (small, alloc_from)
          (inl (
            k,
            b,
            e,
            room,
            found,
            λ j le lt. elim (Bool-cases (n == j)) [
              | inl same ↦ subst (λ i. (m i).block_size < size) (==→eq n j same) (ground arith)
              | inr other ↦ let ne = ==_false→ne n j other in least j (omega arith) lt
            ],
          ))
    | inr none_left ↦ rw (small, alloc_from) (inr none_left)
  ]
]
