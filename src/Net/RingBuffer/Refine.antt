-- ===== src/Net/RingBuffer/Refine.antt =====
-- Each call on a valid ring buffer does to its contents what the call of `Queue` does.
use stream_sight.Base.{
  ℕ, zero, suc, ◌+◌, ◌-◌, ◌≤◌, ◌<◌, ◌≡◌, refl, ap, ap₂, ◌⊎◌, inl, inr, true, false, List, [], ◌∷◌,
  ◌++◌, ltb, leb, ltb→lt, get_or, set, length, get_or-set_self, get_or-set_ne, arith, Bool-cases,
}
use stream_sight.Net.RingBuffer.{
  RingBuffer, accepted, old_dropped, advance, store, remove, oldest, push, pop, push_overwrite,
  peek_oldest, push_or_drop,
}
use stream_sight.Net.RingBuffer.Inv.{IsValid, advance_cases, store-IsValid, remove-IsValid}
use stream_sight.Net.RingBuffer.Queue

module _ {A : Type 0} (d : A) where
  -- `n` entries of the buffer from position `p` on.
  unfoldable pub entries : List A → ℕ → ℕ → ℕ → List A
  entries buf c p zero = []
  entries buf c p (suc n) = get_or buf p d ∷ entries buf c (advance c p) n

  unfoldable pub contents : RingBuffer A → List A
  contents r = entries r.buffer r.capacity r.get_pos r.num_datas

  length-entries : (buf : List A) (c p n : ℕ) → length (entries buf c p n) ≡ n
  unfolding entries
  length-entries buf c p zero = refl
  length-entries buf c p (suc n) = ap suc (length-entries buf c (advance c p) n)

  pub length-contents : (r : RingBuffer A) → length (contents r) ≡ r.num_datas
  unfolding contents
  length-contents r = length-entries r.buffer r.capacity r.get_pos r.num_datas

  -- Writing at the slot behind `n < c` entries appends.
  entries-set :
      (buf : List A) (c p n i : ℕ) (x : A)
      → c ≤ length buf
      → p < c
      → i < c
      → n < c
      → (p + n ≡ i) ⊎ (p + n ≡ i + c)
      → entries (set buf i x) c p (suc n) ≡ entries buf c p n ++ (x ∷ [])
  unfolding entries
  entries-set buf c p zero i x l hp hi hn at =
      let e : p ≡ i = omega arith in rw (e, get_or-set_self buf i x d (omega arith))
  entries-set buf c p (suc n) i x l hp hi hn at =
      let next = advance_cases c p hp in
      ap₂ ◌∷◌ (get_or-set_ne buf x d (omega arith))
        (entries-set buf c (advance c p) n i x l (omega arith) hi (omega arith) (omega arith))

  pub contents-store :
      {r : RingBuffer A} (x : A)
      → IsValid r
      → r.num_datas < r.capacity
      → contents (store r x) ≡ contents r ++ (x ∷ [])
  unfolding contents store
  contents-store {r} x v h =
      let e : r.num_datas + 1 ≡ suc r.num_datas = omega arith in
      rw e (
        entries-set r.buffer r.capacity r.get_pos r.num_datas r.put_pos x (omega arith) v.get_in
          v.put_in h v.apart)

  entries_first :
      (buf : List A) (c p n : ℕ)
      → 0 < n
      → entries buf c p n ≡ get_or buf p d ∷ entries buf c (advance c p) (n - 1)
  unfolding entries
  entries_first buf c p zero h = absurd (omega arith)
  entries_first buf c p (suc n) h =
      ap (λ k. get_or buf p d ∷ entries buf c (advance c p) k) (omega arith)

  pub contents_first :
      (r : RingBuffer A) → 0 < r.num_datas → contents r ≡ oldest d r ∷ contents (remove r)
  unfolding contents remove oldest
  contents_first r h = entries_first r.buffer r.capacity r.get_pos r.num_datas h

  pub contents_none : (r : RingBuffer A) → r.num_datas ≡ 0 → contents r ≡ []
  unfolding contents entries
  contents_none r e = rw (ap (λ n. entries r.buffer r.capacity r.get_pos n) e)

  pub push_refines :
      {r : RingBuffer A} (x : A)
      → IsValid r
      → let (r', pushed) = push r x in
        IsValid r' × ((contents r', pushed) ≡ Queue.push r.capacity (contents r) x)
  unfolding push Queue.push
  push_refines {r} x v = rw (length-contents r) (elim (Bool-cases (ltb r.num_datas r.capacity)) [
    | inl yes' ↦
        let h = ltb→lt r.num_datas r.capacity yes' in
        rw yes' (store-IsValid x v h, ap (λ q. (q, true)) (contents-store x v h))
    | inr no' ↦ rw no' (v, refl)
  ])

  pub pop_refines :
      {r : RingBuffer A}
      → IsValid r
      → let (r', x) = pop d r in IsValid r' × ((contents r', x) ≡ Queue.pop (contents r))
  unfolding pop Queue.pop
  pop_refines {r} v = elim (Bool-cases (ltb 0 r.num_datas)) [
    | inl yes' ↦
        let h = ltb→lt 0 r.num_datas yes' in
        rw (yes', contents_first r h) (remove-IsValid v h, refl)
    | inr no' ↦ let e : r.num_datas ≡ 0 = ground arith in rw (no', contents_none r e) (v, refl)
  ]

  pub peek_oldest_refines : (r : RingBuffer A) → peek_oldest d r ≡ Queue.peek (contents r)
  unfolding peek_oldest Queue.pop
  peek_oldest_refines r = elim (Bool-cases (leb r.num_datas 0)) [
    | inl empty ↦ let e : r.num_datas ≡ 0 = ground arith in rw (empty, contents_none r e)
    | inr more ↦ let h : 0 < r.num_datas = ground arith in rw (more, contents_first r h)
  ]

  pub push_overwrite_refines :
      {r : RingBuffer A} (x : A)
      → IsValid r
      → let (r', pushed) = push_overwrite r x in
        IsValid r' × ((contents r', pushed) ≡ Queue.push_overwrite r.capacity (contents r) x)
  unfolding push_overwrite Queue.push_overwrite Queue.pop
  push_overwrite_refines {r} x v =
      rw (length-contents r) (elim (Bool-cases (ltb r.num_datas r.capacity)) [
        | inl yes' ↦
            let h = ltb→lt r.num_datas r.capacity yes' in
            let e : leb r.capacity r.num_datas ≡ false = ground arith in
            rw (yes', e) (store-IsValid x v h, ap (λ q. (q, true)) (contents-store x v h))
        | inr no' ↦
            let h : 0 < r.num_datas = ground arith in
            let e : leb r.capacity r.num_datas ≡ true = ground arith in
            let w = remove-IsValid v h in
            let room : (remove r).num_datas < (remove r).capacity = unfold remove in ground arith in
            rw (no', e, contents_first r h)
              (store-IsValid x w room, ap (λ q. (q, true)) (contents-store x w room))
      ])

  -- Dropping the oldest entry writes the new one over it: in a full buffer the two positions meet.
  replace_oldest : RingBuffer A → A → RingBuffer A
  replace_oldest r x = record r {
    buffer = set r.buffer r.get_pos x;
    get_pos = advance r.capacity r.get_pos;
    put_pos = advance r.capacity r.put_pos;
  }

  replace_oldest-eq :
      {r : RingBuffer A} (x : A)
      → IsValid r
      → r.num_datas ≡ r.capacity
      → replace_oldest r x ≡ store (remove r) x
  unfolding replace_oldest store remove
  replace_oldest-eq {r} x v full =
      let e : r.put_pos ≡ r.get_pos = ground arith in
      let n : r.num_datas - 1 + 1 ≡ r.num_datas = omega (arith, v.has_room) in ground arith

  pub push_or_drop_refines :
      {r : RingBuffer A} (x : A) (now_us max_age_us : ℕ) (timestamp : A → ℕ)
      → IsValid r
      → let (r', status) = push_or_drop d r x now_us max_age_us timestamp in
        IsValid r'
        × ((contents r', status)
            ≡ Queue.push_or_drop r.capacity (contents r) x now_us max_age_us timestamp)
  unfolding push_or_drop Queue.push_or_drop Queue.replace_old replace_oldest
  push_or_drop_refines {r} x now_us max_age_us timestamp v =
      rw (length-contents r) (elim (Bool-cases (ltb r.num_datas r.capacity)) [
        | inl yes' ↦
            let h = ltb→lt r.num_datas r.capacity yes' in
            rw yes' (store-IsValid x v h, ap (λ q. (q, accepted)) (contents-store x v h))
        | inr no' ↦
            let full : r.num_datas ≡ r.capacity = ground arith in
            let h : 0 < r.num_datas = omega arith in
            let w = remove-IsValid v h in
            let room : (remove r).num_datas < (remove r).capacity = unfold remove in omega arith in
            elim (Bool-cases (ltb (max_age_us + timestamp (oldest d r)) now_us)) [
              | inl old ↦
                  rw (no', old, contents_first r h, old, replace_oldest-eq x v full)
                    (store-IsValid x w room, ap (λ q. (q, old_dropped)) (contents-store x w room))
              | inr young ↦ rw (no', young, contents_first r h, young) (v, refl)
            ]
      ])
