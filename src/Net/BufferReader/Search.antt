-- ===== src/Net/BufferReader/Search.antt =====
-- `std::search` and `std::find_end` of the standard library, as offsets into the range.
use stream_sight.Base.{
  ℕ, zero, suc, ◌+◌, ◌≤◌, ◌<◌, ◌≡◌, refl, inl, inr, Bool, true, false, ◌&&◌, Option, none, some,
  List, [], ◌∷◌, if◌then◌else◌, ◌==◌, length, take, drop, arith, Option-cases,
}

unfoldable pub starts_with : List ℕ → List ℕ → Bool
starts_with [] xs = true
starts_with (p ∷ ps) [] = false
starts_with (p ∷ ps) (x ∷ xs) = p == x && starts_with ps xs

-- The first place where the pattern starts.
unfoldable pub search : List ℕ → List ℕ → Option ℕ
search p [] = none
search p (x ∷ xs) =
    let later = elim (search p xs) as (λ o. Option ℕ) [ none ↦ none | some k ↦ some (suc k) ] in
    if starts_with p (x ∷ xs) then some 0 else later

-- The last place where the pattern starts.
unfoldable pub find_end : List ℕ → List ℕ → Option ℕ
find_end p [] = none
find_end p (x ∷ xs) =
    let here = if starts_with p (x ∷ xs) then some 0 else none in
    elim (find_end p xs) as (λ o. Option ℕ) [ none ↦ here | some k ↦ some (suc k) ]

starts_with-take :
    (p xs : List ℕ) → starts_with p xs ≡ true → (take (length p) xs ≡ p) × (length p ≤ length xs)
unfolding starts_with
starts_with-take [] xs h = (refl, omega arith)
starts_with-take (p ∷ ps) [] h = cc
starts_with-take (p ∷ ps) (x ∷ xs) h = ground (arith, starts_with-take ps xs)

module _ (p : List ℕ) (x : ℕ) (xs : List ℕ) (k : ℕ) (found : find_end p (x ∷ xs) ≡ some k) where
  found_here : find_end p xs ≡ none → (k ≡ 0) × (starts_with p (x ∷ xs) ≡ true)
  unfolding find_end
  found_here h = ground arith

  found_later : (j : ℕ) → find_end p xs ≡ some j → k ≡ suc j
  unfolding find_end
  found_later j h = ground arith

-- The pattern stands at the place that is found, within the range.
pub find_end-some :
    (p xs : List ℕ) (k : ℕ)
    → find_end p xs ≡ some k
    → (take (length p) (drop k xs) ≡ p) × (k + length p ≤ length xs)
find_end-some p [] k e = unfold find_end in cc e
find_end-some p (x ∷ xs) k e = elim (Option-cases (find_end p xs)) [
  | inl here ↦
      let f = found_here p x xs k e here in
      let t = starts_with-take p (x ∷ xs) f.1 in rw f.0 (t.0, omega (arith, t.1))
  | inr (j, later) ↦
      let f = found_later p x xs k e j later in
      let ih = find_end-some p xs j later in rw f (ih.0, omega (arith, ih.1))
]

-- It starts nowhere further on; where nothing is found it starts nowhere.
pub find_end-last :
    (p xs : List ℕ) (j : ℕ)
    → j < length xs
    → starts_with p (drop j xs) ≡ true
    → (k : ℕ) × (find_end p xs ≡ some k) × (j ≤ k)
unfolding find_end
find_end-last p [] j h s = absurd (omega arith)
find_end-last p (x ∷ xs) zero h s = elim (Option-cases (find_end p xs)) [
  | inl here ↦ (0, rw (here, s), omega arith)
  | inr (k, later) ↦ (suc k, rw later, omega arith)
]
find_end-last p (x ∷ xs) (suc j) h s =
    let (k, e, le) = find_end-last p xs j (omega arith) s in (suc k, rw e, omega arith)
