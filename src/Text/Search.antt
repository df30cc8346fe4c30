-- ===== src/Text/Search.antt =====
-- Where a pattern is found in a text that is put together from parts.
use stream_sight.Base.{
  ℕ, suc, ◌+◌, ◌≡◌, refl, ap, ◌∙◌, sym, Bool, true, false, not, Option, none, some, [], ◌∷◌, ◌++◌,
  ◌==◌, length, arith, inl, inr, Bool-cases,
}
use stream_sight.Net.BufferReader.Search.{starts_with, search, find_end}
use stream_sight.Text.{Text, contains}
use stream_sight.Text.Laws.{Passes}

abbrev pub shift : ℕ → Option ℕ → Option ℕ
shift n none = none
shift n (some k) = some (n + k)

abbrev pub is_not : ℕ → ℕ → Bool
is_not p c = not (c == p)

starts_with-other :
    (p c : ℕ) (ps s : Text) → is_not p c ≡ true → starts_with (p ∷ ps) (c ∷ s) ≡ false
unfolding starts_with
starts_with-other p c ps s h = ground arith

later-shift :
    (o : Option ℕ) → (elim o as (λ o. Option ℕ) [ none ↦ none | some k ↦ some (suc k) ]) ≡ shift 1 o
later-shift none = refl
later-shift (some k) = ap some (omega arith)

search-cons :
    (p : Text) (x : ℕ) (s : Text)
    → starts_with p (x ∷ s) ≡ false
    → search p (x ∷ s) ≡ shift 1 (search p s)
unfolding search
search-cons p x s h = rw h (later-shift (search p s))

shift-shift : (n : ℕ) (o : Option ℕ) → shift 1 (shift n o) ≡ shift (suc n) o
shift-shift n none = refl
shift-shift n (some k) = ap some (omega arith)

shift-zero : (o : Option ℕ) → o ≡ shift 0 o
shift-zero none = refl
shift-zero (some k) = ap some (omega arith)

-- Bytes in front that are none of them the pattern's first are passed over.
pub search-skip :
    (p : ℕ) (ps xs s : Text)
    → Passes (is_not p) xs
    → search (p ∷ ps) (xs ++ s) ≡ shift (length xs) (search (p ∷ ps) s)
search-skip p ps [] s h = shift-zero (search (p ∷ ps) s)
search-skip p ps (x ∷ xs) s (hx, h) =
    search-cons (p ∷ ps) x (xs ++ s) (starts_with-other p x ps (xs ++ s) hx)
    ∙ ap (shift 1) (search-skip p ps xs s h)
    ∙ shift-shift (length xs) (search (p ∷ ps) s)

starts_with-itself : (p s : Text) → starts_with p (p ++ s) ≡ true
unfolding starts_with
starts_with-itself [] s = refl
starts_with-itself (x ∷ p) s = ground (arith, starts_with-itself p s)

-- A pattern in front is found there.
pub search-front : (p : ℕ) (ps s : Text) → search (p ∷ ps) ((p ∷ ps) ++ s) ≡ some 0
unfolding search
search-front p ps s = rw (starts_with-itself (p ∷ ps) s) refl

starts_with-nil : (p : ℕ) (ps : Text) → starts_with (p ∷ ps) [] ≡ false
unfolding starts_with
starts_with-nil p ps = refl

pub find_end-nil : (p : Text) → find_end p [] ≡ none
unfolding find_end
find_end-nil p = refl

find_end-later : (p s : Text) (x k : ℕ) → find_end p s ≡ some k → find_end p (x ∷ s) ≡ some (suc k)
unfolding find_end
find_end-later p s x k h = rw h refl

-- The last place of CR LF is the end of a text that ends in it.
pub find_end-crlf : (s : Text) → find_end (13 ∷ 10 ∷ []) (s ++ 13 ∷ 10 ∷ []) ≡ some (length s)
find_end-crlf [] = unfold find_end in (unfold starts_with in refl)
find_end-crlf (x ∷ s) =
    find_end-later (13 ∷ 10 ∷ []) (s ++ 13 ∷ 10 ∷ []) x (length s) (find_end-crlf s)

found_at_front : (o : Option ℕ) (k : ℕ) → shift 1 o ≡ some k → (j : ℕ) × (o ≡ some j) × (k ≡ suc j)
found_at_front none k h = cc
found_at_front (some j) k h = (j, refl, ground arith)

starts_with-ends : (p s : Text) → starts_with p s ≡ true → (rest : Text) × (s ≡ p ++ rest)
unfolding starts_with
starts_with-ends [] s h = (s, refl)
starts_with-ends (x ∷ p) [] h = cc
starts_with-ends (x ∷ p) (y ∷ s) h =
    let both : (x ≡ y) × (starts_with p s ≡ true) = ground arith in
    let (rest, e) = starts_with-ends p s both.1 in (rest, rw (both.0, e) refl)

front_at :
    (p : Text) (x : ℕ) (s : Text) (k : ℕ)
    → starts_with p (x ∷ s) ≡ true
    → search p (x ∷ s) ≡ some k
    → 0 ≡ k
unfolding search
front_at p x s k here h = let e = rw here at h in ground arith

-- The pattern stands where it is found.
pub search-some :
    (p s : Text) (k : ℕ)
    → search p s ≡ some k
    → (front rest : Text) × (s ≡ front ++ (p ++ rest)) × (length front ≡ k)
search-some p [] k h = unfold search in cc
search-some p (x ∷ s) k h = elim (Bool-cases (starts_with p (x ∷ s))) [
  | inl here ↦
      let (rest, e) = starts_with-ends p (x ∷ s) here in ([], rest, e, front_at p x s k here h)
  | inr later ↦
      let (j, found, e) = found_at_front (search p s) k (sym (search-cons p x s later) ∙ h) in
      let (front, rest, whole, at) = search-some p s j found in
      (x ∷ front, rest, ap (◌∷◌ x) whole, rw e (ap suc at))
]

pub find_end-append :
    (p xs s : Text) (k : ℕ) → find_end p s ≡ some k → (j : ℕ) × (find_end p (xs ++ s) ≡ some j)
find_end-append p [] s k h = (k, h)
find_end-append p (x ∷ xs) s k h =
    let (j, e) = find_end-append p xs s k h in (suc j, find_end-later p (xs ++ s) x j e)

pub contains-none : (p s : Text) → search p s ≡ none → contains p s ≡ false
unfolding contains
contains-none p s h = rw (h, contains) refl
