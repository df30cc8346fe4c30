-- ===== src/Text/Words.antt =====
-- `%s`, `%[^c]` and single bytes on texts that are put together from parts.
use stream_sight.Base.{
  ℕ, ◌≤◌, ◌<◌, ◌≡◌, refl, ap, Bool, true, false, not, [], ◌∷◌, ◌++◌, if-true, if-false, ltb,
  ltb-false, lt→ltb, ◌==◌, ==_refl, length,
}
use stream_sight.Text.Laws.{Passes, span-all, span-append, skip_space-front}
use stream_sight.Text.Scan.{
  matched, overrun, is_space, set_not, literal, store, word, non_empty, skip_space,
}
use stream_sight.Text.{Text, span}

abbrev pub no_space : ℕ → Bool
no_space c = not (is_space c)

not-true : (b : Bool) → not b ≡ true → b ≡ false
not-true false h = refl
not-true true h = cc

pub word-all : (x : ℕ) (s : Text) → Passes no_space (x ∷ s) → word (x ∷ s) ≡ matched (x ∷ s, [])
unfolding word non_empty
word-all x s (hx, h) =
    rw (skip_space-front x s (not-true (is_space x) hx), span-all no_space (x ∷ s) (hx, h)) refl

pub word-append :
    (x c : ℕ) (s rest : Text)
    → Passes no_space (x ∷ s)
    → no_space c ≡ false
    → word ((x ∷ s) ++ c ∷ rest) ≡ matched (x ∷ s, c ∷ rest)
unfolding word non_empty
word-append x c s rest (hx, h) stop =
    rw
      (
        skip_space-front x (s ++ c ∷ rest) (not-true (is_space x) hx),
        span-append no_space (x ∷ s) c rest (hx, h) stop,
      )
      refl

-- A blank in front is passed over.
pub word_spaced : (s : Text) → word (b' ' ∷ s) ≡ word s
unfolding word skip_space span
word_spaced s = refl

pub set_not-all :
    (c x : ℕ) (s : Text)
    → Passes (λ y. not (y == c)) (x ∷ s)
    → set_not c (x ∷ s) ≡ matched (x ∷ s, [])
unfolding set_not non_empty
set_not-all c x s h = rw (span-all (λ y. not (y == c)) (x ∷ s) h) refl

not_itself : (c : ℕ) → not (c == c) ≡ false
not_itself c = ap not (==_refl c)

pub set_not-append :
    (c x : ℕ) (s rest : Text)
    → Passes (λ y. not (y == c)) (x ∷ s)
    → set_not c ((x ∷ s) ++ c ∷ rest) ≡ matched (x ∷ s, c ∷ rest)
unfolding set_not non_empty
set_not-append c x s rest h =
    rw (span-append (λ y. not (y == c)) (x ∷ s) c rest h (not_itself c)) refl

pub literal-front : (c : ℕ) (s : Text) → literal c (c ∷ s) ≡ matched s
unfolding literal
literal-front c s = rw (==_refl c) refl

pub store-fits :
    (size : ℕ) (w rest : Text) → length w < size → store size (w, rest) ≡ matched (w, rest)
unfolding store
store-fits size w rest h = if-true (ltb (length w) size) _ _ (lt→ltb (length w) size h)

pub store-overrun : (size : ℕ) (w rest : Text) → size ≤ length w → store size (w, rest) ≡ overrun
unfolding store
store-overrun size w rest h = if-false (ltb (length w) size) _ _ (ltb-false (length w) size h)
