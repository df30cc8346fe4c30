-- ===== src/Text/Scan.antt =====
-- The conversions of `sscanf`. A format is the chain of its conversions; a conversion that does not
-- match ends it. An array of `n` bytes holds a word of less than `n` bytes; a longer one is written past the
-- end, which `sscanf` does not prevent. Numbers are read as glibc reads them: `strtoul`, then cut.
use stream_sight.Base.{
  ℕ, ◌+◌, ◌-◌, ◌*◌, ◌%◌, ◌^◌, Bool, true, false, not, ◌&&◌, ◌||◌, [], ◌∷◌, if◌then◌else◌, ltb, leb,
  ◌==◌, length,
}
use stream_sight.Text.{Text, span}

pub data Scanned {ℓ} (A : Type ℓ) : Type ℓ where
  matched : A → Scanned A
  mismatch overrun : Scanned A

infixl 5 ◌>>=◌
abbrev pub ◌>>=◌ {ℓ κ} : {A : Type ℓ} {B : Type κ} → Scanned A → (A → Scanned B) → Scanned B
matched a >>= f = f a
mismatch >>= f = mismatch
overrun >>= f = overrun

abbrev pub is_space : ℕ → Bool
is_space c = c == b' ' || (leb 9 c && leb c 13)

abbrev pub is_digit : ℕ → Bool
is_digit c = leb b'0' c && leb c b'9'

unfoldable pub skip_space : Text → Text
unfolding span
skip_space s = (span is_space s).1

unfoldable pub non_empty : Text × Text → Scanned (Text × Text)
non_empty ([], rest) = mismatch
non_empty (c ∷ w, rest) = matched (c ∷ w, rest)

-- `%[^c]`
unfoldable pub set_not : ℕ → Text → Scanned (Text × Text)
set_not c s = non_empty (span (λ x. not (x == c)) s)

-- `%s`
unfoldable pub word : Text → Scanned (Text × Text)
word s = non_empty (span (λ x. not (is_space x)) (skip_space s))

-- A byte of the format that stands for itself.
unfoldable pub literal : ℕ → Text → Scanned Text
literal c [] = mismatch
literal c (x ∷ s) = if x == c then matched s else mismatch

-- The word is stored in `char dst[size]`, with its NUL.
unfoldable pub store : ℕ → Text × Text → Scanned (Text × Text)
store size (w, rest) = if ltb (length w) size then matched (w, rest) else overrun

unfoldable pub number : ℕ → Text → ℕ × Text
number n [] = (n, [])
number n (c ∷ s) =
    let later = number (n * 10 + (c - b'0')) s in if is_digit c then later else (n, c ∷ s)

unfoldable pub to_width : Bool → ℕ → ℕ → ℕ
to_width negative bits n =
    if ltb (2 ^ 64 - 1) n
    then (2 ^ 64 - 1) % 2 ^ bits
    else if negative
    then (2 ^ 64 - n) % 2 ^ bits
    else n % 2 ^ bits

unfoldable pub magnitude : Bool → ℕ → Text → Scanned (ℕ × Text)
magnitude negative bits [] = mismatch
magnitude negative bits (c ∷ s) =
    let (n, rest) = number 0 (c ∷ s) in
    if is_digit c then matched (to_width negative bits n, rest) else mismatch

unfoldable pub signed : ℕ → Text → Scanned (ℕ × Text)
signed bits [] = mismatch
signed bits (c ∷ s) =
    if c == b'-'
    then magnitude true bits s
    else if c == b'+'
    then magnitude false bits s
    else magnitude false bits (c ∷ s)

-- `%u` with 32 bits, `%hu` with 16.
unfoldable pub unsigned : ℕ → Text → Scanned (ℕ × Text)
unsigned bits s = signed bits (skip_space s)
