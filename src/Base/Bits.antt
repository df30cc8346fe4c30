-- ===== src/Base/Bits.antt =====
-- `&`, `|` and `<<` on words: parts that share no binary digit add up.
use Prim.Native.Nat.{
  ℕ, zero, suc, ◌+◌, ◌*◌, ◌/◌, ◌%◌, ◌^◌, ◌≤◌, ◌<◌, max, min, bit_or, bit_and, digits,
  bit_or-bitwise, bit_and-bitwise,
}
use mathlib.Core.Path.{◌≡◌, refl, sym, ◌∙◌}
use native.Mathlib.Nat.{pow-suc}
use native.Mathlib.Omega.{arith}

abbrev or_digits : ℕ → ℕ → ℕ → ℕ
or_digits = digits (λ y. y) max

-- `n` digits are enough for a first number up to `n`.
or_digits-eq-bit_or : (k n a b : ℕ) → n ≤ k → a ≤ n → or_digits n a b ≡ bit_or a b
or_digits-eq-bit_or k n zero b p q = no_digits n
  where
    no_digits : (m : ℕ) → or_digits m 0 b ≡ bit_or 0 b
    no_digits zero = sym (bit_or-bitwise 0 b)
    no_digits (suc m) = sym (bit_or-bitwise 0 b)
or_digits-eq-bit_or k zero (suc a) b p q = absurd (omega arith)
or_digits-eq-bit_or zero (suc n) (suc a) b p q = absurd (omega arith)
or_digits-eq-bit_or (suc k) (suc n) (suc a) b p q =
    let c = suc a / 2 in
    let left = or_digits-eq-bit_or k n c (b / 2) (omega arith) (omega arith) in
    let right = or_digits-eq-bit_or k a c (b / 2) (omega arith) (omega arith) in
    omega (arith, bit_or-bitwise (suc a) b)

-- The lowest digit, and the rest.
bit_or_lowest : (a b : ℕ) → bit_or a b ≡ bit_or (a / 2) (b / 2) * 2 + max (a % 2) (b % 2)
bit_or_lowest zero b = omega (arith, bit_or-bitwise 0 b, bit_or-bitwise 0 (b / 2))
bit_or_lowest (suc a) b =
    let rest = or_digits-eq-bit_or a a (suc a / 2) (b / 2) (omega arith) (omega arith) in
    omega (arith, bit_or-bitwise (suc a) b)

-- By halving, `n` bounding the number.
zero_right : (n a : ℕ) → a ≤ n → bit_or a 0 ≡ a
zero_right n zero h = refl
zero_right (suc n) (suc a) h =
    let halved = zero_right n (suc a / 2) (omega arith) in omega (arith, bit_or_lowest (suc a) 0)
zero_right zero (suc a) h = absurd (omega arith)

pub bit_or-zero : (a : ℕ) → bit_or a 0 ≡ a
bit_or-zero a = zero_right a a (omega arith)

-- (a << k) | b is a sum where b fits in k bits.
pub bit_or-shifted : (k a b : ℕ) → b < 2 ^ k → bit_or (a * 2 ^ k) b ≡ a * 2 ^ k + b
bit_or-shifted zero a zero h = omega (arith, bit_or-zero (a * 1))
bit_or-shifted zero a (suc b) h = absurd (omega arith)
bit_or-shifted (suc k) a b h =
    let m = a * 2 ^ k in
    let e : a * 2 ^ suc k ≡ m * 2 = rw (pow-suc 2 k) (omega arith) in
    let half : m * 2 / 2 ≡ m = omega arith in
    let low : m * 2 % 2 ≡ 0 = omega arith in
    let bound : b / 2 < 2 ^ k = let h' : b < 2 ^ k * 2 = rw (pow-suc 2 k) at h in omega arith in
    let ih = bit_or-shifted k a (b / 2) bound in
    let step = bit_or_lowest (m * 2) b in rw e (rw (half, low, ih) at step ∙ omega arith)

abbrev and_digits : ℕ → ℕ → ℕ → ℕ
and_digits = digits (λ b. zero) min

and_digits_le : (n a b : ℕ) → and_digits n a b ≤ b
and_digits_le zero a b = omega arith
and_digits_le (suc n) zero b = omega arith
and_digits_le (suc n) (suc a) b = omega (arith, and_digits_le n (suc a / 2) (b / 2))

and_digits_even : (n a b : ℕ) → b % 2 ≡ 0 → and_digits n a b % 2 ≡ 0
and_digits_even zero a b h = refl
and_digits_even (suc n) zero b h = refl
and_digits_even (suc n) (suc a) b h = omega arith

-- A mask bounds what it lets through, and a mask with lowest digit 0 lets an even number through.
pub bit_and_le : (a b : ℕ) → bit_and a b ≤ b
bit_and_le a b = omega (arith, bit_and-bitwise a b, and_digits_le a a b)

pub bit_and_even : (a b : ℕ) → b % 2 ≡ 0 → bit_and a b % 2 ≡ 0
bit_and_even a b h = rw (bit_and-bitwise a b) (and_digits_even a a b h)
