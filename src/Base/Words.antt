-- ===== src/Base/Words.antt =====
-- Machine words as native numbers, and tables of facts about bytes.
use Prim.Native.Nat.{ℕ, zero, suc, ◌+◌, ◌-◌, ◌%◌, ◌^◌, ◌<◌}
use mathlib.Core.Path.{◌≡◌}
use mathlib.Core.Bool.{Bool, true, ◌&&◌}
use native.Mathlib.Omega.{arith}

-- `uint32_t` addition and subtraction.
abbrev pub add32 : ℕ → ℕ → ℕ
add32 a b = (a + b) % 2 ^ 32

abbrev pub sub32 : ℕ → ℕ → ℕ
sub32 a b = (a + 2 ^ 32 - b) % 2 ^ 32

-- A table: the test at every value below a bound.
unfoldable pub table : (ℕ → Bool) → ℕ → Bool
table test zero = true
table test (suc n) = table test n && test n

-- A test that holds at every value below `n`, by evaluation, holds at each of them.
pub table_sound : (test : ℕ → Bool) (n k : ℕ) → table test n ≡ true → k < n → test k ≡ true
unfolding table
table_sound test zero k h lt = absurd (omega arith)
table_sound test (suc n) k h lt = ground (arith, table_sound test n k)
