-- ===== src/Prelude/Int.antt =====
-- Signed integers over the native numbers, under the library's names: as much as `i64` needs here.
use Prim.Native.Nat.{ℕ, suc, zero, ◌-◌, ◌/◌, ◌%◌}
use dog.Prelude.Tests.{leb, if◌then◌else◌}

-- `negsuc n` is -(n + 1).
pub data ℤ : Type 0 where
  pos : ℕ → ℤ
  negsuc : ℕ → ℤ

abbrev pub neg : ℕ → ℤ
neg zero = pos 0
neg (suc n) = negsuc n

-- a - b, as an integer.
abbrev pub sub_ℕ : ℕ → ℕ → ℤ
sub_ℕ a b = if leb b a then pos (a - b) else negsuc (b - a - 1)

-- Division and remainder by a positive number, both towards zero.
abbrev pub div_trunc : ℤ → ℕ → ℤ
div_trunc (pos n) m = pos (n / m)
div_trunc (negsuc n) m = neg (suc n / m)

abbrev pub mod_trunc : ℤ → ℕ → ℤ
mod_trunc (pos n) m = pos (n % m)
mod_trunc (negsuc n) m = neg (suc n % m)

abbrev pub pos_part : ℤ → ℕ
pos_part (pos n) = n
pos_part (negsuc n) = 0

abbrev pub neg_part : ℤ → ℕ
neg_part (pos n) = 0
neg_part (negsuc n) = suc n
