-- ===== src/Prelude/Bits.antt =====
-- Masks as arithmetic, at every number: one equation for the lowest digit of `bit_and`, from which
-- a mask of low ones and a test of a single bit follow by recursion on the width.
use Prim.Native.Nat.{ℕ, zero, suc, ◌+◌, ◌*◌, ◌/◌, ◌%◌, ◌^◌, ◌≤◌, ◌<◌}
use Prim.Native.Nat.{min, max, bit_and, bit_or, digits, bit_and-bitwise, bit_or-bitwise}
use mathlib.Core.Path.{◌≡◌, refl, ap, ◌∙◌}
use mathlib.Core.Logic.{◌⊎◌, inl, inr}
use native.Mathlib.Nat.{pow-suc}
use native.Mathlib.Omega.{arith}

at_most_suc : (a b : ℕ) → a ≤ suc b → (a ≤ b) ⊎ (a ≡ suc b)
at_most_suc a b h = ground arith

-- Both operations are one recursion over digits, with `end` for the digits above the first number.
-- It starts with that number as fuel, and more fuel changes nothing.
module _ (end : ℕ → ℕ) (op : ℕ → ℕ → ℕ) where
  digits_enough :
      (left right fuel : ℕ)
      → left ≤ fuel
      → digits end op (suc fuel) left right ≡ digits end op fuel left right
  digits_enough zero right zero small = refl
  digits_enough zero right (suc fuel) small = refl
  digits_enough (suc left) right zero small = absurd (omega arith)
  digits_enough (suc left) right (suc fuel) small =
      ap (λ (high : ℕ). high * 2 + op (suc left % 2) (right % 2))
        (digits_enough (suc left / 2) (right / 2) fuel (omega arith))

  digits_extra :
      (fuel left right : ℕ)
      → left ≤ fuel
      → digits end op fuel left right ≡ digits end op left left right
  digits_extra zero zero right small = refl
  digits_extra zero (suc left) right small = absurd (omega arith)
  digits_extra (suc fuel) left right small = elim (at_most_suc left fuel small) [
    | inl below ↦ digits_enough left right fuel below ∙ digits_extra fuel left right below
    | inr equal ↦ rw equal refl
  ]

  lowest_digit :
      (left right : ℕ)
      → digits end op (suc left) (suc left) right
        ≡ digits end op (suc left / 2) (suc left / 2) (right / 2) * 2
          + op (suc left % 2) (right % 2)
  lowest_digit left right =
      ap (λ (high : ℕ). high * 2 + op (suc left % 2) (right % 2))
        (digits_extra left (suc left / 2) (right / 2) (omega arith))

pub bit_and_step : (a b : ℕ) → bit_and a b ≡ bit_and (a / 2) (b / 2) * 2 + min (a % 2) (b % 2)
bit_and_step zero right = omega (arith, bit_and-bitwise 0 right, bit_and-bitwise 0 (right / 2))
bit_and_step (suc left) right =
    let defined = bit_and-bitwise (suc left / 2) (right / 2) in
    bit_and-bitwise (suc left) right ∙ lowest_digit (λ _. zero) min left right ∙ rw defined refl

bit_or_step : (a b : ℕ) → bit_or a b ≡ bit_or (a / 2) (b / 2) * 2 + max (a % 2) (b % 2)
bit_or_step zero right = omega (arith, bit_or-bitwise 0 right, bit_or-bitwise 0 (right / 2))
bit_or_step (suc left) right =
    let defined = bit_or-bitwise (suc left / 2) (right / 2) in
    bit_or-bitwise (suc left) right ∙ lowest_digit (λ y. y) max left right ∙ rw defined refl

pub zero-bit_or : (b : ℕ) → bit_or 0 b ≡ b
zero-bit_or b = bit_or-bitwise 0 b

-- Zero on the right: nothing is left of `bit_and`, and all of `bit_or`.
right_zero : (bound left : ℕ) → left ≤ bound → (bit_and left 0 ≡ 0) × (bit_or left 0 ≡ left)
right_zero bound zero small = (refl, refl)
right_zero zero (suc left) small = absurd (omega arith)
right_zero (suc bound) (suc left) small =
    let (nothing, everything) = right_zero bound (suc left / 2) (omega arith) in
    (omega (arith, bit_and_step (suc left) 0), omega (arith, bit_or_step (suc left) 0))

pub bit_and-zero : (a : ℕ) → bit_and a 0 ≡ 0
bit_and-zero a = (right_zero a a (omega arith)).0

-- A power of two one digit higher.
pub pow_two_suc : (k q : ℕ) → q * 2 ^ suc k ≡ q * 2 ^ k * 2
pow_two_suc k q = omega (arith, ap (λ (t : ℕ). q * t) (pow-suc 2 k))

pub pow_two_pos : (k : ℕ) → 0 < 2 ^ k
pow_two_pos zero = omega arith
pow_two_pos (suc k) = omega (arith, pow_two_suc k 1, pow_two_pos k)

-- A field put below a multiple of its size is added.
pub bit_or_fields : (k q r : ℕ) → r < 2 ^ k → bit_or (q * 2 ^ k) r ≡ q * 2 ^ k + r
bit_or_fields zero q r h = ground (arith, right_zero q q (omega arith))
bit_or_fields (suc k) q r h = ground (
  arith,
  bit_or_step (q * 2 ^ suc k) r,
  pow_two_suc k q,
  bit_or_fields k q (r / 2) (omega (arith, pow_two_suc k 1)),
)

-- `k` halvings, which `omega` reads at a numeral `k`.
abbrev pub halve : ℕ → ℕ → ℕ
halve zero a = a
halve (suc k) a = halve k (a / 2)

-- A mask of one bit picks that digit.
pub bit_and-two_pow : (k a : ℕ) → bit_and a (2 ^ k) ≡ halve k a % 2 * 2 ^ k
bit_and-two_pow zero a = omega (arith, bit_and_step a 1, bit_and-zero (a / 2))
bit_and-two_pow (suc k) a =
    let double : 2 ^ suc k ≡ 2 ^ k * 2 = omega (arith, pow_two_suc k 1) in
    let half : 2 ^ suc k / 2 ≡ 2 ^ k = omega arith in
    let step : bit_and a (2 ^ suc k) ≡ bit_and (a / 2) (2 ^ k) * 2 =
      bit_and_step a (2 ^ suc k) ∙ rw half (omega arith) in
    step ∙ omega (arith, bit_and-two_pow k (a / 2), pow_two_suc k (halve k (a / 2) % 2))

-- A mask of low bits is a remainder, and one moved up by three is that of the quotient.
pub bit_and_nibble : (a : ℕ) → bit_and a 0b1111 ≡ a % 16
bit_and_nibble a = omega (
  arith,
  bit_and_step a 15,
  bit_and_step (a / 2) 7,
  bit_and_step (a / 2 / 2) 3,
  bit_and_step (a / 2 / 2 / 2) 1,
  bit_and-zero (a / 2 / 2 / 2 / 2),
)

pub bit_and_opcode : (a : ℕ) → bit_and a 0b0111_1000 / 8 ≡ a / 8 % 16
bit_and_opcode a = omega (
  arith,
  bit_and_step a 0x78,
  bit_and_step (a / 2) 0x3c,
  bit_and_step (a / 2 / 2) 0x1e,
  bit_and_nibble (a / 2 / 2 / 2),
)
