-- ===== src/Prelude/Masks.antt =====
-- Masks of low ones, by their width.
use Prim.Native.Nat.{ℕ, zero, suc, ◌+◌, ◌-◌, ◌*◌, ◌/◌, ◌%◌, ◌^◌, ◌<◌, bit_and}
use dog.Prelude.Bits.{bit_and_step, bit_and-zero, pow_two_suc, pow_two_pos}
use mathlib.Core.Path.{◌≡◌, sym, ap, ◌∙◌}
use native.Mathlib.Nat.{div-add-mod', mod-lt, mod-eq_of_lt, mul-add-mod_self_right, mul_assoc}
use native.Mathlib.Omega.{arith}

-- A remainder by twice a number, one digit lower.
mod_double : (a t : ℕ) → 0 < t → a % (t * 2) ≡ a / 2 % t * 2 + a % 2
mod_double a t pos =
    let q = a / 2 / t in
    let r = a / 2 % t in
    let digits : q * t + r ≡ a / 2 = div-add-mod' (a / 2) t in
    let small : r < t = mod-lt (a / 2) pos in
    let whole : q * (t * 2) + (r * 2 + a % 2) ≡ a = omega (arith, mul_assoc q t 2) in
    ap (λ n. n % (t * 2)) (sym whole)
    ∙ mul-add-mod_self_right q (t * 2) (r * 2 + a % 2)
    ∙ mod-eq_of_lt (omega arith)

pub bit_and_mask : (k a : ℕ) → bit_and a (2 ^ k - 1) ≡ a % 2 ^ k
bit_and_mask zero a = omega (arith, bit_and-zero a)
bit_and_mask (suc k) a =
    let t = 2 ^ k in
    let one : 0 < t = pow_two_pos k in
    let double : 2 ^ suc k ≡ t * 2 = omega (arith, pow_two_suc k 1) in
    let half : (2 ^ suc k - 1) / 2 ≡ t - 1 = omega arith in
    let odd : (2 ^ suc k - 1) % 2 ≡ 1 = omega arith in
    let lower : bit_and (a / 2) (t - 1) ≡ a / 2 % t = bit_and_mask k (a / 2) in
    bit_and_step a (2 ^ suc k - 1)
    ∙ rw (half, odd, lower) (omega (arith, mod_double a t one) ∙ ap (λ n. a % n) (sym double))
