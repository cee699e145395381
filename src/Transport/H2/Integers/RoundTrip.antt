-- ===== src/Transport/H2/Integers/RoundTrip.antt =====
-- An integer that was encoded is read back, with the number of bytes that it takes.
use dog.Prelude.{
  ℕ, zero, suc, ◌+◌, ◌-◌, ◌*◌, ◌/◌, ◌%◌, ◌^◌, ◌≤◌, ◌<◌, ◌≡◌, refl, ap, ◌∙◌, inl, inr, Bool, true,
  false, not, ◌&&◌, Bool-cases, List, ◌++◌, arith,
}
use dog.Prelude.{
  zero-bit_or, bit_and, bit_or, bit_and_mask, bit_and-two_pow, pow_two_suc, ◌==◌, leb, ltb, leb→le,
  leb→gt, ltb→lt, ltb→ge, length,
}
use native.Mathlib.Nat.{mod-eq_of_lt}
use dog.Transport.Errors.{ok}
use dog.Transport.H2.Integers.{low_byte, more_bytes, integer, read_more, read_integer}

-- Every number below a bound passes a test, by evaluation.
unfoldable pub passes : ℕ → (ℕ → Bool) → Bool
passes zero test = true
passes (suc n) test = test n && passes n test

pub passes_lem : (n : ℕ) (test : ℕ → Bool) (x : ℕ) → passes n test ≡ true → x < n → test x ≡ true
unfolding passes
passes_lem zero test x h l = absurd (omega arith)
passes_lem (suc n) test x h l = ground (arith, passes_lem n test x)

-- The continuation bit above a digit of seven bits.
abbrev continues : ℕ → Bool
continues x = bit_and (bit_or x 0x80) 0x7f == x % 128 && not (bit_and (bit_or x 0x80) 0x80 == 0)

continues_all : passes 256 continues ≡ true
unfolding passes
continues_all = refl

continue_byte :
    (x : ℕ)
    → x < 256
    → (bit_and (bit_or x 0x80) 0x7f ≡ x % 128) × ((bit_and (bit_or x 0x80) 0x80 == 0) ≡ false)
continue_byte x h = let all = passes_lem 256 continues x continues_all h in ground arith

last_byte : (x : ℕ) → x < 128 → (bit_and x 0x7f ≡ x) × ((bit_and x 0x80 == 0) ≡ true)
last_byte x h =
    let low : bit_and x (2 ^ 7 - 1) ≡ x % 2 ^ 7 = bit_and_mask 7 x in
    let high : bit_and x (2 ^ 7) ≡ x / 2 / 2 / 2 / 2 / 2 / 2 / 2 % 2 * 2 ^ 7 =
      bit_and-two_pow 7 x in
    (omega arith, ground arith)

weight_suc : (u : ℕ) → 2 ^ (7 * suc u) ≡ 2 ^ (7 * u) * 128
weight_suc u =
    let e : 7 * suc u ≡ suc (suc (suc (suc (suc (suc (suc (7 * u))))))) = omega arith in
    rw e (
      omega (
        arith,
        pow_two_suc (7 * u) 64,
        pow_two_suc (suc (7 * u)) 32,
        pow_two_suc (suc (suc (7 * u))) 16,
        pow_two_suc (suc (suc (suc (7 * u)))) 8,
        pow_two_suc (suc (suc (suc (suc (7 * u))))) 4,
        pow_two_suc (suc (suc (suc (suc (suc (7 * u)))))) 2,
        pow_two_suc (suc (suc (suc (suc (suc (suc (7 * u))))))) 1,
      ))

digit_sum : (r m : ℕ) → r % 128 * m + r / 128 * (m * 128) ≡ r * m
digit_sum r m =
    let e : r % 128 + r / 128 * 128 ≡ r = omega arith in omega (arith, ap (λ (t : ℕ). t * m) e)

weight_half : (left r : ℕ) → r < 2 ^ (7 * suc left) → r / 128 < 2 ^ (7 * left)
weight_half left r h = omega (arith, weight_suc left)

-- The rounds that read a number back from the bytes behind its prefix.
read_more_at :
    (left u fuel value r : ℕ) (rest : List ℕ)
    → r < 2 ^ (7 * suc left)
    → r < fuel
    → read_more (suc left) (suc u) value (more_bytes fuel r ++ rest)
      ≡ ok (value + r * 2 ^ (7 * u), suc u + length (more_bytes fuel r))
unfolding read_more more_bytes
read_more_at left u zero value r rest small enough = absurd (omega arith)
read_more_at zero u (suc fuel) value r rest small enough = elim (Bool-cases (leb 0x80 r)) [
  | inl more ↦ absurd (omega (arith, leb→le 128 r more))
  | inr last ↦
      let (low, high) = last_byte r (leb→gt 128 r last) in
      let same : low_byte r ≡ r = omega (arith, leb→gt 128 r last) in
      let index : suc u - 1 ≡ u = omega arith in rw (last, same, low, high, index) refl
]
read_more_at (suc left) u (suc fuel) value r rest small enough = elim (Bool-cases (leb 0x80 r)) [
  | inl more ↦
      let (low, high) = continue_byte (low_byte r) (omega arith) in
      let next =
        read_more_at left (suc u) fuel (value + r % 128 * 2 ^ (7 * u)) (r / 128) rest
          (weight_half (suc left) r small) (omega (arith, leb→le 128 r more)) in
      let low' : bit_and (bit_or (low_byte r) 0x80) 0x7f ≡ r % 128 = low ∙ omega arith in
      let sum : value + r % 128 * 2 ^ (7 * u) + r / 128 * 2 ^ (7 * suc u)
          ≡ value + r * 2 ^ (7 * u) =
        rw (weight_suc u) (omega (arith, digit_sum r (2 ^ (7 * u)))) in
      let index : suc u - 1 ≡ u = omega arith in
      let after : suc u + 1 ≡ suc (suc u) = omega arith in
      let bytes = more_bytes fuel (r / 128) in
      let count : suc (suc u) + length bytes ≡ suc u + suc (length bytes) = omega arith in
      let carry : value + bit_and (bit_or (low_byte r) 0x80) 0x7f * 2 ^ (7 * (suc u - 1))
          ≡ value + r % 128 * 2 ^ (7 * u) =
        rw (low', index) refl in
      rw (more, high)
        (ap (λ v. read_more (suc left) (suc u + 1) v (bytes ++ rest)) carry
          ∙ ap (λ k. read_more (suc left) k (value + r % 128 * 2 ^ (7 * u)) (bytes ++ rest)) after
          ∙ next
          ∙ ap ok (cc (sum, count)))
  | inr last ↦
      let (low, high) = last_byte r (leb→gt 128 r last) in
      let same : low_byte r ≡ r = omega (arith, leb→gt 128 r last) in
      let index : suc u - 1 ≡ u = omega arith in rw (last, same, low, high, index) refl
]

-- A prefix is within a byte.
pub prefix_limit : (k : ℕ) → k ≤ 8 → (2 ^ k ≤ 256) × (0 < 2 ^ k)
prefix_limit zero h = omega arith
prefix_limit (suc zero) h = omega arith
prefix_limit (suc (suc zero)) h = omega arith
prefix_limit (suc (suc (suc zero))) h = omega arith
prefix_limit (suc (suc (suc (suc zero)))) h = omega arith
prefix_limit (suc (suc (suc (suc (suc zero))))) h = omega arith
prefix_limit (suc (suc (suc (suc (suc (suc zero)))))) h = omega arith
prefix_limit (suc (suc (suc (suc (suc (suc (suc zero))))))) h = omega arith
prefix_limit (suc (suc (suc (suc (suc (suc (suc (suc zero)))))))) h = omega arith
prefix_limit (suc (suc (suc (suc (suc (suc (suc (suc (suc k))))))))) h = absurd (omega arith)

-- An HPACK integer below 2^28 more than the limit of its prefix, with a prefix of at most eight
-- bits, is read back from its encoding, with the number of bytes that it takes up, whatever is
-- behind it.
pub read_integer-integer :
    (value prefix_bits : ℕ) (rest : List ℕ)
    → prefix_bits ≤ 8
    → value < 2 ^ prefix_bits - 1 + 2 ^ 28
    → read_integer (integer value prefix_bits 0 ++ rest) prefix_bits
      ≡ ok (value, length (integer value prefix_bits 0))
unfolding read_integer integer
read_integer-integer value prefix_bits rest bits small =
    elim (Bool-cases (ltb value (2 ^ prefix_bits - 1))) [
      | inl fits ↦
          let limit = prefix_limit prefix_bits bits in
          let below = ltb→lt value (2 ^ prefix_bits - 1) fits in
          let first : bit_and (bit_or 0 (low_byte value)) (2 ^ prefix_bits - 1) ≡ value =
            rw (zero-bit_or (low_byte value), bit_and_mask prefix_bits (low_byte value))
              (mod-eq_of_lt (omega arith) ∙ omega arith) in
          rw (fits, first, fits) refl
      | inr past ↦
          let limit = prefix_limit prefix_bits bits in
          let above = ltb→ge value (2 ^ prefix_bits - 1) past in
          let r = value - (2 ^ prefix_bits - 1) in
          let first : bit_and (bit_or 0 (low_byte (2 ^ prefix_bits - 1))) (2 ^ prefix_bits - 1)
              ≡ 2 ^ prefix_bits - 1 =
            rw
              (
                zero-bit_or (low_byte (2 ^ prefix_bits - 1)),
                bit_and_mask prefix_bits (low_byte (2 ^ prefix_bits - 1)),
              )
              (mod-eq_of_lt (omega arith) ∙ omega arith) in
          let not_below : ltb (2 ^ prefix_bits - 1) (2 ^ prefix_bits - 1) ≡ false = ground arith in
          let whole : 2 ^ prefix_bits - 1 + r * 2 ^ (7 * 0) ≡ value = omega arith in
          let count : 1 + length (more_bytes (suc value) r)
              ≡ suc (length (more_bytes (suc value) r)) =
            omega arith in
          rw (past, first, not_below)
            (read_more_at 3 0 (suc value) (2 ^ prefix_bits - 1) r rest (omega arith) (omega arith)
              ∙ ap ok (cc (whole, count)))
    ]
