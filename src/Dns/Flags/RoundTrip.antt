-- ===== src/Dns/Flags/RoundTrip.antt =====
-- The flags of a query survive being encoded.
use dog.Prelude.{
  ℕ, suc, ap, ◌∙◌, ◌+◌, ◌*◌, ◌/◌, ◌%◌, ◌^◌, ◌≤◌, ◌<◌, ◌≡◌, refl, Bool, true, false, none, arith,
}
use dog.Prelude.{
  bit_and, bit_or, bit_or_fields, bit_and-two_pow, bit_and_nibble, bit_and_opcode, halve,
  pow_two_suc, pow_two_pos,
}
use dog.Dns.Flags.{
  Opcode, query, other, Flags, opcode_from_bits, opcode_to_bits, error_code_from_bits, has_bit,
  flags_from_u16, set_bit, flags_to_u16,
}

abbrev digit : Bool → ℕ
digit true = 1
digit false = 0

set_bit_lem :
    (flag : Bool) (k q bits : ℕ)
    → bits ≡ q * 2 ^ suc k
    → set_bit flag (2 ^ k) bits ≡ (q * 2 + digit flag) * 2 ^ k
unfolding set_bit
set_bit_lem true k q bits e =
    let double = pow_two_suc k 1 in
    let one : 0 < 2 ^ k = pow_two_pos k in
    rw e (bit_or_fields (suc k) q (2 ^ k) (omega arith) ∙ omega (arith, pow_two_suc k q))
set_bit_lem false k q bits e = omega (arith, pow_two_suc k q)

has_bit_lem :
    (k bits : ℕ) (flag : Bool) → halve k bits % 2 ≡ digit flag → has_bit bits (2 ^ k) ≡ flag
has_bit_lem k bits true h =
    let one : 0 < 2 ^ k = pow_two_pos k in
    let mask : bit_and bits (2 ^ k) ≡ 1 * 2 ^ k = bit_and-two_pow k bits ∙ ap (λ d. d * 2 ^ k) h in
    ground arith
has_bit_lem k bits false h =
    let one : 0 < 2 ^ k = pow_two_pos k in
    let mask : bit_and bits (2 ^ k) ≡ 0 * 2 ^ k = bit_and-two_pow k bits ∙ ap (λ d. d * 2 ^ k) h in
    ground arith

opcode_bits-lt : (opcode : Opcode) → opcode_to_bits opcode < 16
unfolding opcode_to_bits
opcode_bits-lt query = omega arith
opcode_bits-lt (other n) = rw (bit_and_nibble n) (omega arith)

-- The number, by its binary digits.
abbrev digits_of : Flags → ℕ
digits_of f =
    ((((((digit f.response * 16 + opcode_to_bits f.opcode) * 2 + digit f.authoritative) * 2
                    + digit f.truncated)
                  * 2
                + digit f.recursion_desired)
              * 2
            + digit f.recursion_available)
          * 4
        + digit f.authentic_data)
      * 2
    + digit f.checking_disabled

flags_to_u16_lem : (f : Flags) → flags_to_u16 f ≡ digits_of f * 16
unfolding flags_to_u16
flags_to_u16_lem f =
    let op = opcode_to_bits f.opcode in
    let small = opcode_bits-lt f.opcode in
    let q₁ = digit f.response in
    let q₂ = q₁ * 16 + op in
    let q₃ = q₂ * 2 + digit f.authoritative in
    let q₄ = q₃ * 2 + digit f.truncated in
    let q₅ = q₄ * 2 + digit f.recursion_desired in
    let q₆ = q₅ * 2 + digit f.recursion_available in
    let q₇ = q₆ * 2 * 2 + digit f.authentic_data in
    let e₁ : set_bit f.response (2 ^ 15) 0 ≡ q₁ * 2 ^ 15 =
      set_bit_lem f.response 15 0 0 refl ∙ omega arith in
    let e₂ : bit_or (q₁ * 2 ^ 15) (op * 2 ^ 11 % 2 ^ 16) ≡ q₂ * 2 ^ 11 =
      bit_or_fields 15 q₁ (op * 2 ^ 11 % 2 ^ 16) (omega arith) ∙ omega arith in
    let e₃ : set_bit f.authoritative (2 ^ 10) (q₂ * 2 ^ 11) ≡ q₃ * 2 ^ 10 =
      set_bit_lem f.authoritative 10 q₂ _ refl in
    let e₄ : set_bit f.truncated (2 ^ 9) (q₃ * 2 ^ 10) ≡ q₄ * 2 ^ 9 =
      set_bit_lem f.truncated 9 q₃ _ refl in
    let e₅ : set_bit f.recursion_desired (2 ^ 8) (q₄ * 2 ^ 9) ≡ q₅ * 2 ^ 8 =
      set_bit_lem f.recursion_desired 8 q₄ _ refl in
    let e₆ : set_bit f.recursion_available (2 ^ 7) (q₅ * 2 ^ 8) ≡ q₆ * 2 ^ 7 =
      set_bit_lem f.recursion_available 7 q₅ _ refl in
    let e₇ : set_bit f.authentic_data (2 ^ 5) (q₆ * 2 ^ 7) ≡ q₇ * 2 ^ 5 =
      set_bit_lem f.authentic_data 5 (q₆ * 2) _ (omega arith) in
    let e₈ : set_bit f.checking_disabled (2 ^ 4) (q₇ * 2 ^ 5)
        ≡ (q₇ * 2 + digit f.checking_disabled) * 2 ^ 4 =
      set_bit_lem f.checking_disabled 4 q₇ _ refl in
    rw (e₁, e₂, e₃, e₄, e₅, e₆, e₇, e₈) (omega arith)

-- An opcode as dog keeps it, and no response code: what a query's flags can hold.
abbrev pub IsOpcode : Opcode → Type 0
IsOpcode query = Unit {0}
IsOpcode (other n) = (0 < n) × (n < 16)

opcode_lem : (opcode : Opcode) → IsOpcode opcode → opcode_from_bits (opcode_to_bits opcode) ≡ opcode
unfolding opcode_from_bits opcode_to_bits
opcode_lem query h = refl
opcode_lem (other n) h = rw (bit_and_nibble n, bit_and_nibble (n % 16)) (ground arith)

digit-le : (b : Bool) → digit b ≤ 1
digit-le true = omega arith
digit-le false = omega arith

-- The digits of a number that has the form that `flags_to_u16` gives it.
module _ (f : Flags) (v : ℕ) (form : v ≡ digits_of f * 16) where
  response-digit : halve 15 v % 2 ≡ digit f.response
  response-digit = omega (arith, digit-le, opcode_bits-lt f.opcode)

  authoritative-digit : halve 10 v % 2 ≡ digit f.authoritative
  authoritative-digit = omega (arith, digit-le, opcode_bits-lt f.opcode)

  truncated-digit : halve 9 v % 2 ≡ digit f.truncated
  truncated-digit = omega (arith, digit-le, opcode_bits-lt f.opcode)

  desired-digit : halve 8 v % 2 ≡ digit f.recursion_desired
  desired-digit = omega (arith, digit-le, opcode_bits-lt f.opcode)

  available-digit : halve 7 v % 2 ≡ digit f.recursion_available
  available-digit = omega (arith, digit-le, opcode_bits-lt f.opcode)

  authentic-digit : halve 5 v % 2 ≡ digit f.authentic_data
  authentic-digit = omega (arith, digit-le, opcode_bits-lt f.opcode)

  disabled-digit : halve 4 v % 2 ≡ digit f.checking_disabled
  disabled-digit = omega (arith, digit-le, opcode_bits-lt f.opcode)

  opcode-digits : v / 256 / 8 % 16 ≡ opcode_to_bits f.opcode
  opcode-digits = omega (arith, digit-le, opcode_bits-lt f.opcode)

  below : v < 65536
  below = omega (arith, digit-le, opcode_bits-lt f.opcode)

-- The four bits of the response code are clear.
pub flags_to_u16_low : (f : Flags) → bit_and (flags_to_u16 f) 0b1111 ≡ 0
flags_to_u16_low f = omega (arith, bit_and_nibble (flags_to_u16 f), flags_to_u16_lem f)

-- Flags with a canonical opcode (`Query`, or another from 1 to 15) and no response code are
-- encoded in 16 bits, and decoded to themselves.
pub flags_from_u16-flags_to_u16 :
    (f : Flags)
    → IsOpcode f.opcode
    → f.error_code ≡ none
    → (flags_from_u16 (flags_to_u16 f) ≡ f) × (flags_to_u16 f < 65536)
unfolding flags_from_u16
flags_from_u16-flags_to_u16 f h e =
    let v = flags_to_u16 f in
    let form = flags_to_u16_lem f in
    let p₁ = has_bit_lem 15 v f.response (response-digit f v form) in
    let p₂ : opcode_from_bits (bit_and (v / 256) 0b0111_1000 / 8) ≡ f.opcode =
      rw (bit_and_opcode (v / 256), opcode-digits f v form) (opcode_lem f.opcode h) in
    let p₃ = has_bit_lem 10 v f.authoritative (authoritative-digit f v form) in
    let p₄ = has_bit_lem 9 v f.truncated (truncated-digit f v form) in
    let p₅ = has_bit_lem 8 v f.recursion_desired (desired-digit f v form) in
    let p₆ = has_bit_lem 7 v f.recursion_available (available-digit f v form) in
    let p₇ = has_bit_lem 5 v f.authentic_data (authentic-digit f v form) in
    let p₈ = has_bit_lem 4 v f.checking_disabled (disabled-digit f v form) in
    let low : v % 16 ≡ 0 = omega arith in
    let p₉ : error_code_from_bits (bit_and v 0b1111) ≡ f.error_code =
      rw (bit_and_nibble v, low, e) (unfold error_code_from_bits in refl) in
    (
      λ i. record {
        response = p₁ i;
        opcode = p₂ i;
        authoritative = p₃ i;
        truncated = p₄ i;
        recursion_desired = p₅ i;
        recursion_available = p₆ i;
        authentic_data = p₇ i;
        checking_disabled = p₈ i;
        error_code = p₉ i;
      },
      below f v form,
    )
