-- ===== src/Dns/Flags.antt =====
-- `Flags`, `Opcode` and `ErrorCode` of dns/src/types.rs, with their conversions in dns/src/wire.rs.
pub mod RoundTrip
use dog.Prelude.{ℕ, ◌+◌, ◌*◌, ◌/◌, ◌%◌, ◌^◌, Bool, true, false, ◌&&◌, Option, none, some}
use dog.Prelude.{bit_and, bit_or, ◌==◌, leb, if◌then◌else◌}

pub data Opcode : Type 0 where
  query : Opcode
  other : ℕ → Opcode

pub data ErrorCode : Type 0 where
  format_error server_failure nx_domain not_implemented query_refused bad_version : ErrorCode
  other private : ℕ → ErrorCode

pub record Flags : Type 0 where
  pub response : Bool
  pub opcode : Opcode
  pub authoritative : Bool
  pub truncated : Bool
  pub recursion_desired : Bool
  pub recursion_available : Bool
  pub authentic_data : Bool
  pub checking_disabled : Bool
  pub error_code : Option ErrorCode

unfoldable pub opcode_from_bits : ℕ → Opcode
opcode_from_bits bits = let field = bit_and bits 0b1111 in if field == 0 then query else other field

unfoldable pub opcode_to_bits : Opcode → ℕ
opcode_to_bits query = 0
opcode_to_bits (other n) = bit_and n 0b1111

-- `ErrorCode::from_bits`
unfoldable pub error_code_from_bits : ℕ → Option ErrorCode
error_code_from_bits bits =
    if leb 0x0f01 bits && leb bits 0x0fff
    then some (private bits)
    else if bits == 0
    then none
    else if bits == 1
    then some format_error
    else if bits == 2
    then some server_failure
    else if bits == 3
    then some nx_domain
    else if bits == 4
    then some not_implemented
    else if bits == 5
    then some query_refused
    else if bits == 16
    then some bad_version
    else some (other bits)

abbrev pub has_bit : ℕ → ℕ → Bool
has_bit bits bit = bit_and bits bit == bit

unfoldable pub flags_from_u16 : ℕ → Flags
flags_from_u16 bits = record {
  response = has_bit bits (2 ^ 15);
  opcode = opcode_from_bits (bit_and (bits / 256) 0b0111_1000 / 8);
  authoritative = has_bit bits (2 ^ 10);
  truncated = has_bit bits (2 ^ 9);
  recursion_desired = has_bit bits (2 ^ 8);
  recursion_available = has_bit bits (2 ^ 7);
  authentic_data = has_bit bits (2 ^ 5);
  checking_disabled = has_bit bits (2 ^ 4);
  error_code = error_code_from_bits (bit_and bits 0b1111);
}

-- `if flag { bits |= bit; }`
unfoldable pub set_bit : Bool → ℕ → ℕ → ℕ
set_bit flag bit bits = if flag then bit_or bits bit else bits

unfoldable pub flags_to_u16 : Flags → ℕ
flags_to_u16 flags =
    let b₁ = set_bit flags.response (2 ^ 15) 0 in
    let b₂ = bit_or b₁ (opcode_to_bits flags.opcode * 2 ^ 11 % 2 ^ 16) in
    let b₃ = set_bit flags.authoritative (2 ^ 10) b₂ in
    let b₄ = set_bit flags.truncated (2 ^ 9) b₃ in
    let b₅ = set_bit flags.recursion_desired (2 ^ 8) b₄ in
    let b₆ = set_bit flags.recursion_available (2 ^ 7) b₅ in
    let b₇ = set_bit flags.authentic_data (2 ^ 5) b₆ in set_bit flags.checking_disabled (2 ^ 4) b₇

-- `Flags::query` and `Flags::standard_response`
unfoldable pub flags_query : Flags
flags_query = flags_from_u16 0b0000_0001_0000_0000

unfoldable pub flags_standard_response : Flags
flags_standard_response = flags_from_u16 0b1000_0001_1000_0000
