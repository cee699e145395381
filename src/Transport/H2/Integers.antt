-- ===== src/Transport/H2/Integers.antt =====
-- HPACK's integers (RFC 7541 §5.1) in h2.rs: `integer` and `read_integer`.
pub mod RoundTrip
use dog.Prelude.{
  ℕ, zero, suc, ◌+◌, ◌-◌, ◌*◌, ◌/◌, ◌%◌, ◌^◌, List, [], ◌∷◌, bit_and, bit_or, ◌==◌, leb, ltb,
  if◌then◌else◌,
}
use dog.Transport.Errors.{
  Error, malformed_http, number_too_long, headers_cut_short, Result, ok, err,
}

-- `value.to_le_bytes()[0]`
abbrev pub low_byte : ℕ → ℕ
low_byte value = value % 256

-- The loop of `integer`. Each round divides the number, so the number is fuel enough.
unfoldable pub more_bytes : ℕ → ℕ → List ℕ
more_bytes zero rest = []
more_bytes (suc fuel) rest =
    if leb 0x80 rest
    then bit_or (low_byte rest) 0x80 ∷ more_bytes fuel (rest / 2 ^ 7)
    else low_byte rest ∷ []

unfoldable pub integer : ℕ → ℕ → ℕ → List ℕ
integer value prefix_bits high_bits =
    let limit = 2 ^ prefix_bits - 1 in
    if ltb value limit
    then bit_or high_bits (low_byte value) ∷ []
    else bit_or high_bits (low_byte limit) ∷ more_bytes (suc value) (value - limit)

-- `bytes.iter().enumerate().skip(1).take(4)`: the rounds left, and the index of the next byte.
unfoldable pub read_more : ℕ → ℕ → ℕ → List ℕ → Result (ℕ × ℕ)
read_more zero used value bytes = err (malformed_http number_too_long)
read_more (suc left) used value [] = err (malformed_http number_too_long)
read_more (suc left) used value (byte ∷ bytes) =
    let value' = value + bit_and byte 0x7f * 2 ^ (7 * (used - 1)) in
    if bit_and byte 0x80 == 0 then ok (value', used + 1) else read_more left (used + 1) value' bytes

unfoldable pub read_integer : List ℕ → ℕ → Result (ℕ × ℕ)
read_integer [] prefix_bits = err (malformed_http headers_cut_short)
read_integer (byte ∷ bytes) prefix_bits =
    let limit = 2 ^ prefix_bits - 1 in
    let first = bit_and byte limit in
    if ltb first limit then ok (first, 1) else read_more 4 1 first bytes
