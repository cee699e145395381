-- ===== src/Transport/H2/Huffman.antt =====
-- The Huffman-coded status (RFC 7541 §5.2) in h2.rs: `huffman_digits`.
pub mod RoundTrip
use dog.Prelude.{
  ℕ, zero, suc, ◌+◌, ◌-◌, ◌*◌, ◌/◌, ◌%◌, ◌^◌, Option, none, some, Bool, ◌&&◌, List, [], ◌∷◌, ◌++◌,
  bit_and, bit_or, ◌==◌, ◌≡◌, refl, ltb, if◌then◌else◌,
}
use dog.Transport.Errors.{Error, malformed_http, not_huffman_digits, Result, ok, err, ◌>>=◌}

-- `HUFFMAN_DIGITS`: the code of each digit with its length.
unfoldable pub huffman_codes : List (ℕ × ℕ)
huffman_codes =
    (0b0_0000, 5)
    ∷ (0b0_0001, 5)
    ∷ (0b0_0010, 5)
    ∷ (0b01_1001, 6)
    ∷ (0b01_1010, 6)
    ∷ (0b01_1011, 6)
    ∷ (0b01_1100, 6)
    ∷ (0b01_1101, 6)
    ∷ (0b01_1110, 6)
    ∷ (0b01_1111, 6)
    ∷ []

-- `iter().position(...)`, counting from `index`.
unfoldable pub position : List (ℕ × ℕ) → ℕ → ℕ → ℕ → Option ℕ
position [] index code length = none
position ((known, width) ∷ rest) index code length =
    if known == code && width == length then some index else position rest (index + 1) code length

-- The bits of a byte, `byte >> shift & 1` for the shifts from 7 down.
unfoldable pub bits_of : ℕ → ℕ → List ℕ
bits_of zero byte = []
bits_of (suc shift) byte = byte / 2 ^ shift % 2 ∷ bits_of shift byte

unfoldable pub bits : List ℕ → List ℕ
bits [] = []
bits (byte ∷ bytes) = bits_of 8 byte ++ bits bytes

-- The end of `huffman_digits`: what is left over must be ones.
unfoldable pub check_padding : List ℕ → ℕ → ℕ → Result (List ℕ)
check_padding digits code length =
    if code == 2 ^ length - 1 then ok digits else err (malformed_http not_huffman_digits)

-- One round of the loop, on the bits left. The code has at most eight bits, so nothing wraps.
unfoldable pub decode : List ℕ → List ℕ → ℕ → ℕ → Result (List ℕ)
decode [] digits code length = check_padding digits code length
decode (bit ∷ rest) digits code length =
    let code' = bit_or (code * 2) bit in
    let length' = length + 1 in
    elim (position huffman_codes 0 code' length') [
      | some digit ↦ decode rest (digits ++ (b'0' + digit) ∷ []) 0 0
      | none ↦
          if ltb 7 length'
          then err (malformed_http not_huffman_digits)
          else decode rest digits code' length'
    ]

unfoldable pub huffman_digits : List ℕ → Result (List ℕ)
huffman_digits coded = decode (bits coded) [] 0 0

-- `200`, coded in the 16 bits 00010 00000 00000 and one of padding.
two_hundred : huffman_digits (0b0001_0000 ∷ 0b0000_0001 ∷ []) ≡ ok (b'2' ∷ b'0' ∷ b'0' ∷ [])
unfolding huffman_digits decode position huffman_codes bits bits_of check_padding
two_hundred = refl
