-- ===== src/Transport/H2/Status.antt =====
-- The status of a response, from its header block (RFC 7541), in h2.rs.
pub mod Total
use dog.Prelude.{
  ℕ, zero, suc, ◌+◌, ◌-◌, ◌*◌, Option, none, some, Bool, true, false, ◌&&◌, List, [], ◌∷◌, bit_and,
  ◌==◌, leb, ltb, if◌then◌else◌, length, take, drop, get_elem?,
}
use dog.Transport.Errors.{
  Error, malformed_http, no_status, not_the_status, headers_cut_short, not_three_digits, Result, ok,
  err, out_of_fuel, ◌>>=◌,
}
use dog.Transport.H2.Integers.{read_integer}
use dog.Transport.H2.Huffman.{huffman_digits}

-- `STATIC_STATUSES`
abbrev pub static_statuses : List ℕ
static_statuses = 200 ∷ 204 ∷ 206 ∷ 304 ∷ 400 ∷ 404 ∷ 500 ∷ []

unfoldable pub static_status : ℕ → Result ℕ
static_status index =
    if ltb index 8
    then err (malformed_http (not_the_status index))
    else elim (get_elem? static_statuses (index - 8)) [
      | some code ↦ ok code
      | none ↦ err (malformed_http (not_the_status index))
    ]

-- The loop of `first_field`, on the block from `at` on. A size change takes a byte at least, so the
-- length of the block is fuel enough.
unfoldable pub skip_changes : ℕ → List ℕ → Result (List ℕ)
skip_changes fuel [] = err (malformed_http no_status)
skip_changes zero (byte ∷ block) = out_of_fuel
skip_changes (suc fuel) (byte ∷ block) = elim (bit_and byte 0xe0 == 0x20) [
  | true ↦ read_integer (byte ∷ block) 5 >>= λ (value, used).
      skip_changes fuel (drop used (byte ∷ block))
  | false ↦ ok (byte ∷ block)
]

unfoldable pub first_field : List ℕ → Result (List ℕ)
first_field block = skip_changes (length block) block

-- `bytes[n ..]`
unfoldable pub slice_from : ℕ → List ℕ → Result (List ℕ)
slice_from n bytes = if leb n (length bytes) then ok (drop n bytes) else Result.panic

unfoldable pub string : List ℕ → Result (List ℕ)
string bytes = do
  (count, used) ← read_integer bytes 7
  if leb used (length bytes) && leb count (length bytes - used)
      then (elim bytes [
        | [] ↦ Result.panic
        | first ∷ more ↦
            if bit_and first 0x80 == 0
            then ok (take count (drop used (first ∷ more)))
            else huffman_digits (take count (drop used (first ∷ more)))
      ])
      else err (malformed_http headers_cut_short)

abbrev pub is_ascii_digit : ℕ → Bool
is_ascii_digit b = leb b'0' b && leb b b'9'

-- Three digits; the sum is `parse::<u16>`.
unfoldable pub parse_status : List ℕ → Result ℕ
parse_status (a ∷ b ∷ c ∷ []) =
    if is_ascii_digit a && (is_ascii_digit b && is_ascii_digit c)
    then ok (((a - b'0') * 10 + (b - b'0')) * 10 + (c - b'0'))
    else err (malformed_http (not_three_digits (a ∷ b ∷ c ∷ [])))
parse_status value = err (malformed_http (not_three_digits value))

-- A field from `first_field` is not empty.
unfoldable pub field_status : List ℕ → Result ℕ
field_status [] = Result.panic
field_status (first ∷ more) =
    if bit_and first 0x80 == 0
    then (do
      (index, used) ← read_integer (first ∷ more) (if bit_and first 0x40 == 0 then 4 else 6)
      code ← static_status index
      rest ← slice_from used (first ∷ more)
      value ← string rest
      parse_status value)
    else read_integer (first ∷ more) 7 >>= λ (index, used). static_status index

unfoldable pub status : List ℕ → Result ℕ
status block = first_field block >>= field_status
