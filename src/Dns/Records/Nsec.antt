-- ===== src/Dns/Records/Nsec.antt =====
-- nsec.rs of dns/src/record: the next name and the set of types.
pub mod Bounds
use Prim.Native.Nat.{bit_and}
use dog.Prelude.{
  ℕ, zero, suc, ◌+◌, ◌-◌, ◌*◌, ◌/◌, ◌^◌, ◌||◌, List, [], ◌∷◌, ◌++◌, ◌==◌, leb, ltb, if◌then◌else◌,
  length, take, drop,
}
use dog.Dns.Outcome.{
  Reader, out_of_fuel, ok, panic, ◌>>=◌, pure, raise, wrong_record_length, wrong_label_length,
  at_least, checked_sub, u16_max,
}
use dog.Dns.Cursor.{read_exact}
use dog.Dns.Strings.Defs.{Labels}
use dog.Dns.Strings.Read.{read_labels}

pub record Nsec : Type 0 where
  pub next_domain : Labels
  pub types : List ℕ

-- `window * 256 + byte_idx * 8 + bit` on `u16`; the terms are not more than the sum.
abbrev pub type_at : ℕ → ℕ → ℕ → Reader ℕ
type_at window byte_idx bit buf pos =
    if leb (window * 256 + byte_idx * 8 + bit) u16_max
    then ok (window * 256 + byte_idx * 8 + bit, pos)
    else panic

-- One round of `for bit in 0 .. 8`.
unfoldable pub push_bit : ℕ → ℕ → ℕ → ℕ → List ℕ → Reader (List ℕ)
push_bit bit window byte_idx byte types =
    if bit_and byte (0x80 / 2 ^ bit) == 0
    then pure types
    else do number ← type_at window byte_idx bit; pure (types ++ number ∷ [])

-- The loop, with the number of rounds left; `bit` counts up.
unfoldable pub push_bits : ℕ → ℕ → ℕ → ℕ → ℕ → List ℕ → Reader (List ℕ)
push_bits zero bit window byte_idx byte types = pure types
push_bits (suc left) bit window byte_idx byte types = do
  types' ← push_bit bit window byte_idx byte types
  push_bits left (bit + 1) window byte_idx byte types'

-- `for (byte_idx, &byte) in (0_u16 ..).zip(&data[i .. i + bitmap_len])`
unfoldable pub push_bitmap : List ℕ → ℕ → ℕ → List ℕ → Reader (List ℕ)
push_bitmap [] byte_idx window types = pure types
push_bitmap (byte ∷ bytes) byte_idx window types = do
  types' ← push_bits 8 0 window byte_idx byte types
  push_bitmap bytes (byte_idx + 1) window types'

-- `data` is the slice from the index `i` on. Each round takes two bytes at least, so the length of
-- the slice is fuel enough.
unfoldable pub parse_windows : ℕ → List ℕ → List ℕ → Reader (List ℕ)
parse_windows fuel [] types = pure types
parse_windows fuel (window ∷ []) types = pure types
parse_windows zero (window ∷ bitmap_len ∷ bytes) types = λ buf pos. out_of_fuel
parse_windows (suc fuel) (window ∷ bitmap_len ∷ bytes) types =
    if bitmap_len == 0 || ltb 32 bitmap_len || ltb (length bytes) bitmap_len then pure types else do
      types' ← push_bitmap (take bitmap_len bytes) 0 window types
      parse_windows fuel (drop bitmap_len bytes) types'

unfoldable pub parse_type_bitmaps : List ℕ → Reader (List ℕ)
parse_type_bitmaps bytes = parse_windows (length bytes) bytes []

unfoldable pub read_nsec : ℕ → Reader Nsec
read_nsec stated_length =
    if ltb stated_length 2 then raise (wrong_record_length stated_length (at_least 2)) else do
      (next_domain, next_domain_length) ← read_labels
      bitmap_length ←
          checked_sub stated_length next_domain_length
            (wrong_label_length stated_length next_domain_length)
      bitmap_bytes ← read_exact bitmap_length
      types ← parse_type_bitmaps bitmap_bytes
      pure (record { next_domain = next_domain; types = types })
