-- ===== src/Dns/Cursor.antt =====
-- Reading the `Cursor<&[u8]>` of dns/src/wire.rs: std's `read_exact`, `position` and
-- `set_position`, and the integer reads of the byteorder package.
pub mod Bounds
pub mod Exact
use dog.Prelude.{ℕ, ◌+◌, ◌-◌, ◌*◌, ◌/◌, ◌%◌, ◌^◌, ◌<◌, ◌≡◌, none, some, List, [], ◌∷◌}
use dog.Prelude.{leb, if◌then◌else◌, length, get_elem?, take, drop, All}
use dog.Dns.Outcome.{Reader, ok, err, io, ◌>>=◌, pure}

abbrev pub IsByte : ℕ → Type 0
IsByte b = b < 256

abbrev pub IsU16 : ℕ → Type 0
IsU16 n = n < 65536

abbrev pub IsU32 : ℕ → Type 0
IsU32 n = n < 2 ^ 32

-- byteorder's `BigEndian`, as its documentation describes it: decoding a slice of two or four
-- bytes, and encoding a `u16`.
pub record ByteOrder : Type 0 where
  pub decode_u16 : List ℕ → ℕ
  pub decode_u32 : List ℕ → ℕ
  pub encode_u16 : ℕ → List ℕ
  pub decode_u16_lem :
      (b₁ b₂ : ℕ) → IsByte b₁ → IsByte b₂ → decode_u16 (b₁ ∷ b₂ ∷ []) ≡ b₁ * 256 + b₂
  pub decode_u32_lem :
      (b₁ b₂ b₃ b₄ : ℕ)
      → IsByte b₁
      → IsByte b₂
      → IsByte b₃
      → IsByte b₄
      → decode_u32 (b₁ ∷ b₂ ∷ b₃ ∷ b₄ ∷ []) ≡ ((b₁ * 256 + b₂) * 256 + b₃) * 256 + b₄
  pub encode_u16_lem : (n : ℕ) → IsU16 n → encode_u16 n ≡ n / 256 ∷ n % 256 ∷ []

-- `u16::to_be_bytes` and `u16::from_be_bytes` of std.
abbrev pub to_be_bytes : ℕ → List ℕ
to_be_bytes n = n / 256 ∷ n % 256 ∷ []

abbrev pub from_be_bytes : ℕ → ℕ → ℕ
from_be_bytes b₁ b₂ = b₁ * 256 + b₂

-- Past the end of the buffer a read is an error of the kind `UnexpectedEof`.
unfoldable pub read_u8 : Reader ℕ
read_u8 buf pos = elim (get_elem? buf pos) [ none ↦ err io | some b ↦ ok (b, pos + 1) ]

unfoldable pub read_exact : ℕ → Reader (List ℕ)
read_exact n buf pos =
    if leb n (length buf - pos) then ok (take n (drop pos buf), pos + n) else err io

module _ ⦃B : ByteOrder⦄ where
  unfoldable pub read_u16 : Reader ℕ
  read_u16 = do bytes ← read_exact 2; pure (B.decode_u16 bytes)

  unfoldable pub read_u32 : Reader ℕ
  read_u32 = do bytes ← read_exact 4; pure (B.decode_u32 bytes)

-- What a transport hands over: bytes, at most as many as a `u16` length counts.
pub record IsMessage (buf : List ℕ) : Type 0 where
  pub bytes : All IsByte buf
  pub fits : length buf < 65536
