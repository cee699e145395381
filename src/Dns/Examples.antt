-- ===== src/Dns/Examples.antt =====
-- The messages of the theorems' examples, and the byte order that they are read with.
pub mod Messages
pub mod Records
pub mod Encode
pub mod Validate
use dog.Prelude.{ℕ, ◌+◌, ◌*◌, ◌/◌, ◌%◌, ◌≡◌, refl, List, [], ◌∷◌}
use dog.Dns.Cursor.{ByteOrder, IsByte}

abbrev pub big_endian_u16 : List ℕ → ℕ
big_endian_u16 (b₁ ∷ b₂ ∷ bytes) = b₁ * 256 + b₂
big_endian_u16 _ = 0

abbrev pub big_endian_u32 : List ℕ → ℕ
big_endian_u32 (b₁ ∷ b₂ ∷ b₃ ∷ b₄ ∷ bytes) = ((b₁ * 256 + b₂) * 256 + b₃) * 256 + b₄
big_endian_u32 _ = 0

instance abbrev pub big_endian : ByteOrder
big_endian = record {
  decode_u16 = big_endian_u16;
  decode_u32 = big_endian_u32;
  encode_u16 = λ n. n / 256 ∷ n % 256 ∷ [];
  decode_u16_lem = λ b₁ b₂ h₁ h₂. refl;
  decode_u32_lem = λ b₁ b₂ b₃ b₄ h₁ h₂ h₃ h₄. refl;
  encode_u16_lem = λ n h. refl;
}

-- An answer for the name `a.b` (0x61, 0x62): the question, and an A record whose name is a pointer.
abbrev pub reply : List ℕ
reply =
    0x12 ∷ 0x34 ∷ 0x81 ∷ 0x80 ∷ 0 ∷ 1 ∷ 0 ∷ 1 ∷ 0 ∷ 0 ∷ 0 ∷ 0 ∷ 1 ∷ 0x61 ∷ 1 ∷ 0x62 ∷ 0 ∷ 0 ∷ 1 ∷ 0
    ∷ 1 ∷ 0xc0 ∷ 12 ∷ 0 ∷ 1 ∷ 0 ∷ 1 ∷ 0 ∷ 0 ∷ 1 ∷ 0 ∷ 0 ∷ 4 ∷ 127 ∷ 0 ∷ 0 ∷ 1 ∷ []
