-- ===== src/Dns/Cursor/Exact.antt =====
-- What each read returns, given the bytes that stand at the position.
use dog.Prelude.{some, get_elem?, ℕ, ◌+◌, ◌-◌, ◌/◌, ◌%◌, ◌≡◌, ap, List, ◌∷◌, ◌++◌, arith}
use dog.Prelude.{le→leb, length, length-append, drop, take-append, drop-length, get_elem?-drop}
use dog.Dns.Outcome.{ok}
use dog.Dns.Cursor.{IsU16, ByteOrder, read_u8, read_exact, read_u16, to_be_bytes}

module _ (buf : List ℕ) (pos : ℕ) where
  pub read_u8_get : {b : ℕ} → get_elem? buf pos ≡ some b → read_u8 buf pos ≡ ok (b, pos + 1)
  unfolding read_u8
  read_u8_get h = rw (h, read_u8)

  pub read_u8_at :
      {b : ℕ} {rest : List ℕ} → drop pos buf ≡ b ∷ rest → read_u8 buf pos ≡ ok (b, pos + 1)
  unfolding read_u8
  read_u8_at h = rw (get_elem?-drop buf pos h, read_u8)

  pub read_exact_at :
      (bs rest : List ℕ)
      → drop pos buf ≡ bs ++ rest
      → read_exact (length bs) buf pos ≡ ok (bs, pos + length bs)
  unfolding read_exact
  read_exact_at bs rest h = rw (
    le→leb (length bs) (length buf - pos)
        (omega (arith, drop-length pos buf, ap length h, length-append bs rest)),
    h,
    take-append bs rest,
  )

  module _ ⦃B : ByteOrder⦄ where
    pub read_u16_at :
        (n : ℕ) {rest : List ℕ}
        → IsU16 n
        → drop pos buf ≡ to_be_bytes n ++ rest
        → read_u16 buf pos ≡ ok (n, pos + 2)
    unfolding read_u16
    read_u16_at n {rest} fits h =
        rw
          (
            read_exact_at (to_be_bytes n) rest h,
            B.decode_u16_lem (n / 256) (n % 256) (omega arith) (omega arith),
          )
          (ground arith)
