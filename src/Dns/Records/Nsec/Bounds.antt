-- ===== src/Dns/Records/Nsec/Bounds.antt =====
-- Reading an NSEC record ends without a panic: no type number overflows.
use Prim.Native.Nat.{bit_and}
use dog.Prelude.{
  ℕ, zero, suc, ◌+◌, ◌-◌, ◌*◌, ◌/◌, ◌^◌, ◌≤◌, ◌<◌, ◌≡◌, refl, ◌||◌, List, [], ◌∷◌, ◌==◌, ltb,
  length, take, drop, All, All-append, All-drop, take-length, drop-length, le→leb, ltb→ge, arith,
  Bool, false,
}
use dog.Dns.Outcome.{
  Ensures, holds, failed, Ensures-bind, Ensures-branch, Ensures-checked_sub, u16_max,
}
use dog.Dns.Cursor.{IsByte, IsU16, IsMessage}
use dog.Dns.Cursor.Bounds.{read_exact-Moves}
use dog.Dns.Records.Names.Bounds.{Consumes, NameAt, read_labels-NameAt}
use dog.Dns.Records.Nsec.{
  push_bit, push_bits, push_bitmap, parse_windows, parse_type_bitmaps, read_nsec,
}

-- The list stays one of 16-bit numbers, and the position stays.
abbrev TypesAt : ℕ → List ℕ → ℕ → Type 0
TypesAt pos types p = All IsU16 types × (p ≡ pos)

or_false : (x y z : Bool) → (x || y || z) ≡ false → (y ≡ false) × (z ≡ false)
or_false x y z h = ground arith

module _ (buf : List ℕ) (window : ℕ) (byte : IsByte window) where
  push_bit-Ensures :
      (bit byte_idx b : ℕ) (types : List ℕ) (pos : ℕ)
      → bit < 8
      → byte_idx < 32
      → All IsU16 types
      → Ensures (TypesAt pos) (push_bit bit window byte_idx b types buf pos)
  unfolding push_bit
  push_bit-Ensures bit byte_idx b types pos h k t =
      Ensures-branch (bit_and b (0x80 / 2 ^ bit) == 0) _ _ (λ _. holds (t, refl))
        λ _.
          rw (le→leb (window * 256 + byte_idx * 8 + bit) u16_max (omega arith))
            (holds (All-append IsU16 types _ t (omega arith, tt), refl))

  push_bits-Ensures :
      (left bit byte_idx b : ℕ) (types : List ℕ) (pos : ℕ)
      → left + bit ≤ 8
      → byte_idx < 32
      → All IsU16 types
      → Ensures (TypesAt pos) (push_bits left bit window byte_idx b types buf pos)
  unfolding push_bits
  push_bits-Ensures zero bit byte_idx b types pos h k t = holds (t, refl)
  push_bits-Ensures (suc left) bit byte_idx b types pos h k t =
      Ensures-bind (push_bit-Ensures bit byte_idx b types pos (omega arith) k t) λ types' p (t', e).
        rw e (push_bits-Ensures left (bit + 1) byte_idx b types' pos (omega arith) k t')

  push_bitmap-Ensures :
      (bytes : List ℕ) (byte_idx : ℕ) (types : List ℕ) (pos : ℕ)
      → length bytes + byte_idx ≤ 32
      → All IsU16 types
      → Ensures (TypesAt pos) (push_bitmap bytes byte_idx window types buf pos)
  unfolding push_bitmap
  push_bitmap-Ensures [] byte_idx types pos h t = holds (t, refl)
  push_bitmap-Ensures (b ∷ bytes) byte_idx types pos h t =
      Ensures-bind (push_bits-Ensures 8 0 byte_idx b types pos (omega arith) (omega arith) t)
        λ types' p (t', e).
          rw e (push_bitmap-Ensures bytes (byte_idx + 1) types' pos (omega arith) t')

module _ (buf : List ℕ) where
  parse_windows-Ensures :
      (fuel : ℕ) (bytes types : List ℕ) (pos : ℕ)
      → length bytes ≤ fuel
      → All IsByte bytes
      → All IsU16 types
      → Ensures (TypesAt pos) (parse_windows fuel bytes types buf pos)
  unfolding parse_windows
  parse_windows-Ensures fuel [] types pos f b t = holds (t, refl)
  parse_windows-Ensures fuel (window ∷ []) types pos f b t = holds (t, refl)
  parse_windows-Ensures zero (window ∷ n ∷ bytes) types pos f b t = absurd (omega arith)
  parse_windows-Ensures (suc fuel) (window ∷ n ∷ bytes) types pos f (w, (nb, b)) t =
      Ensures-branch (n == 0 || ltb 32 n || ltb (length bytes) n) _ _ (λ _. holds (t, refl))
        λ good.
          let (few, room) = or_false (n == 0) (ltb 32 n) (ltb (length bytes) n) good in
          let few' = ltb→ge 32 n few in
          let room' = ltb→ge (length bytes) n room in
          Ensures-bind
            (push_bitmap-Ensures buf window w (take n bytes) 0 types pos
              (omega (arith, take-length n bytes room')) t)
            λ types' p (t', e). rw e (
              parse_windows-Ensures fuel (drop n bytes) types' pos
                (omega (arith, drop-length n bytes)) (All-drop IsByte n bytes b) t')

  pub parse_type_bitmaps-Ensures :
      (bytes : List ℕ) (pos : ℕ)
      → All IsByte bytes
      → Ensures (TypesAt pos) (parse_type_bitmaps bytes buf pos)
  unfolding parse_type_bitmaps
  parse_type_bitmaps-Ensures bytes pos b =
      parse_windows-Ensures (length bytes) bytes [] pos (omega arith) b tt

  module _ (message : IsMessage buf) (pos stated_length : ℕ) where
    -- Reading an NSEC record from a message neither panics nor runs out of fuel. If it returns
    -- one, the cursor has moved by the stated length and is inside the message, every type
    -- number fits 16 bits, and the name is the one that stands where the record starts.
    pub read_nsec-Ensures :
        Ensures
          (λ r p.
            Consumes buf pos stated_length p
            × All IsU16 r.types
            × ((end : ℕ) × NameAt buf pos r.next_domain end))
          (read_nsec stated_length buf pos)
    unfolding read_nsec
    read_nsec-Ensures =
        Ensures-branch (ltb stated_length 2) _ _ (λ _. failed)
          λ _. Ensures-bind (read_labels-NameAt buf message pos) λ (name, n) p₁ (at, c, l₁).
            Ensures-checked_sub stated_length n _ _ λ fits.
              Ensures-bind (read_exact-Moves buf message.bytes p₁ (stated_length - n) l₁)
                λ bytes p₂ (h, e, l).
                  Ensures-bind (parse_type_bitmaps-Ensures bytes p₂ h.0)
                    λ types p (t, e'). holds ((omega arith, omega arith), t, (p₁, at))
