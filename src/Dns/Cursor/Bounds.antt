-- ===== src/Dns/Cursor/Bounds.antt =====
-- How far each read of the cursor moves, and that it stays within the buffer.
use dog.Prelude.{some, ℕ, ◌+◌, ◌-◌, ◌≤◌, ◌≡◌, refl, List, [], ◌∷◌, arith, leb→le}
use dog.Prelude.{inl, inr, Option-cases}
use dog.Prelude.{leb, length, get_elem?, drop, All, All-get_elem?, All-take, All-drop}
use dog.Prelude.{take-length, drop-length, get_elem?-lt}
use dog.Dns.Outcome.{Ensures, holds, failed, Ensures-if, Ensures-bind, Ensures-weaken}
use dog.Dns.Cursor.{IsByte, IsU16, IsU32, ByteOrder, read_u8, read_exact, read_u16, read_u32}

-- The value satisfies `P`, and the position moved by `n` and is within the buffer.
abbrev pub Moves {ℓ κ} : {A : Type ℓ} → (A → Type κ) → List ℕ → ℕ → ℕ → A → ℕ → Type κ
Moves P buf pos n x p = P x × (p ≡ pos + n) × (p ≤ length buf)

abbrev pub HasLength : ℕ → List ℕ → Type 0
HasLength n bytes = All IsByte bytes × (length bytes ≡ n)

module _ (buf : List ℕ) (bytes : All IsByte buf) (pos : ℕ) where
  -- With the byte that is read.
  pub read_u8-Reads :
      Ensures (λ b p. Moves IsByte buf pos 1 b p × (get_elem? buf pos ≡ some b)) (read_u8 buf pos)
  unfolding read_u8
  read_u8-Reads = elim (Option-cases (get_elem? buf pos)) [
    | inl e ↦ rw (e, read_u8) failed
    | inr (b, e) ↦
        rw (e, read_u8)
          (holds
            ((All-get_elem? _ buf pos bytes e, refl, omega (arith, get_elem?-lt buf pos e)), refl))
  ]

  pub read_u8-Moves : Ensures (Moves IsByte buf pos 1) (read_u8 buf pos)
  read_u8-Moves = Ensures-weaken (λ b p h. h.0) read_u8-Reads

  pub read_exact-Moves :
      (n : ℕ) → pos ≤ length buf → Ensures (Moves (HasLength n) buf pos n) (read_exact n buf pos)
  unfolding read_exact
  read_exact-Moves n h =
      Ensures-if (leb n (length buf - pos))
        (λ t.
          let room = leb→le n (length buf - pos) t in
          holds (
            (
              All-take _ n (drop pos buf) (All-drop _ pos buf bytes),
              take-length n _ (omega (arith, drop-length pos buf)),
            ),
            refl,
            omega arith,
          ))
        (λ _. failed)

module _ ⦃B : ByteOrder⦄ where
  decode_u16-IsU16 : (bs : List ℕ) → HasLength 2 bs → IsU16 (B.decode_u16 bs)
  decode_u16-IsU16 (x ∷ y ∷ []) h = omega (arith, B.decode_u16_lem x y h.0.0 h.0.1.0)
  decode_u16-IsU16 [] h = absurd (omega arith)
  decode_u16-IsU16 (x ∷ []) h = absurd (omega arith)
  decode_u16-IsU16 (x ∷ y ∷ z ∷ bs) h = absurd (omega arith)

  decode_u32-IsU32 : (bs : List ℕ) → HasLength 4 bs → IsU32 (B.decode_u32 bs)
  decode_u32-IsU32 (x ∷ y ∷ z ∷ w ∷ []) h =
      omega (arith, B.decode_u32_lem x y z w h.0.0 h.0.1.0 h.0.1.1.0 h.0.1.1.1.0)
  decode_u32-IsU32 [] h = absurd (omega arith)
  decode_u32-IsU32 (x ∷ []) h = absurd (omega arith)
  decode_u32-IsU32 (x ∷ y ∷ []) h = absurd (omega arith)
  decode_u32-IsU32 (x ∷ y ∷ z ∷ []) h = absurd (omega arith)
  decode_u32-IsU32 (x ∷ y ∷ z ∷ w ∷ v ∷ bs) h = absurd (omega arith)

  module _ (buf : List ℕ) (bytes : All IsByte buf) (pos : ℕ) (inside : pos ≤ length buf) where
    pub read_u16-Moves : Ensures (Moves IsU16 buf pos 2) (read_u16 buf pos)
    unfolding read_u16
    read_u16-Moves =
        Ensures-bind (read_exact-Moves buf bytes pos 2 inside)
          λ bs p (h, e, l). holds (decode_u16-IsU16 bs h, e, l)

    pub read_u32-Moves : Ensures (Moves IsU32 buf pos 4) (read_u32 buf pos)
    unfolding read_u32
    read_u32-Moves =
        Ensures-bind (read_exact-Moves buf bytes pos 4 inside)
          λ bs p (h, e, l). holds (decode_u32-IsU32 bs h, e, l)
