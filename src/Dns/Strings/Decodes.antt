-- ===== src/Dns/Strings/Decodes.antt =====
-- What it means for a name to stand at a position of a message, apart from any way to read it
-- (RFC 1035 §4.1.4): `Decodes buf depth pos segments end` says that these labels stand at `pos`,
-- that `depth` pointers are followed, and that the name's own bytes end before `end`.
use dog.Prelude.{
  ℕ, zero, suc, ◌+◌, ◌-◌, ◌≤◌, ◌<◌, ◌≡◌, refl, sym, ◌∙◌, ap, some, List, [], ◌∷◌, arith,
}
use dog.Prelude.{
  length, get_elem?, take, drop, All, All-take, All-drop, take-length, drop-length, get_elem?-lt,
}
use dog.Dns.Cursor.{IsByte, from_be_bytes}
use mathlib.Core.Path.{subst}
use dog.Dns.Strings.Defs.{Segments}

pub data Decodes (buf : List ℕ) : ℕ → ℕ → Segments → ℕ → Type 0 where
  finish : {pos : ℕ} → get_elem? buf pos ≡ some 0 → Decodes buf zero pos [] (pos + 1)
  label :
      {depth pos n end : ℕ} {segments : Segments}
      → get_elem? buf pos ≡ some n
      → 0 < n
      → n < 192
      → pos + 1 + n ≤ length buf
      → Decodes buf depth (pos + 1 + n) segments end
      → Decodes buf depth pos (take n (drop (pos + 1) buf) ∷ segments) end
  pointer :
      {depth pos b₁ b₂ end : ℕ} {segments : Segments}
      → get_elem? buf pos ≡ some b₁
      → 192 ≤ b₁
      → get_elem? buf (pos + 1) ≡ some b₂
      → Decodes buf depth (from_be_bytes (b₁ - 192) b₂) segments end
      → Decodes buf (suc depth) pos segments (pos + 2)

-- The constructors with their positions up to an equation.
module _ {buf : List ℕ} where
  pub finish_at :
      {pos end byte : ℕ}
      → get_elem? buf pos ≡ some byte
      → byte ≡ 0
      → end ≡ pos + 1
      → Decodes buf zero pos [] end
  finish_at {pos} h z e = subst (λ q. Decodes buf zero pos [] q) (sym e) (finish (h ∙ ap some z))

  pub label_at :
      {depth pos n next end : ℕ} {name : List ℕ} {segments : Segments}
      → get_elem? buf pos ≡ some n
      → 0 < n
      → n < 192
      → next ≡ pos + 1 + n
      → next ≤ length buf
      → name ≡ take n (drop (pos + 1) buf)
      → Decodes buf depth next segments end
      → Decodes buf depth pos (name ∷ segments) end
  label_at {depth} {pos} {end} {segments} h p s e r en d =
      subst (λ w. Decodes buf depth pos (w ∷ segments) end) (sym en)
        (label h p s (omega arith) (subst (λ q. Decodes buf depth q segments end) e d))

  pub pointer_at :
      {depth pos b₁ b₂ end end' : ℕ} {segments : Segments}
      → get_elem? buf pos ≡ some b₁
      → 192 ≤ b₁
      → get_elem? buf (pos + 1) ≡ some b₂
      → end ≡ pos + 2
      → Decodes buf depth (from_be_bytes (b₁ - 192) b₂) segments end'
      → Decodes buf (suc depth) pos segments end
  pointer_at {depth} {pos} {segments} h p h' e d =
      subst (λ q. Decodes buf (suc depth) pos segments q) (sym e) (pointer h p h' d)

-- A label as it can stand in a message: the length byte is neither the end nor a pointer.
abbrev pub IsLabel : List ℕ → Type 0
IsLabel segment = All IsByte segment × (1 ≤ length segment) × (length segment < 192)

pub Decodes-bounds :
    {buf : List ℕ} {depth pos end : ℕ} {segments : Segments}
    → Decodes buf depth pos segments end
    → (pos < end) × (end ≤ length buf)
Decodes-bounds {buf} {pos} (finish e) = let h = get_elem?-lt buf pos e in omega arith
Decodes-bounds (label e p s r d) = let h = Decodes-bounds d in omega arith
Decodes-bounds {buf} {pos} (pointer e p e' d) = let h = get_elem?-lt buf (pos + 1) e' in omega arith

pub Decodes-labels :
    {buf : List ℕ} {depth pos end : ℕ} {segments : Segments}
    → All IsByte buf
    → Decodes buf depth pos segments end
    → All IsLabel segments
Decodes-labels bytes (finish e) = tt
Decodes-labels {buf} bytes (label {pos = p} {n} e pos small room d) =
    let taken = take-length n (drop (p + 1) buf) (omega (arith, drop-length (p + 1) buf)) in
    (
      (All-take IsByte n _ (All-drop IsByte (p + 1) buf bytes), omega arith, omega arith),
      Decodes-labels bytes d,
    )
Decodes-labels bytes (pointer e p e' d) = Decodes-labels bytes d

pub Decodes-unique_at :
    {buf : List ℕ} {depth depth' pos pos' end end' : ℕ} {segments segments' : Segments}
    → Decodes buf depth pos segments end
    → Decodes buf depth' pos' segments' end'
    → pos ≡ pos'
    → (depth ≡ depth') × (segments ≡ segments') × (end ≡ end')
Decodes-unique_at (finish e) (finish e') at = (refl, refl, omega arith)
Decodes-unique_at (finish e) (label e' p s r d) at = absurd (ground arith)
Decodes-unique_at (finish e) (pointer e' p e'' d) at = absurd (ground arith)
Decodes-unique_at (label e p s r d) (finish e') at = absurd (ground arith)
Decodes-unique_at {buf} {pos} {pos'} (label {n} e p s r d) (label {n = m} e' p' s' r' d') at =
    let same : n ≡ m = cc in let (ed, es, ee) = Decodes-unique_at d d' (omega arith) in (ed, cc, ee)
Decodes-unique_at (label e p s r d) (pointer e' p' e'' d') at = absurd (ground arith)
Decodes-unique_at (pointer e p e'' d) (finish e') at = absurd (ground arith)
Decodes-unique_at (pointer e p e'' d) (label e' p' s' r' d') at = absurd (ground arith)
Decodes-unique_at {buf} {pos} {pos'} (pointer {b₁} {b₂} e p q d)
      (pointer {b₁ = c₁} {b₂ = c₂} e' p' q' d') at =
    let first : b₁ ≡ c₁ = cc in
    let next : pos + 1 ≡ pos' + 1 = omega arith in
    let second : b₂ ≡ c₂ = cc in
    let (ed, es, ee) = Decodes-unique_at d d' (omega arith) in (omega arith, es, omega arith)

-- At most one name stands at a position.
pub Decodes-unique :
    {buf : List ℕ} {depth depth' pos end end' : ℕ} {segments segments' : Segments}
    → Decodes buf depth pos segments end
    → Decodes buf depth' pos segments' end'
    → (depth ≡ depth') × (segments ≡ segments') × (end ≡ end')
Decodes-unique d d' = Decodes-unique_at d d' refl
