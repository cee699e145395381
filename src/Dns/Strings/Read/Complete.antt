-- ===== src/Dns/Strings/Read/Complete.antt =====
-- A name that stands in a message, with fewer pointers than the limit, is read.
use dog.Prelude.{
  ℕ, zero, suc, ◌+◌, ◌-◌, ◌≤◌, ◌<◌, ◌≡◌, ◌↔◌, refl, ◌∙◌, some, false, List, [], ◌∷◌, ◌++◌, arith,
}
use dog.Prelude.{
  ◌==◌, le→leb, gt→leb, length, length-append, take, drop, get_elem?, get_elem?-some, get_elem?-lt,
  drop-get_elem?, append_assoc, append-nil, All, All-append, Bool-cases, inl, inr, ==→eq,
}
use dog.Dns.Outcome.{Reader, ok, Ensures-ok, u16_max}
use dog.Dns.Cursor.{IsMessage, from_be_bytes}
use dog.Dns.Cursor.Exact.{read_u8_get}
use dog.Dns.Strings.Defs.{Segments, Labels}
use dog.Dns.Strings.Decodes.{Decodes, finish, label, pointer, Decodes-unique_at, Decodes-bounds}
use dog.Dns.Strings.Read.{
  contains, recursion_limit, read_name, backtrack, read_round, read_string, read_labels,
}
use dog.Dns.Strings.Read.Bounds.{read_labels-Ensures}
use native.Mathlib.Numerals.{add-one}

module _ (buf : List ℕ) where
  read_name_at :
      (more before : ℕ) (name : List ℕ) (pos : ℕ)
      → pos + more ≤ length buf
      → before + more ≤ u16_max
      → read_name more before name buf pos
        ≡ ok ((name ++ take more (drop pos buf), before + more), pos + more)
  unfolding read_name
  read_name_at zero before name pos l f =
      let here : pos ≡ pos + 0 = omega arith in
      let count : before ≡ before + 0 = omega arith in cc (append-nil name)
  read_name_at (suc more) before name pos l f =
      let (c, at) = get_elem?-some buf pos (omega arith) in
      let here : pos + 1 + more ≡ pos + suc more = omega arith in
      let count : before + 1 + more ≡ before + suc more = omega arith in
      let rest =
        read_name_at more (before + 1) (name ++ c ∷ []) (pos + 1) (omega arith) (omega arith) in
      rw (read_u8_get buf pos at, le→leb (before + 1) u16_max (omega arith))
        (rest
          ∙ cc (
            append_assoc name (c ∷ []) (take more (drop (suc pos) buf)),
            drop-get_elem? buf pos at,
            add-one pos,
          ))

  module _ (jump : Segments → List ℕ → Reader (Segments × ℕ))
      (again : Segments → ℕ → Reader (Segments × ℕ)) (segments : Segments) (recursions : List ℕ)
      (before pos : ℕ) where
    round_finish :
        get_elem? buf pos ≡ some 0
        → before + 1 ≤ u16_max
        → read_round jump again segments recursions before buf pos
          ≡ ok ((segments, before + 1), pos + 1)
    unfolding read_round
    round_finish h f = rw (read_u8_get buf pos h, le→leb (before + 1) u16_max f)

    round_label :
        {n : ℕ}
        → get_elem? buf pos ≡ some n
        → 0 < n
        → n < 192
        → pos + 1 + n ≤ length buf
        → before + 1 + n ≤ u16_max
        → read_round jump again segments recursions before buf pos
          ≡ again (segments ++ take n (drop (pos + 1) buf) ∷ []) (before + 1 + n) buf (pos + 1 + n)
    unfolding read_round
    round_label {n} h p s l f = rw (
      read_u8_get buf pos h,
      le→leb (before + 1) u16_max (omega arith),
      ne_zero n p,
      gt→leb 0xc0 n s,
      read_name_at n (before + 1) [] (pos + 1) l f,
    )
      where
        ne_zero : (n : ℕ) → 0 < n → (n == 0) ≡ false
        ne_zero n p = ground arith

    round_pointer :
        {b₁ b₂ n end : ℕ} {segments' : Segments}
        → get_elem? buf pos ≡ some b₁
        → 192 ≤ b₁
        → get_elem? buf (pos + 1) ≡ some b₂
        → before + 2 ≤ u16_max
        → contains recursions (from_be_bytes (b₁ - 192) b₂) ≡ false
        → length recursions + 1 < recursion_limit
        → jump segments
            (recursions ++ from_be_bytes (b₁ - 192) b₂ ∷ [])
            buf
            (from_be_bytes (b₁ - 192) b₂)
          ≡ ok ((segments', n), end)
        → read_round jump again segments recursions before buf pos
          ≡ ok ((segments', before + 2), pos + 2)
    unfolding read_round backtrack
    round_pointer {b₁} {b₂} h p h' f fresh few run =
        let offset = from_be_bytes (b₁ - 192) b₂ in
        let here : pos + 1 + 1 ≡ pos + 2 = omega arith in
        let count : before + 1 + 1 ≡ before + 2 = omega arith in
        let shorter : length (recursions ++ offset ∷ []) < recursion_limit =
          omega (arith, length-append recursions (offset ∷ [])) in
        rw
          (
            read_u8_get buf pos h,
            le→leb (before + 1) u16_max (omega arith),
            ne_zero b₁ p,
            le→leb 0xc0 b₁ p,
            read_u8_get buf (pos + 1) h',
            le→leb (before + 1 + 1) u16_max (omega arith),
            fresh,
            gt→leb recursion_limit (length (recursions ++ offset ∷ [])) shorter,
            run,
          )
          (cc)
      where
        ne_zero : (n : ℕ) → 192 ≤ n → (n == 0) ≡ false
        ne_zero n p = ground arith

-- Every offset jumped to so far has a name that needs no fewer pointers than the one being read.
abbrev Above : List ℕ → ℕ → List ℕ → Type 0
Above buf depth =
    All (λ offset. (d : ℕ) × (s : Segments) × (e : ℕ) × (depth ≤ d) × Decodes buf d offset s e)

Above-fresh :
    {buf : List ℕ} {depth offset end : ℕ} {name : Segments} (recursions : List ℕ)
    → Above buf (suc depth) recursions
    → Decodes buf depth offset name end
    → contains recursions offset ≡ false
unfolding contains
Above-fresh [] a d = refl
Above-fresh {offset} (x ∷ xs) ((d', s, e, lt, dec), a) d = elim (Bool-cases (x == offset)) [
  | inl same ↦
      let (ed, _, _) = Decodes-unique_at dec d (==→eq x offset same) in absurd (omega arith)
  | inr other ↦ rw other (Above-fresh xs a d)
]

Above-less :
    (buf : List ℕ) (depth depth' : ℕ) (recursions : List ℕ)
    → depth' ≤ depth
    → Above buf depth recursions
    → Above buf depth' recursions
Above-less buf depth depth' [] l a = tt
Above-less buf depth depth' (x ∷ xs) l ((d, s, e, lt, dec), a) =
    ((d, s, e, omega arith, dec), Above-less buf depth depth' xs l a)

Above-push :
    (buf : List ℕ) (depth : ℕ) (recursions : List ℕ) {offset end : ℕ} {name : Segments}
    → Above buf (suc depth) recursions
    → Decodes buf depth offset name end
    → Above buf depth (recursions ++ offset ∷ [])
Above-push buf depth recursions a d =
    All-append _ recursions _ (Above-less buf (suc depth) depth recursions (omega arith) a)
      ((depth, _, _, omega arith, d), tt)

module _ (buf : List ℕ) (fits : length buf ≤ u16_max) where
  read_string_at :
      (depth fuel : ℕ) {d pos end : ℕ} {name : Segments} (segments : Segments) (recursions : List ℕ)
      (before : ℕ)
      → d ≤ depth
      → d + length recursions < recursion_limit
      → length buf < fuel + pos
      → before ≤ pos
      → Above buf d recursions
      → Decodes buf d pos name end
      → read_string depth fuel segments recursions before buf pos
        ≡ ok ((segments ++ name, before + (end - pos)), end)
  unfolding read_string
  read_string_at depth zero segments recursions before l r g b a dec =
      let h = Decodes-bounds dec in absurd (omega arith)
  read_string_at zero (suc fuel) {pos} segments recursions before l r g b a (finish h) =
      let room = get_elem?-lt buf pos h in
      let count : before + 1 ≡ before + (pos + 1 - pos) = omega arith in
      round_finish buf _ _ segments recursions before pos h (omega arith) ∙ cc (append-nil segments)
  read_string_at zero (suc fuel) {pos} {end} segments recursions before l r g b a
        (label {n} {segments = rest} h p s e dec) =
      let room = Decodes-bounds dec in
      let count : before + 1 + n + (end - (pos + 1 + n)) ≡ before + (end - pos) = omega arith in
      let name = take n (drop (pos + 1) buf) in
      round_label buf _ _ segments recursions before pos h p s e (omega arith)
      ∙ read_string_at zero fuel (segments ++ name ∷ []) recursions (before + 1 + n) l r
          (omega arith) (omega arith) a dec
      ∙ cc (append_assoc segments (name ∷ []) rest)
  read_string_at zero (suc fuel) segments recursions before l r g b a (pointer h p h' dec) =
      absurd (omega arith)
  read_string_at (suc depth) (suc fuel) {pos} segments recursions before l r g b a (finish h) =
      let room = get_elem?-lt buf pos h in
      let count : before + 1 ≡ before + (pos + 1 - pos) = omega arith in
      round_finish buf _ _ segments recursions before pos h (omega arith) ∙ cc (append-nil segments)
  read_string_at (suc depth) (suc fuel) {pos} {end} segments recursions before l r g b a
        (label {n} {segments = rest} h p s e dec) =
      let room = Decodes-bounds dec in
      let count : before + 1 + n + (end - (pos + 1 + n)) ≡ before + (end - pos) = omega arith in
      let name = take n (drop (pos + 1) buf) in
      round_label buf _ _ segments recursions before pos h p s e (omega arith)
      ∙ read_string_at (suc depth) fuel (segments ++ name ∷ []) recursions (before + 1 + n) l r
          (omega arith) (omega arith) a dec
      ∙ cc (append_assoc segments (name ∷ []) rest)
  read_string_at (suc depth) (suc fuel) {pos} segments recursions before l r g b a
        (pointer {depth = d} {b₁} {b₂} h p h' dec) =
      let room = get_elem?-lt buf (pos + 1) h' in
      let offset = from_be_bytes (b₁ - 192) b₂ in
      let count : before + 2 ≡ before + (pos + 2 - pos) = omega arith in
      round_pointer buf _ _ segments recursions before pos h p h' (omega arith)
        (Above-fresh recursions a dec) (omega arith)
        (read_string_at depth (suc (length buf)) segments (recursions ++ offset ∷ []) 0
          (omega arith) (omega (arith, length-append recursions (offset ∷ []))) (omega arith)
          (omega arith) (Above-push buf d recursions a dec) dec)
      ∙ cc

  pub read_labels_at :
      {depth pos end : ℕ} {name : Segments}
      → Decodes buf depth pos name end
      → depth < recursion_limit
      → read_labels buf pos ≡ ok ((record { segments = name }, end - pos), end)
  unfolding read_labels
  read_labels_at {depth} {pos} {end} d l =
      let count : 0 + (end - pos) ≡ end - pos = omega arith in
      rw (
        read_string_at 7 (suc (length buf)) [] [] 0 (omega arith) (omega arith) (omega arith)
            (omega arith) tt d,
        count,
      )

-- On a message of at most 65,535 bytes, `read_labels` returns labels and a count exactly when
-- those labels stand at the position, fewer than eight pointers are followed to collect them,
-- and the count is the distance to the end of the name, where the cursor is left.
pub read_labels_iff :
    (buf : List ℕ) (pos : ℕ) (labels : Labels) (bytes_read end : ℕ)
    → IsMessage buf
    → (read_labels buf pos ≡ ok ((labels, bytes_read), end)) ↔ (
        (depth : ℕ) × Decodes buf depth pos labels.segments end
        × (depth < recursion_limit)
        × (bytes_read + pos ≡ end))
read_labels_iff buf pos labels bytes_read end message = (sound, complete)
  where
    sound :
        read_labels buf pos ≡ ok ((labels, bytes_read), end)
        → (depth : ℕ) × Decodes buf depth pos labels.segments end
          × (depth < recursion_limit)
          × (bytes_read + pos ≡ end)
    sound e = Ensures-ok (read_labels-Ensures buf message pos) e

    complete :
        ((depth : ℕ) × Decodes buf depth pos labels.segments end
          × (depth < recursion_limit)
          × (bytes_read + pos ≡ end))
        → read_labels buf pos ≡ ok ((labels, bytes_read), end)
    complete (depth, d, l, c) =
        let count : end - pos ≡ bytes_read = omega arith in
        read_labels_at buf (omega (arith, message.fits)) d l ∙ cc
