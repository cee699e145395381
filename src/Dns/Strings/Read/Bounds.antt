-- ===== src/Dns/Strings/Read/Bounds.antt =====
-- Reading a name from a message neither panics nor runs out of fuel, and what it returns is the
-- name that stands there, with the number of bytes that the cursor moved by.
use dog.Prelude.{
  ℕ, zero, suc, ◌+◌, ◌-◌, ◌≤◌, ◌<◌, ◌≡◌, sym, ap, ◌∙◌, some, List, [], ◌∷◌, ◌++◌, arith, tests,
}
use dog.Prelude.{
  ◌==◌, leb, leb→gt, leb→le, ==→ne, ==→eq, length, length-append, take, drop, get_elem?,
  drop-get_elem?, append_assoc, append-nil,
}
use dog.Dns.Outcome.{
  Reader, Ensures, holds, failed, Ensures-branch, Ensures-weaken, Ensures-bind, Ensures-add_u16,
}
use dog.Dns.Cursor.{IsMessage, from_be_bytes}
use dog.Dns.Cursor.Bounds.{read_u8-Reads}
use dog.Dns.Strings.Defs.{Segments, Labels}
use dog.Dns.Strings.Decodes.{Decodes, finish_at, label_at, pointer_at}
use dog.Dns.Strings.Read.{
  contains, recursion_limit, read_name, backtrack, read_round, read_string, read_labels,
}
use mathlib.Core.Path.{subst}
use native.Mathlib.Numerals.{add-one}

-- What a run of the loop from `pos` returns: the labels of the name that stands there after those
-- read so far, reached by few enough pointers, and a count that grew by the distance moved.
abbrev NameRead : List ℕ → ℕ → Segments → ℕ → ℕ → Segments × ℕ → ℕ → Type 0
NameRead buf jumps read before pos r p =
    (name : Segments) × (depth : ℕ) × (r.0 ≡ read ++ name)
    × Decodes buf depth pos name p
    × (depth + jumps < recursion_limit)
    × (r.1 + pos ≡ before + p)

-- What `read_labels` returns: the name that stands at `pos`, and the number of bytes it moved by.
abbrev pub LabelsRead : List ℕ → ℕ → Labels × ℕ → ℕ → Type 0
LabelsRead buf pos r p =
    (depth : ℕ) × Decodes buf depth pos (r.0).segments p
    × (depth < recursion_limit)
    × (r.1 + pos ≡ p)

-- `more` bytes were read and appended to `name`.
abbrev BytesRead : List ℕ → ℕ → ℕ → List ℕ → ℕ → List ℕ × ℕ → ℕ → Type 0
BytesRead buf pos before name more r p =
    (r.0 ≡ name ++ take more (drop pos buf))
    × (r.1 ≡ before + more)
    × (p ≡ pos + more)
    × (p ≤ length buf)

module _ (buf : List ℕ) (message : IsMessage buf) where
  read_name-Ensures :
      (more before : ℕ) (name : List ℕ) (pos : ℕ)
      → before ≤ pos
      → pos ≤ length buf
      → Ensures (BytesRead buf pos before name more) (read_name more before name buf pos)
  unfolding read_name
  read_name-Ensures zero before name pos b l =
      holds (sym (append-nil name), omega arith, omega arith, l)
  read_name-Ensures (suc more) before name pos b l =
      Ensures-bind (read_u8-Reads buf message.bytes pos) λ c p₁ ((hc, e₁, l₁), at).
        Ensures-add_u16 before 1 _ (omega (arith, message.fits)) (
          Ensures-weaken (λ r p (en, eb, e, k). (en ∙ next c p₁ e₁ at, omega arith, omega arith, k))
            (read_name-Ensures more (before + 1) (name ++ c ∷ []) p₁ (omega arith) l₁))
    where
      next :
          (c p₁ : ℕ)
          → p₁ ≡ pos + 1
          → get_elem? buf pos ≡ some c
          → (name ++ c ∷ []) ++ take more (drop p₁ buf) ≡ name ++ take (suc more) (drop pos buf)
      next c p₁ e₁ at =
          rw (drop-get_elem? buf pos at, append_assoc name (c ∷ []) _, e₁, add-one pos)

  -- What the recursive call must ensure: it may start at any offset.
  abbrev Jumps : (Segments → List ℕ → Reader (Segments × ℕ)) → List ℕ → Type 0
  Jumps jump recursions =
      (segments : Segments) (offset : ℕ)
      → length recursions + 1 < recursion_limit
      → Ensures (NameRead buf (length recursions + 1) segments 0 offset)
          (jump segments (recursions ++ offset ∷ []) buf offset)

  backtrack-Ensures :
      (jump : Segments → List ℕ → Reader (Segments × ℕ)) (segments : Segments) (recursions : List ℕ)
      (before byte pos : ℕ)
      → Jumps jump recursions
      → get_elem? buf pos ≡ some byte
      → 192 ≤ byte
      → before ≤ pos
      → pos + 1 ≤ length buf
      → Ensures
          (NameRead buf (length recursions) segments before pos)
          (backtrack jump segments recursions (before + 1) (byte - 0xc0) buf (pos + 1))
  unfolding backtrack
  backtrack-Ensures jump segments recursions before byte pos jumps at big b l =
      Ensures-bind (read_u8-Reads buf message.bytes (pos + 1)) λ name_two p₁ ((hc, e₁, l₁), at₁).
        Ensures-add_u16 (before + 1) 1 _ (omega (arith, message.fits)) (
          let offset = from_be_bytes (byte - 0xc0) name_two in
          let recursions' = recursions ++ offset ∷ [] in
          Ensures-branch (contains recursions offset) _ _ (λ _. failed)
            λ _.
              Ensures-branch (leb recursion_limit (length recursions')) _ _ (λ _. failed)
                λ few.
                  Ensures-bind
                    (jumps segments offset
                      (omega (tests, few, length-append recursions (offset ∷ []))))
                    λ r p (name, depth, en, d, lim, c). holds (
                      name,
                      suc depth,
                      en,
                      pointer_at at big at₁ (omega arith) d,
                      omega arith,
                      omega arith,
                    ))

  read_round-Ensures :
      (jump : Segments → List ℕ → Reader (Segments × ℕ))
      (again : Segments → ℕ → Reader (Segments × ℕ)) (segments : Segments) (recursions : List ℕ)
      (before pos : ℕ)
      → Jumps jump recursions
      → ((name : List ℕ) (before' pos' : ℕ)
          → pos + 1 < pos'
          → before' ≤ pos'
          → pos' ≤ length buf
          → Ensures
              (NameRead buf (length recursions) (segments ++ name ∷ []) before' pos')
              (again (segments ++ name ∷ []) before' buf pos'))
      → before ≤ pos
      → length recursions < recursion_limit
      → Ensures
          (NameRead buf (length recursions) segments before pos)
          (read_round jump again segments recursions before buf pos)
  unfolding read_round
  read_round-Ensures jump again segments recursions before pos jumps loops b r =
      Ensures-bind (read_u8-Reads buf message.bytes pos) λ byte p₁ ((hb, e₁, l₁), at).
        Ensures-add_u16 before 1 _ (omega (arith, message.fits)) (
          Ensures-branch (byte == 0) _ _
            (λ end. holds (
              [],
              0,
              sym (append-nil segments),
              finish_at at (==→eq byte 0 end) e₁,
              omega arith,
              omega arith,
            ))
            λ ne.
              Ensures-branch (leb 0xc0 byte) _ _
                (λ big.
                  subst
                    (λ q.
                      Ensures (NameRead buf (length recursions) segments before pos)
                        (backtrack jump segments recursions (before + 1) (byte - 0xc0) buf q))
                    (sym e₁)
                    (backtrack-Ensures jump segments recursions before byte pos jumps at
                      (leb→le 0xc0 byte big) b (omega arith)))
                λ small.
                  Ensures-bind (read_name-Ensures byte (before + 1) [] p₁ (omega arith) l₁)
                    λ (name, n) p₂ (en, eb, e₂, l₂).
                      let positive = ==→ne byte 0 ne in
                      let under = leb→gt 0xc0 byte small in
                      Ensures-weaken
                        (λ r' p (rest, depth, er, d, lim, c). (
                          name ∷ rest,
                          depth,
                          er ∙ append_assoc segments (name ∷ []) rest,
                          label_at at (omega arith) under (omega arith) l₂
                              (en ∙ ap (λ q. take byte (drop q buf)) e₁) d,
                          lim,
                          omega arith,
                        ))
                        (loops name n p₂ (omega arith) (omega arith) l₂))

  read_string-Ensures :
      (depth fuel : ℕ) (segments : Segments) (recursions : List ℕ) (before pos : ℕ)
      → recursion_limit ≤ length recursions + depth + 1
      → length recursions < recursion_limit
      → 0 < fuel
      → length buf < fuel + pos
      → before ≤ pos
      → Ensures
          (NameRead buf (length recursions) segments before pos)
          (read_string depth fuel segments recursions before buf pos)
  unfolding read_string
  read_string-Ensures depth zero segments recursions before pos d r f g b = absurd (omega arith)
  read_string-Ensures zero (suc fuel) segments recursions before pos d r f g b =
      read_round-Ensures _ _ segments recursions before pos
        (λ segments' offset few. absurd (omega arith))
        (λ name before' pos' far b' l'.
          read_string-Ensures zero fuel (segments ++ name ∷ []) recursions before' pos' d r
            (omega arith) (omega arith) b')
        b r
  read_string-Ensures (suc depth) (suc fuel) segments recursions before pos d r f g b =
      read_round-Ensures _ _ segments recursions before pos
        (λ segments' offset few.
          let more = length-append recursions (offset ∷ []) in
          subst
            (λ n. Ensures (NameRead buf n segments' 0 offset) (
              read_string depth (suc (length buf)) segments' (recursions ++ offset ∷ []) 0 buf
                offset))
            more
            (read_string-Ensures depth (suc (length buf)) segments' (recursions ++ offset ∷ []) 0
              offset (omega arith) (omega arith) (omega arith) (omega arith) (omega arith)))
        (λ name before' pos' far b' l'.
          read_string-Ensures (suc depth) fuel (segments ++ name ∷ []) recursions before' pos' d r
            (omega arith) (omega arith) b')
        b r

  -- Reading a name ends, without a panic, in an error or in the name that stands at the position.
  pub read_labels-Ensures : (pos : ℕ) → Ensures (LabelsRead buf pos) (read_labels buf pos)
  unfolding read_labels
  read_labels-Ensures pos =
      Ensures-bind
        (read_string-Ensures 7 (suc (length buf)) [] [] 0 pos (omega arith) (omega arith)
          (omega arith) (omega arith) (omega arith))
        λ r p (name, depth, en, d, lim, c).
          holds (depth, subst (λ w. Decodes buf depth pos w p) (sym en) d, omega arith, omega arith)
