-- ===== src/Dns/Strings/Display/Injective.antt =====
-- Different names are displayed differently: the escapes keep a dot inside a label apart from one
-- between labels.
use dog.Prelude.{
  ℕ, ◌+◌, ◌/◌, ◌%◌, ◌≤◌, ◌<◌, ◌≡◌, ◌≢◌, ◌⊎◌, refl, sym, ap, ◌∙◌, inl, inr, List, [], ◌∷◌, ◌++◌,
  append_assoc, arith, All, length, length-append,
}
use dog.Dns.Cursor.{IsByte}
use dog.Dns.Strings.Defs.{Segments, Labels}
use dog.Dns.Strings.Display.{write_name_byte, write_segment, write_name, display_segments, display}

abbrev plain : ℕ → List ℕ
plain byte = byte ∷ []

abbrev escaped : ℕ → List ℕ
escaped byte = b'\\' ∷ byte ∷ []

abbrev in_decimal : ℕ → List ℕ
in_decimal byte = b'\\' ∷ (b'0' + byte / 100) ∷ (b'0' + byte / 10 % 10) ∷ (b'0' + byte % 10) ∷ []

-- The three forms of a byte. No byte that is escaped as itself is a digit.
abbrev Form : ℕ → Type 0
Form byte =
    ((write_name_byte byte ≡ plain byte) × (byte ≢ b'.') × (byte ≢ b'\\'))
    ⊎ (((write_name_byte byte ≡ escaped byte) × (byte < 0x30 ⊎ 0x39 < byte))
        ⊎ (write_name_byte byte ≡ in_decimal byte))

form : (byte : ℕ) → Form byte
unfolding write_name_byte
form byte = ground arith

-- Behind its form, a byte and what follows it are known.
byte_prefix :
    (b c : ℕ) (x y : List ℕ)
    → IsByte b
    → IsByte c
    → write_name_byte b ++ x ≡ write_name_byte c ++ y
    → (b ≡ c) × (x ≡ y)
byte_prefix b c x y h k e = elim (form b) [
  | inl (eb, nb, mb) ↦ elim (form c) [
    | inl (ec, nc, mc) ↦ let p : b ∷ x ≡ c ∷ y = sym (rw eb refl) ∙ e ∙ rw ec refl in (cc p, cc p)
    | inr (inl (ec, dc)) ↦
        let p : b ∷ x ≡ escaped c ++ y = sym (rw eb refl) ∙ e ∙ rw ec refl in absurd (mb (cc p))
    | inr (inr ec) ↦
        let p : b ∷ x ≡ in_decimal c ++ y = sym (rw eb refl) ∙ e ∙ rw ec refl in absurd (mb (cc p))
  ]
  | inr (inl (eb, db)) ↦ elim (form c) [
    | inl (ec, nc, mc) ↦
        let p : escaped b ++ x ≡ c ∷ y = sym (rw eb refl) ∙ e ∙ rw ec refl in absurd (mc (cc p))
    | inr (inl (ec, dc)) ↦
        let p : escaped b ++ x ≡ escaped c ++ y = sym (rw eb refl) ∙ e ∙ rw ec refl in (cc p, cc p)
    | inr (inr ec) ↦
        let p : escaped b ++ x ≡ in_decimal c ++ y = sym (rw eb refl) ∙ e ∙ rw ec refl in
        let digit : b ≡ b'0' + c / 100 = cc p in absurd (omega arith)
  ]
  | inr (inr eb) ↦ elim (form c) [
    | inl (ec, nc, mc) ↦
        let p : in_decimal b ++ x ≡ c ∷ y = sym (rw eb refl) ∙ e ∙ rw ec refl in absurd (mc (cc p))
    | inr (inl (ec, dc)) ↦
        let p : in_decimal b ++ x ≡ escaped c ++ y = sym (rw eb refl) ∙ e ∙ rw ec refl in
        let digit : b'0' + b / 100 ≡ c = cc p in absurd (omega arith)
    | inr (inr ec) ↦
        let p : in_decimal b ++ x ≡ in_decimal c ++ y = sym (rw eb refl) ∙ e ∙ rw ec refl in
        let hundreds : b'0' + b / 100 ≡ b'0' + c / 100 = cc p in
        let tens : b'0' + b / 10 % 10 ≡ b'0' + c / 10 % 10 = cc p in
        let units : b'0' + b % 10 ≡ b'0' + c % 10 = cc p in (omega arith, cc p)
  ]
]

-- No byte is displayed as a dot that ends a label.
byte_not_dot : (b : ℕ) (x y : List ℕ) → write_name_byte b ++ x ≢ b'.' ∷ y
byte_not_dot b x y e = elim (form b) [
  | inl (eb, nb, mb) ↦ let p : b ∷ x ≡ b'.' ∷ y = sym (rw eb refl) ∙ e in nb (cc p)
  | inr (inl (eb, db)) ↦
      let p : escaped b ++ x ≡ b'.' ∷ y = sym (rw eb refl) ∙ e in
      let wrong : ◌≡◌ {A = ℕ} b'\\' b'.' = cc p in absurd (omega arith)
  | inr (inr eb) ↦
      let p : in_decimal b ++ x ≡ b'.' ∷ y = sym (rw eb refl) ∙ e in
      let wrong : ◌≡◌ {A = ℕ} b'\\' b'.' = cc p in absurd (omega arith)
]

segment_prefix :
    (s t x y : List ℕ)
    → All IsByte s
    → All IsByte t
    → write_segment s ++ (b'.' ∷ x) ≡ write_segment t ++ (b'.' ∷ y)
    → (s ≡ t) × (x ≡ y)
unfolding write_segment
segment_prefix [] [] x y h k e = (refl, cc e)
segment_prefix [] (c ∷ t) x y h k e = absurd (
    byte_not_dot c (write_segment t ++ (b'.' ∷ y)) x
      (sym (append_assoc (write_name_byte c) (write_segment t) _) ∙ sym e))
segment_prefix (b ∷ s) [] x y h k e = absurd (
    byte_not_dot b (write_segment s ++ (b'.' ∷ x)) y
      (sym (append_assoc (write_name_byte b) (write_segment s) _) ∙ e))
segment_prefix (b ∷ s) (c ∷ t) x y (h, hs) (k, ks) e =
    let (same, more) = byte_prefix b c _ _ h k (
      sym (append_assoc (write_name_byte b) (write_segment s) _)
      ∙ e
      ∙ append_assoc (write_name_byte c) (write_segment t) _) in
    let (rest, behind) = segment_prefix s t x y hs ks more in (cc, behind)

write_name-injective :
    (a b : Segments) → All (All IsByte) a → All (All IsByte) b → write_name a ≡ write_name b → a ≡ b
unfolding write_name
write_name-injective [] [] h k e = refl
write_name-injective [] (t ∷ b) h k e =
    absurd (omega (arith, ap length e, length-append (write_segment t) (b'.' ∷ write_name b)))
write_name-injective (s ∷ a) [] h k e =
    absurd (omega (arith, ap length e, length-append (write_segment s) (b'.' ∷ write_name a)))
write_name-injective (s ∷ a) (t ∷ b) (h, hs) (k, ks) e =
    let (first, more) = segment_prefix s t _ _ h k e in
    let rest = write_name-injective a b hs ks more in cc

abbrev pub IsFilled : List ℕ → Type 0
IsFilled segment = All IsByte segment × (1 ≤ length segment)

IsFilled-bytes : (a : Segments) → All IsFilled a → All (All IsByte) a
IsFilled-bytes [] h = tt
IsFilled-bytes (s ∷ a) (h, hs) = (h.0, IsFilled-bytes a hs)

-- The dot of the root is no name with labels.
not_root :
    (s : List ℕ) (a : Segments) → IsFilled s → write_segment s ++ (b'.' ∷ write_name a) ≢ b'.' ∷ []
unfolding write_segment
not_root [] a h e = absurd (omega (arith, h.1))
not_root (c ∷ s) a h e =
    byte_not_dot c _ []
      (sym (append_assoc (write_name_byte c) (write_segment s) (b'.' ∷ write_name a)) ∙ e)

display_segments-injective :
    (a b : Segments)
    → All IsFilled a
    → All IsFilled b
    → display_segments a ≡ display_segments b
    → a ≡ b
unfolding display_segments write_name
display_segments-injective [] [] h k e = refl
display_segments-injective [] (t ∷ b) h k e = absurd (not_root t b k.0 (sym e))
display_segments-injective (s ∷ a) [] h k e = absurd (not_root s a h.0 e)
display_segments-injective (s ∷ a) (t ∷ b) h k e =
    write_name-injective (s ∷ a) (t ∷ b) (IsFilled-bytes (s ∷ a) h) (IsFilled-bytes (t ∷ b) k) e

-- Two names that are displayed alike are the same name, if their labels are bytes and none is
-- empty: the escapes lose nothing.
pub display-injective :
    (labels other : Labels)
    → All IsFilled labels.segments
    → All IsFilled other.segments
    → display labels ≡ display other
    → labels ≡ other
display-injective labels other h k e =
    let same = display_segments-injective labels.segments other.segments h k e in
    λ i. record { segments = same i }
