-- ===== src/Dns/Strings/Encode/Valid.antt =====
-- The names that `encode` accepts fit the limits of RFC 1035, and a message.
use dog.Prelude.{
  ℕ, ◌+◌, ◌≤◌, ◌<◌, ◌≡◌, refl, Option, none, some, Bool, true, false, if◌then◌else◌, List, [], ◌∷◌,
  ◌++◌, arith,
}
use dog.Prelude.{◌==◌, ◌||◌, leb, leb→le, length, All, All-weaken}
use mathlib.Core.Path.{subst}
use dog.Dns.Outcome.{ok, u16_max}
use dog.Dns.Cursor.{IsByte}
use dog.Dns.Strings.Defs.{Segments, Labels, max_label, max_name, segments_length, wire_length}
use dog.Dns.Strings.Decodes.{IsLabel}
use dog.Dns.Strings.Read.{read_labels}
use dog.Dns.Strings.Write.{write_labels}
use dog.Dns.Strings.Write.RoundTrip.{read_labels-write_labels}
use dog.Dns.Strings.Encode.{
  Characters, Encoded, encoded, invalid, space_or_control, long_name, and_then, any_char,
  ascii_label, encode_label, encode_labels, encode_text, encode, split_dots, without_dot,
}

-- A label of ASCII within the limit; it may be empty.
abbrev pub IsShort : List ℕ → Type 0
IsShort segment = All (λ c. c < 128) segment × (length segment ≤ max_label)

abbrev pub NonEmpty : List ℕ → Type 0
NonEmpty segment = 1 ≤ length segment

-- A property of the value, if there is one.
abbrev Holds {ℓ κ} : {A : Type ℓ} → (A → Type κ) → Encoded A → Type κ
Holds P (encoded x) = P x
Holds P (invalid reason) = Unit

Holds-and_then {ℓ κ ℓ' κ'} :
    {A : Type ℓ} {B : Type κ} (P : A → Type ℓ') (Q : B → Type κ') (m : Encoded A)
    (f : A → Encoded B)
    → Holds P m
    → ((x : A) → P x → Holds Q (f x))
    → Holds Q (and_then m f)
Holds-and_then P Q (encoded x) f h k = k x h
Holds-and_then P Q (invalid reason) f h k = tt

Holds-if {ℓ κ} :
    {A : Type ℓ} (P : A → Type κ) (b : Bool) (x y : Encoded A)
    → (b ≡ true → Holds P x)
    → (b ≡ false → Holds P y)
    → Holds P (if b then x else y)
Holds-if P true x y h k = h refl
Holds-if P false x y h k = k refl

-- Within the limits: labels of at most 63 bytes, and a name of at most 255.
abbrev pub IsValid : Labels → Type 0
IsValid labels = All IsShort labels.segments × (wire_length labels ≤ max_name)

module _ ⦃C : Characters⦄ where
  ascii_label-IsShort :
      (label : List ℕ) (ascii : Option (List ℕ))
      → C.label_to_ascii label ≡ ascii
      → Holds IsShort (ascii_label label ascii)
  ascii_label-IsShort label none h = tt
  ascii_label-IsShort label (some bytes) h =
      Holds-if IsShort (leb (length bytes) max_label) _ _
        (λ short. (C.label_to_ascii-IsAscii label bytes h, leb→le (length bytes) max_label short))
        (λ long. tt)

  encode_label-IsShort : (label : List ℕ) → Holds IsShort (encode_label label)
  unfolding encode_label
  encode_label-IsShort [] = tt
  encode_label-IsShort (c ∷ cs) =
      Holds-if IsShort (any_char (λ x. C.is_whitespace x || C.is_control x) (c ∷ cs))
        (invalid (space_or_control (c ∷ cs))) _ (λ bad. tt)
        (λ good. ascii_label-IsShort (c ∷ cs) _ refl)

  encode_labels-IsShort : (texts : List (List ℕ)) → Holds (All IsShort) (encode_labels texts)
  unfolding encode_labels
  encode_labels-IsShort [] = tt
  encode_labels-IsShort (text ∷ texts) =
      Holds-and_then IsShort (All IsShort) (encode_label text) _ (encode_label-IsShort text)
        λ segment h.
          Holds-and_then (All IsShort) (All IsShort) (encode_labels texts) _
            (encode_labels-IsShort texts) λ rest hs. (h, hs)

  encode_text-IsValid : (input : List ℕ) → Holds IsValid (encode_text input)
  unfolding encode_text
  encode_text-IsValid input =
      let texts = split_dots (without_dot input) in
      Holds-and_then (All IsShort) IsValid (encode_labels texts) _ (encode_labels-IsShort texts)
        λ segments h.
          Holds-if IsValid (leb (wire_length (record { segments = segments })) max_name)
            (encoded (record { segments = segments })) (invalid long_name)
            (λ fits. (h, leb→le _ max_name fits)) (λ long. tt)

  encode-IsValid : (input : List ℕ) → Holds IsValid (encode input)
  unfolding encode wire_length segments_length
  encode-IsValid [] = tt
  encode-IsValid (c ∷ []) =
      Holds-if IsValid (c == b'.') _ _ (λ dot. (tt, omega arith))
        (λ other. encode_text-IsValid (c ∷ []))
  encode-IsValid (c ∷ d ∷ cs) = encode_text-IsValid (c ∷ d ∷ cs)

pub IsShort-IsLabel :
    (segments : Segments) → All IsShort segments → All NonEmpty segments → All IsLabel segments
IsShort-IsLabel [] h n = tt
IsShort-IsLabel (segment ∷ rest) ((ascii, short), h) (n, ns) = (
  (All-weaken (λ c. c < 128) IsByte (λ c small. omega arith) segment ascii, n, omega arith),
  IsShort-IsLabel rest h ns,
)

-- If `Labels::encode` accepts a text, every label is ASCII and at most 63 bytes long, and the
-- name takes at most 255 bytes in a message, given that UTS 46 processing returns ASCII.
pub encode-limits :
    ⦃C : Characters⦄ (input : List ℕ) (labels : Labels)
    → encode input ≡ encoded labels
    → All IsShort labels.segments × (wire_length labels ≤ 255)
encode-limits input labels e = subst (Holds IsValid) e (encode-IsValid input)

-- If `Labels::encode` accepts a text and no label is empty after UTS 46 processing,
-- `write_labels` writes the name wherever there are 255 bytes left in a message, and
-- `read_labels` reads it back from there.
pub read_labels-write_labels-encode :
    ⦃C : Characters⦄ (input out rest : List ℕ) (labels : Labels)
    → encode input ≡ encoded labels
    → All NonEmpty labels.segments
    → length out + 255 + length rest ≤ u16_max
    → (bytes : List ℕ) × (write_labels out labels ≡ some bytes)
      × (read_labels (bytes ++ rest) (length out) ≡ ok ((labels, wire_length labels), length bytes))
read_labels-write_labels-encode input out rest labels e full fits =
    let (short, small) = encode-limits input labels e in
    read_labels-write_labels out rest labels (IsShort-IsLabel labels.segments short full)
      (omega arith)
