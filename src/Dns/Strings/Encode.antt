-- ===== src/Dns/Strings/Encode.antt =====
-- `Labels::encode` and `encode_label` of dns/src/strings.rs: names typed by the user. Texts are lists
-- of code points. An `InvalidName` is the reason that its text states, with the label that it quotes.
pub mod Valid
use dog.Prelude.{ℕ, Option, none, some, Bool, true, false, not, ◌||◌, ◌&&◌, List, [], ◌∷◌, ◌≡◌, ◌<◌}
use dog.Prelude.{◌==◌, leb, if◌then◌else◌, length, All}
use dog.Dns.Strings.Defs.{Segments, Labels, root, max_label, max_name, wire_length}

-- What `encode_label` uses of other packages: UTS 46 processing by the package idna, as
-- `label_to_ascii` calls it, whose result is ASCII, and two tests of std's `char`.
pub record Characters : Type 0 where
  pub label_to_ascii : List ℕ → Option (List ℕ)
  pub is_whitespace : ℕ → Bool
  pub is_control : ℕ → Bool
  pub label_to_ascii-IsAscii :
      (label ascii : List ℕ) → label_to_ascii label ≡ some ascii → All (λ c. c < 128) ascii

pub data InvalidName : Type 0 where
  empty : InvalidName
  empty_label : InvalidName
  space_or_control : List ℕ → InvalidName
  not_internationalised : List ℕ → InvalidName
  long_label : List ℕ → InvalidName
  long_name : InvalidName

pub data Encoded {ℓ} (A : Type ℓ) : Type ℓ where
  encoded : A → Encoded A
  invalid : InvalidName → Encoded A

-- `?`
abbrev pub and_then {ℓ κ} : {A : Type ℓ} {B : Type κ} → Encoded A → (A → Encoded B) → Encoded B
and_then (encoded x) f = f x
and_then (invalid reason) f = invalid reason

-- `chars().any(...)`
unfoldable pub any_char : (ℕ → Bool) → List ℕ → Bool
any_char test [] = false
any_char test (c ∷ cs) = test c || any_char test cs

-- `split('.')`
abbrev pub push_front : ℕ → List (List ℕ) → List (List ℕ)
push_front c [] = (c ∷ []) ∷ []
push_front c (label ∷ rest) = (c ∷ label) ∷ rest

unfoldable pub split_dots : List ℕ → List (List ℕ)
split_dots [] = [] ∷ []
split_dots (c ∷ cs) = let rest = split_dots cs in if c == b'.' then [] ∷ rest else push_front c rest

-- `strip_suffix('.').unwrap_or(input)`
unfoldable pub without_dot : List ℕ → List ℕ
without_dot [] = []
without_dot (c ∷ []) = if c == b'.' then [] else c ∷ []
without_dot (c ∷ d ∷ cs) = c ∷ without_dot (d ∷ cs)

module _ ⦃C : Characters⦄ where
  abbrev pub ascii_label : List ℕ → Option (List ℕ) → Encoded (List ℕ)
  ascii_label label none = invalid (not_internationalised label)
  ascii_label label (some ascii) =
      if leb (length ascii) max_label then encoded ascii else invalid (long_label label)

  unfoldable pub encode_label : List ℕ → Encoded (List ℕ)
  encode_label [] = invalid empty_label
  encode_label (c ∷ cs) =
      if any_char (λ x. C.is_whitespace x || C.is_control x) (c ∷ cs)
      then invalid (space_or_control (c ∷ cs))
      else ascii_label (c ∷ cs) (C.label_to_ascii (c ∷ cs))

  -- `map(encode_label).collect()`: the first error ends it.
  unfoldable pub encode_labels : List (List ℕ) → Encoded Segments
  encode_labels [] = encoded []
  encode_labels (label ∷ rest) =
      let more = encode_labels rest in
      and_then (encode_label label)
        λ segment. and_then more λ segments. encoded (segment ∷ segments)

  unfoldable pub encode_text : List ℕ → Encoded Labels
  encode_text input = and_then (encode_labels (split_dots (without_dot input))) λ segments.
      if leb (wire_length (record { segments = segments })) max_name
      then encoded (record { segments = segments })
      else invalid long_name

  -- `Labels::encode`
  unfoldable pub encode : List ℕ → Encoded Labels
  encode [] = invalid empty
  encode (c ∷ []) = if c == b'.' then encoded root else encode_text (c ∷ [])
  encode (c ∷ d ∷ cs) = encode_text (c ∷ d ∷ cs)
