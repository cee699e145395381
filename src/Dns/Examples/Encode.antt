-- ===== src/Dns/Examples/Encode.antt =====
-- Names typed by the user: the theorems at concrete inputs, where a label is kept if it is ASCII.
use dog.Prelude.{
  ℕ, ◌≤◌, ◌<◌, ◌≡◌, refl, Option, some, none, Bool, true, Bool-cases, inl, inr, ◌&&◌, List, [], ◌∷◌,
  ◌++◌, arith,
}
use dog.Prelude.{◌==◌, ltb, if◌then◌else◌, length, All}
use mathlib.Core.Path.{subst}
use dog.Dns.Outcome.{ok}
use dog.Dns.Strings.Defs.{Labels, wire_length, segments_length}
use dog.Dns.Strings.Read.{read_labels}
use dog.Dns.Strings.Write.{write_labels}
use dog.Dns.Strings.Encode.{
  Characters, encoded, encode, encode_text, encode_labels, encode_label, any_char, split_dots,
  without_dot,
}
use dog.Dns.Strings.Encode.Valid.{IsShort, encode-limits, read_labels-write_labels-encode}

unfoldable pub all_ascii : List ℕ → Bool
all_ascii [] = true
all_ascii (c ∷ cs) = ltb c 128 && all_ascii cs

all_ascii-All : (cs : List ℕ) → all_ascii cs ≡ true → All (λ c. c < 128) cs
unfolding all_ascii
all_ascii-All [] h = tt
all_ascii-All (c ∷ cs) h = (ground arith, all_ascii-All cs (ground arith))

unfoldable pub keep_ascii : List ℕ → Option (List ℕ)
keep_ascii label = if all_ascii label then some label else none

pub keep_ascii-All :
    (label ascii : List ℕ) → keep_ascii label ≡ some ascii → All (λ c. c < 128) ascii
unfolding keep_ascii
keep_ascii-All label ascii e = elim (Bool-cases (all_ascii label)) [
  | inl kept ↦
      let same : label ≡ ascii = ground arith in
      subst (All (λ c. c < 128)) same (all_ascii-All label kept)
  | inr lost ↦ absurd (ground arith)
]

instance abbrev pub ascii_only : Characters
ascii_only = record {
  label_to_ascii = keep_ascii;
  is_whitespace = λ c. c == b' ';
  is_control = λ c. ltb c b' ';
  label_to_ascii-IsAscii = keep_ascii-All;
}

-- `a.mx.`
abbrev typed : List ℕ
typed = b'a' ∷ b'.' ∷ b'm' ∷ b'x' ∷ b'.' ∷ []

abbrev a_mx : Labels
a_mx = record { segments = (b'a' ∷ []) ∷ (b'm' ∷ b'x' ∷ []) ∷ [] }

typed-encode : encode typed ≡ encoded a_mx
unfolding encode encode_text encode_labels encode_label any_char split_dots without_dot keep_ascii
    all_ascii wire_length segments_length
typed-encode = refl

encode-limits_example : All IsShort a_mx.segments × (wire_length a_mx ≤ 255)
encode-limits_example = encode-limits typed a_mx typed-encode

read_labels-write_labels-encode_example :
    (bytes : List ℕ) × (write_labels [] a_mx ≡ some bytes)
    × (read_labels (bytes ++ 1 ∷ []) 0 ≡ ok ((a_mx, wire_length a_mx), length bytes))
read_labels-write_labels-encode_example =
    read_labels-write_labels-encode typed [] (1 ∷ []) a_mx typed-encode (omega arith) (omega arith)
