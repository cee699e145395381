-- ===== src/Transport/Address/Parts.antt =====
-- The parts that a text is split into hold what the text holds.
use dog.Prelude.{
  ℕ, ◌+◌, ◌-◌, ◌*◌, ◌≤◌, ◌≡◌, ap, inl, inr, Option, none, some, true, Bool-cases, ◌&&◌, List, [],
  ◌∷◌, arith, leb, ◌==◌, ==→eq, All,
}
use dog.Transport.Ends.{Ends}
use dog.Transport.Address.{
  is_ascii_graphic, all_bytes, strip_prefix, behind_byte, split_before, split_once, or_here,
  rsplit_once, parse_digits, parse_unsigned, bracket_port, close_bracket, last_colon, split_address,
}

abbrev pub IsGraphic : ℕ → Type 0
IsGraphic c = (33 ≤ c) × (c ≤ 126)

-- A property of the value, if there is one.
abbrev pub Holds {ℓ κ} : {A : Type ℓ} → (A → Type κ) → Option A → Type κ
Holds P none = Unit
Holds P (some x) = P x

abbrev pub Both {κ} : (ℕ → Type κ) → List ℕ × List ℕ → Type κ
Both P (before, rest) = All P before × All P rest

pub all_bytes-IsGraphic :
    (text : List ℕ) → all_bytes is_ascii_graphic text ≡ true → All IsGraphic text
unfolding all_bytes
all_bytes-IsGraphic [] h = tt
all_bytes-IsGraphic (c ∷ text) h =
    let (first, more) : (is_ascii_graphic c ≡ true) × (all_bytes is_ascii_graphic text ≡ true) =
      ground arith in
    (ground arith, all_bytes-IsGraphic text more)

module _ (P : ℕ → Type 0) where
  pub strip_prefix-All :
      (prefix text : List ℕ) → All P text → Holds (All P) (strip_prefix prefix text)
  unfolding strip_prefix
  strip_prefix-All [] text h = h
  strip_prefix-All (p ∷ prefix) [] h = tt
  strip_prefix-All (p ∷ prefix) (c ∷ text) h = elim (Bool-cases (p == c)) [
    | inl same ↦ rw (same, strip_prefix) (strip_prefix-All prefix text h.1)
    | inr other ↦ rw (other, strip_prefix) tt
  ]

  behind_byte-All :
      (c : ℕ) (parts : Option (List ℕ × List ℕ))
      → P c
      → Holds (Both P) parts
      → Holds (Both P) (behind_byte c parts)
  behind_byte-All c none h k = tt
  behind_byte-All c (some (before, rest)) h k = ((h, k.0), k.1)

  pub split_before-All :
      (byte : ℕ) (text : List ℕ) → All P text → Holds (Both P) (split_before byte text)
  unfolding split_before
  split_before-All byte [] h = tt
  split_before-All byte (c ∷ text) h = elim (Bool-cases (c == byte)) [
    | inl same ↦ rw (same, split_before) (tt, h)
    | inr other ↦
        rw (other, split_before)
          (behind_byte-All c (split_before byte text) h.0 (split_before-All byte text h.1))
  ]

  pub split_once-All :
      (byte : ℕ) (text : List ℕ) → All P text → Holds (Both P) (split_once byte text)
  unfolding split_once
  split_once-All byte [] h = tt
  split_once-All byte (c ∷ text) h = elim (Bool-cases (c == byte)) [
    | inl same ↦ rw (same, split_once) (tt, h.1)
    | inr other ↦
        rw (other, split_once)
          (behind_byte-All c (split_once byte text) h.0 (split_once-All byte text h.1))
  ]

  or_here-All :
      (byte c : ℕ) (text : List ℕ) (parts : Option (List ℕ × List ℕ))
      → All P (c ∷ text)
      → Holds (Both P) parts
      → Holds (Both P) (or_here byte c text parts)
  or_here-All byte c text none h k = elim (Bool-cases (c == byte)) [
    | inl same ↦ rw same (tt, h.1)
    | inr other ↦ rw other tt
  ]
  or_here-All byte c text (some (before, rest)) h k = ((h.0, k.0), k.1)

  rsplit_once-All : (byte : ℕ) (text : List ℕ) → All P text → Holds (Both P) (rsplit_once byte text)
  unfolding rsplit_once
  rsplit_once-All byte [] h = tt
  rsplit_once-All byte (c ∷ text) h =
      or_here-All byte c text (rsplit_once byte text) h (rsplit_once-All byte text h.1)

  abbrev pub Host : List ℕ × Option (List ℕ) → Type 0
  Host (host, port) = All P host

  bracket_port-All :
      (addr host rest : List ℕ) (port : Option (List ℕ))
      → All P host
      → Ends Host (bracket_port addr host rest port)
  bracket_port-All addr host rest (some port) h = h
  bracket_port-All addr host [] none h = h
  bracket_port-All addr host (c ∷ rest) none h = tt

  close_bracket-All :
      (addr : List ℕ) (parts : Option (List ℕ × List ℕ))
      → Holds (Both P) parts
      → Ends Host (close_bracket addr parts)
  close_bracket-All addr none h = tt
  close_bracket-All addr (some (host, rest)) h =
      bracket_port-All addr host rest (strip_prefix (b':' ∷ []) rest) h.0

  last_colon-All :
      (addr : List ℕ) (parts : Option (List ℕ × List ℕ))
      → All P addr
      → Holds (Both P) parts
      → Host (last_colon addr parts)
  last_colon-All addr none h k = h
  last_colon-All addr (some (host, port)) h k = k.0

  pub split_address-All :
      (addr : List ℕ) (bracketed : Option (List ℕ))
      → All P addr
      → Holds (All P) bracketed
      → Ends Host (split_address addr bracketed)
  split_address-All addr (some bracketed) h k =
      close_bracket-All addr (split_once b']' bracketed) (split_once-All b']' bracketed k)
  split_address-All addr none h k =
      last_colon-All addr (rsplit_once b':' addr) h (rsplit_once-All b':' addr h)

-- The parts begin with the byte.
abbrev pub Begins : ℕ → List ℕ × List ℕ → Type 0
Begins byte (before, rest) = (more : List ℕ) × (rest ≡ byte ∷ more)

behind_byte-Begins :
    (byte c : ℕ) (parts : Option (List ℕ × List ℕ))
    → Holds (Begins byte) parts
    → Holds (Begins byte) (behind_byte c parts)
behind_byte-Begins byte c none h = tt
behind_byte-Begins byte c (some (before, rest)) h = h

pub split_before-Begins : (byte : ℕ) (text : List ℕ) → Holds (Begins byte) (split_before byte text)
unfolding split_before
split_before-Begins byte [] = tt
split_before-Begins byte (c ∷ text) = elim (Bool-cases (c == byte)) [
  | inl same ↦ rw (same, split_before) (text, ap (λ b. b ∷ text) (==→eq c byte same))
  | inr other ↦
      rw (other, split_before)
        (behind_byte-Begins byte c (split_before byte text) (split_before-Begins byte text))
]

parse_digits-fits :
    (max value : ℕ) (text : List ℕ)
    → value ≤ max
    → Holds (λ n. n ≤ max) (parse_digits max value text)
unfolding parse_digits
parse_digits-fits max value [] h = h
parse_digits-fits max value (c ∷ cs) h =
    let next = value * 10 + (c - b'0') in
    elim (Bool-cases ((leb b'0' c && leb c b'9') && leb next max)) [
      | inl fits ↦ rw (fits, parse_digits) (parse_digits-fits max next cs (ground arith))
      | inr past ↦ rw (past, parse_digits) tt
    ]

pub parse_unsigned-fits : (max : ℕ) (text : List ℕ) → Holds (λ n. n ≤ max) (parse_unsigned max text)
unfolding parse_unsigned
parse_unsigned-fits max [] = tt
parse_unsigned-fits max (c ∷ []) = parse_digits-fits max 0 (c ∷ []) (omega arith)
parse_unsigned-fits max (c ∷ d ∷ cs) = elim (Bool-cases (c == b'+')) [
  | inl plus ↦ rw (plus, parse_unsigned) (parse_digits-fits max 0 (d ∷ cs) (omega arith))
  | inr digit ↦ rw (digit, parse_unsigned) (parse_digits-fits max 0 (c ∷ d ∷ cs) (omega arith))
]
