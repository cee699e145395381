-- ===== src/Transport/Https/Blank.antt =====
-- Where the head of a response ends, as far as the bytes that were read say.
use dog.Prelude.{
  ℕ, suc, ◌+◌, ◌≤◌, ◌<◌, ◌≡◌, refl, sym, ap, ◌∙◌, ◌⊎◌, inl, inr, Option, none, some, true, false,
  Bool-cases, List, [], ◌∷◌, ◌++◌, arith, ◌==◌, leb, leb→le, leb→gt, length,
}
use dog.Transport.Address.{strip_prefix, starts_with}
use dog.Transport.Https.{one_further, blank_line}

abbrev separator : List ℕ
separator = 13 ∷ 10 ∷ 13 ∷ 10 ∷ []

starts_with-same :
    (p c : ℕ) (ps cs : List ℕ) → (p == c) ≡ true → starts_with (p ∷ ps) (c ∷ cs) ≡ starts_with ps cs
unfolding strip_prefix
starts_with-same p c ps cs h = rw (h, starts_with, strip_prefix) refl

starts_with-other :
    (p c : ℕ) (ps cs : List ℕ) → (p == c) ≡ false → starts_with (p ∷ ps) (c ∷ cs) ≡ false
unfolding strip_prefix
starts_with-other p c ps cs h = rw (h, starts_with, strip_prefix) refl

-- A longer text starts with the same.
starts_with-append :
    (ps xs ys : List ℕ)
    → starts_with ps xs ≡ true
    → (starts_with ps (xs ++ ys) ≡ true) × (length ps ≤ length xs)
unfolding strip_prefix
starts_with-append [] xs ys h = (refl, omega arith)
starts_with-append (p ∷ ps) [] ys h = cc
starts_with-append (p ∷ ps) (c ∷ xs) ys h = elim (Bool-cases (p == c)) [
  | inl same ↦
      let (rest, l) = starts_with-append ps xs ys (sym (starts_with-same p c ps xs same) ∙ h) in
      (starts_with-same p c ps (xs ++ ys) same ∙ rest, omega (arith, l))
  | inr other ↦ cc (starts_with-other p c ps xs other)
]

-- A text that is long enough starts with what a longer one starts with.
starts_with-cut :
    (ps xs ys : List ℕ)
    → starts_with ps (xs ++ ys) ≡ true
    → length ps ≤ length xs
    → starts_with ps xs ≡ true
unfolding strip_prefix
starts_with-cut [] xs ys h l = refl
starts_with-cut (p ∷ ps) [] ys h l = absurd (omega arith)
starts_with-cut (p ∷ ps) (c ∷ xs) ys h l = elim (Bool-cases (p == c)) [
  | inl same ↦
      starts_with-same p c ps xs same
      ∙ starts_with-cut ps xs ys (sym (starts_with-same p c ps (xs ++ ys) same) ∙ h) (omega arith)
  | inr other ↦ cc (starts_with-other p c ps (xs ++ ys) other)
]

blank_line-here :
    (b : ℕ) (text : List ℕ)
    → starts_with separator (b ∷ text) ≡ true
    → blank_line (b ∷ text) ≡ some 0
unfolding blank_line
blank_line-here b text h = rw (h, blank_line) refl

blank_line-later :
    (b : ℕ) (text : List ℕ)
    → starts_with separator (b ∷ text) ≡ false
    → blank_line (b ∷ text) ≡ one_further (blank_line text)
unfolding blank_line
blank_line-later b text h = rw (h, blank_line) refl

blank_line-short : (text : List ℕ) → length text < 4 → blank_line text ≡ none
unfolding blank_line
blank_line-short [] l = refl
blank_line-short (b ∷ text) l = elim (Bool-cases (starts_with separator (b ∷ text))) [
  | inl here ↦ absurd (omega (arith, (starts_with-append separator (b ∷ text) [] here).1))
  | inr later ↦ blank_line-later b text later ∙ ap one_further (blank_line-short text (omega arith))
]

-- The blank line is in the part of the text that was read, or does not end in it.
abbrev pub Seen : ℕ → List ℕ → Type 0
Seen at text =
    ((blank_line text ≡ some at) × (at + 4 ≤ length text))
    ⊎ ((blank_line text ≡ none) × (length text < at + 4))

one_further-some :
    (o : Option ℕ) (at : ℕ)
    → one_further o ≡ some at
    → (before : ℕ) × (o ≡ some before) × (at ≡ suc before)
one_further-some none at h = cc
one_further-some (some before) at h = (before, refl, cc)

pub blank_line-Seen :
    (text more : List ℕ) (at : ℕ) → blank_line (text ++ more) ≡ some at → Seen at text
unfolding blank_line
blank_line-Seen [] more at h = inr (refl, omega arith)
blank_line-Seen (b ∷ text) more at h =
    elim (Bool-cases (starts_with separator (b ∷ (text ++ more)))) [
      | inl here ↦
          let first : at ≡ 0 = cc (blank_line-here b (text ++ more) here) in
          elim (Bool-cases (starts_with separator (b ∷ text))) [
            | inl within ↦ inl (
              blank_line-here b text within ∙ ap some (sym first),
              omega (arith, first, (starts_with-append separator (b ∷ text) more within).1),
            )
            | inr past ↦
                let short : length (b ∷ text) < 4 = elim (Bool-cases (leb 4 (length (b ∷ text)))) [
                  | inl long ↦ cc (
                    past,
                    starts_with-cut separator (b ∷ text) more here
                        (leb→le 4 (length (b ∷ text)) long),
                  )
                  | inr under ↦ leb→gt 4 (length (b ∷ text)) under
                ] in
                inr (blank_line-short (b ∷ text) short, omega (arith, short))
          ]
      | inr later ↦
          let (before, there, next) =
            one_further-some (blank_line (text ++ more)) at
              (sym (blank_line-later b (text ++ more) later) ∙ h) in
          let not_here : starts_with separator (b ∷ text) ≡ false =
            elim (Bool-cases (starts_with separator (b ∷ text))) [
              | inl early ↦ cc (later, (starts_with-append separator (b ∷ text) more early).0)
              | inr e ↦ e
            ] in
          elim (blank_line-Seen text more before there) [
            | inl (found, l) ↦ inl (
              blank_line-later b text not_here ∙ ap one_further found ∙ ap some (sym next),
              omega (arith, next, l),
            )
            | inr (nowhere, l) ↦
                inr (
                  blank_line-later b text not_here ∙ ap one_further nowhere,
                  omega (arith, next, l),
                )
          ]
    ]
