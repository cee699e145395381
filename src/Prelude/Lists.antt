-- ===== src/Prelude/Lists.antt =====
-- Lists measured and indexed by native numbers, under the library's names.
use Prim.Native.Nat.{ℕ, zero, suc, ◌+◌, ◌-◌, ◌≤◌, ◌<◌}
use mathlib.Core.Path.{◌≡◌, refl, ap, sym, subst, ◌∙◌}
use mathlib.Core.List.{List, [], ◌∷◌, ◌++◌}
use mathlib.Core.Option.{Option, none, some}
use native.Mathlib.Omega.{arith}

module _ {ℓ} {A : Type ℓ} where
  abbrev pub length : List A → ℕ
  length [] = 0
  length (x ∷ xs) = suc (length xs)

  abbrev pub get_elem? : List A → ℕ → Option A
  get_elem? [] i = none
  get_elem? (x ∷ xs) zero = some x
  get_elem? (x ∷ xs) (suc i) = get_elem? xs i

  abbrev pub take : ℕ → List A → List A
  take zero xs = []
  take (suc n) [] = []
  take (suc n) (x ∷ xs) = x ∷ take n xs

  abbrev pub drop : ℕ → List A → List A
  drop zero xs = xs
  drop (suc n) [] = []
  drop (suc n) (x ∷ xs) = drop n xs

  abbrev pub All {κ} : (A → Type κ) → List A → Type κ
  All P [] = Unit {κ}
  All P (x ∷ xs) = P x × All P xs

  pub length-append : (xs ys : List A) → length (xs ++ ys) ≡ length xs + length ys
  length-append [] ys = omega arith
  length-append (x ∷ xs) ys = omega (arith, length-append xs ys)

  pub take-length : (n : ℕ) (xs : List A) → n ≤ length xs → length (take n xs) ≡ n
  take-length zero xs h = refl
  take-length (suc n) [] h = absurd (omega arith)
  take-length (suc n) (x ∷ xs) h = ap suc (take-length n xs (omega arith))

  pub drop-length : (n : ℕ) (xs : List A) → length (drop n xs) ≡ length xs - n
  drop-length zero xs = omega arith
  drop-length (suc n) [] = omega arith
  drop-length (suc n) (x ∷ xs) = omega (arith, drop-length n xs)

  pub drop-append : (xs ys : List A) → drop (length xs) (xs ++ ys) ≡ ys
  drop-append [] ys = refl
  drop-append (x ∷ xs) ys = drop-append xs ys

  pub take-append : (xs ys : List A) → take (length xs) (xs ++ ys) ≡ xs
  take-append [] ys = refl
  take-append (x ∷ xs) ys = ap (λ t. x ∷ t) (take-append xs ys)

  pub drop-suc :
      (n : ℕ) (xs : List A) {x : A} {ys : List A} → drop n xs ≡ x ∷ ys → drop (suc n) xs ≡ ys
  drop-suc zero (x ∷ xs) h = cc
  drop-suc zero [] h = cc
  drop-suc (suc n) [] h = cc
  drop-suc (suc n) (x ∷ xs) h = drop-suc n xs h

  drop-nil : (n : ℕ) → drop n [] ≡ []
  drop-nil zero = refl
  drop-nil (suc n) = refl

  pub drop-drop : (m n : ℕ) (xs : List A) → drop m (drop n xs) ≡ drop (n + m) xs
  drop-drop m zero xs = ap (λ k. drop k xs) (omega arith)
  drop-drop m (suc n) [] = drop-nil m ∙ sym (drop-nil (suc n + m))
  drop-drop m (suc n) (x ∷ xs) =
      let e : suc (n + m) ≡ suc n + m = omega arith in
      drop-drop m n xs ∙ ap (λ k. drop k (x ∷ xs)) e

  pub get_elem?-none : (xs : List A) (i : ℕ) → get_elem? xs i ≡ none → length xs ≤ i
  get_elem?-none [] i h = omega arith
  get_elem?-none (x ∷ xs) zero h = cc
  get_elem?-none (x ∷ xs) (suc i) h = omega (arith, get_elem?-none xs i h)

  pub get_elem?-lt : (xs : List A) (i : ℕ) {x : A} → get_elem? xs i ≡ some x → i < length xs
  get_elem?-lt [] i h = cc
  get_elem?-lt (x ∷ xs) zero h = omega arith
  get_elem?-lt (x ∷ xs) (suc i) h = omega (arith, get_elem?-lt xs i h)

  pub get_elem?-some : (xs : List A) (i : ℕ) → i < length xs → (x : A) × (get_elem? xs i ≡ some x)
  get_elem?-some [] i h = absurd (omega arith)
  get_elem?-some (x ∷ xs) zero h = (x, refl)
  get_elem?-some (x ∷ xs) (suc i) h = get_elem?-some xs i (omega arith)

  pub get_elem?-drop :
      (xs : List A) (i : ℕ) {x : A} {ys : List A} → drop i xs ≡ x ∷ ys → get_elem? xs i ≡ some x
  get_elem?-drop [] zero h = cc
  get_elem?-drop [] (suc i) h = cc
  get_elem?-drop (x ∷ xs) zero h = cc
  get_elem?-drop (x ∷ xs) (suc i) h = get_elem?-drop xs i h

  pub drop-get_elem? :
      (xs : List A) (i : ℕ) {x : A} → get_elem? xs i ≡ some x → drop i xs ≡ x ∷ drop (suc i) xs
  drop-get_elem? [] i h = cc
  drop-get_elem? (x ∷ xs) zero h = cc
  drop-get_elem? (x ∷ xs) (suc i) h = drop-get_elem? xs i h

  module _ {κ} (P : A → Type κ) where
    pub All-get_elem? : (xs : List A) (i : ℕ) {x : A} → All P xs → get_elem? xs i ≡ some x → P x
    All-get_elem? [] i h e = cc
    All-get_elem? (y ∷ xs) zero {x} h e = let same : y ≡ x = cc in subst P same h.0
    All-get_elem? (y ∷ xs) (suc i) h e = All-get_elem? xs i h.1 e

    pub All-append : (xs ys : List A) → All P xs → All P ys → All P (xs ++ ys)
    All-append [] ys h k = k
    All-append (x ∷ xs) ys h k = (h.0, All-append xs ys h.1 k)

    pub All-take : (n : ℕ) (xs : List A) → All P xs → All P (take n xs)
    All-take zero xs h = tt
    All-take (suc n) [] h = tt
    All-take (suc n) (x ∷ xs) h = (h.0, All-take n xs h.1)

    pub All-drop : (n : ℕ) (xs : List A) → All P xs → All P (drop n xs)
    All-drop zero xs h = h
    All-drop (suc n) [] h = tt
    All-drop (suc n) (x ∷ xs) h = All-drop n xs h.1

pub All-weaken {ℓ κ κ'} :
    {A : Type ℓ} (P : A → Type κ) (Q : A → Type κ') (w : (x : A) → P x → Q x) (xs : List A)
    → All P xs
    → All Q xs
All-weaken P Q w [] h = tt
All-weaken P Q w (x ∷ xs) (h, hs) = (w x h, All-weaken P Q w xs hs)

module _ {ℓ} {A : Type ℓ} where
  -- The first `n` elements, and the others, where the front is shorter than that or not.
  pub take_past :
      (n : ℕ) (xs ys : List A) → length xs ≤ n → take n (xs ++ ys) ≡ xs ++ take (n - length xs) ys
  take_past n [] ys h = ap (λ k. take k ys) (omega arith)
  take_past zero (x ∷ xs) ys h = absurd (omega arith)
  take_past (suc n) (x ∷ xs) ys h =
      let e : n - length xs ≡ suc n - suc (length xs) = omega arith in
      ap (λ t. x ∷ t) (take_past n xs ys (omega arith) ∙ ap (λ k. xs ++ take k ys) e)

  pub drop_past :
      (n : ℕ) (xs ys : List A) → length xs ≤ n → drop n (xs ++ ys) ≡ drop (n - length xs) ys
  drop_past n [] ys h = ap (λ k. drop k ys) (omega arith)
  drop_past zero (x ∷ xs) ys h = absurd (omega arith)
  drop_past (suc n) (x ∷ xs) ys h =
      let e : n - length xs ≡ suc n - suc (length xs) = omega arith in
      drop_past n xs ys (omega arith) ∙ ap (λ k. drop k ys) e

  pub take-drop : (n : ℕ) (xs : List A) → take n xs ++ drop n xs ≡ xs
  take-drop zero xs = refl
  take-drop (suc n) [] = refl
  take-drop (suc n) (x ∷ xs) = ap (λ ys. x ∷ ys) (take-drop n xs)

  pub take_within : (n : ℕ) (xs ys : List A) → n ≤ length xs → take n (xs ++ ys) ≡ take n xs
  take_within zero xs ys h = refl
  take_within (suc n) [] ys h = absurd (omega arith)
  take_within (suc n) (x ∷ xs) ys h = ap (λ t. x ∷ t) (take_within n xs ys (omega arith))

  pub drop_within : (n : ℕ) (xs ys : List A) → n ≤ length xs → drop n (xs ++ ys) ≡ drop n xs ++ ys
  drop_within zero xs ys h = refl
  drop_within (suc n) [] ys h = absurd (omega arith)
  drop_within (suc n) (x ∷ xs) ys h = drop_within n xs ys (omega arith)
