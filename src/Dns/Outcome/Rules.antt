-- ===== src/Dns/Outcome/Rules.antt =====
-- Total correctness of a read: it neither panics nor runs out of fuel, and a postcondition holds of
-- the value and the position that it returns.
use dog.Prelude.{ℕ, ◌+◌, ◌≤◌, ◌≡◌, ◌≢◌, refl, Bool, true, false, List, if◌then◌else◌}
use dog.Prelude.{◌-◌, ◌==◌, leb, le→leb, leb→le, ==→eq, Bool-cases, inl, inr}
use dog.Dns.Outcome.Defs.{
  WireError, Outcome, ok, err, panic, out_of_fuel, Reader, check_length, saturating_add, u16_max,
  go_on,
}
use mathlib.Core.Path.{subst}

pub data Ensures {ℓ κ} {A : Type ℓ} (Q : A → ℕ → Type κ) : Outcome (A × ℕ) → Type (ℓ ⊔ κ) where
  holds : {x : A} {p : ℕ} → Q x p → Ensures Q (ok (x, p))
  failed : {e : WireError} → Ensures Q (err e)

module _ {ℓ κ} {A : Type ℓ} {Q : A → ℕ → Type κ} where
  pub Ensures-ok : {r : Outcome (A × ℕ)} {x : A} {p : ℕ} → Ensures Q r → r ≡ ok (x, p) → Q x p
  Ensures-ok {x} {p} (holds {x = y} {p = q} h) e =
      let ex : y ≡ x = cc in let ep : q ≡ p = cc in subst (λ z. Q z p) ex (subst (λ k. Q y k) ep h)
  Ensures-ok failed e = cc

  pub Ensures-ends : {r : Outcome (A × ℕ)} → Ensures Q r → (r ≢ panic) × (r ≢ out_of_fuel)
  Ensures-ends (holds h) = ((λ e. cc), (λ e. cc))
  Ensures-ends failed = ((λ e. cc), (λ e. cc))

  pub Ensures-if :
      (b : Bool) {r s : Outcome (A × ℕ)}
      → (b ≡ true → Ensures Q r)
      → (b ≡ false → Ensures Q s)
      → Ensures Q (if b then r else s)
  Ensures-if true h k = h refl
  Ensures-if false h k = k refl

  -- The same between two reads; `m` and `k` can be left as `_`.
  pub Ensures-branch :
      (b : Bool) (m k : Reader A) {buf : List ℕ} {pos : ℕ}
      → (b ≡ true → Ensures Q (m buf pos))
      → (b ≡ false → Ensures Q (k buf pos))
      → Ensures Q ((if b then m else k) buf pos)
  Ensures-branch true m k hm hk = hm refl
  Ensures-branch false m k hm hk = hk refl

  pub Ensures-weaken {κ'} :
      {P : A → ℕ → Type κ'} {r : Outcome (A × ℕ)}
      → ((x : A) (p : ℕ) → P x p → Q x p)
      → Ensures P r
      → Ensures Q r
  Ensures-weaken w (holds h) = holds (w _ _ h)
  Ensures-weaken w failed = failed

module _ {ℓ ℓ' κ κ'} {A : Type ℓ} {B : Type ℓ'} {P : A → ℕ → Type κ} {Q : B → ℕ → Type κ'} where
  pub Ensures-bind :
      {r : Outcome (A × ℕ)} {f : A → ℕ → Outcome (B × ℕ)}
      → Ensures P r
      → ((x : A) (p : ℕ) → P x p → Ensures Q (f x p))
      → Ensures Q (go_on r f)
  Ensures-bind (holds {x} {p} h) k = k x p h
  Ensures-bind failed k = failed

-- A sum that fits a `u16` goes on with the sum.
pub Ensures-add_u16 {ℓ κ} :
    {A : Type ℓ} {Q : A → ℕ → Type κ} (m n : ℕ) {pos : ℕ} (f : ℕ → ℕ → Outcome (A × ℕ))
    → m + n ≤ u16_max
    → Ensures Q (f (m + n) pos)
    → Ensures Q (go_on (if leb (m + n) u16_max then ok (m + n, pos) else panic) f)
Ensures-add_u16 m n f fits h = rw (le→leb (m + n) u16_max fits) h

-- So does a difference that is not below zero.
pub Ensures-sub_u16 {ℓ κ} :
    {A : Type ℓ} {Q : A → ℕ → Type κ} (m n : ℕ) {pos : ℕ} (f : ℕ → ℕ → Outcome (A × ℕ))
    → n ≤ m
    → Ensures Q (f (m - n) pos)
    → Ensures Q (go_on (if leb n m then ok (m - n, pos) else panic) f)
Ensures-sub_u16 m n f fits h = rw (le→leb n m fits) h

pub Ensures-checked_sub {ℓ κ} :
    {A : Type ℓ} {Q : A → ℕ → Type κ} (m n : ℕ) {pos : ℕ} (e : WireError)
    (f : ℕ → ℕ → Outcome (A × ℕ))
    → (n ≤ m → Ensures Q (f (m - n) pos))
    → Ensures Q (go_on (if leb n m then ok (m - n, pos) else err e) f)
Ensures-checked_sub m n e f h = elim (Bool-cases (leb n m)) [
  | inl t ↦ rw t (h (leb→le n m t))
  | inr t ↦ rw t failed
]

pub Ensures-check_length {ℓ κ} :
    {A : Type ℓ} {Q : A → ℕ → Type κ} (m n : ℕ) (value : A) (buf : List ℕ) (pos : ℕ)
    → (m ≡ n → Q value pos)
    → Ensures Q (check_length m n value buf pos)
Ensures-check_length m n value buf pos h =
    Ensures-branch (m == n) _ _ (λ t. holds (h (==→eq m n t))) (λ _. failed)

pub saturating_add_lem : (m n : ℕ) → m + n ≤ u16_max → saturating_add m n ≡ m + n
saturating_add_lem m n fits = rw (le→leb (m + n) u16_max fits)
