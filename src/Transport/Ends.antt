-- ===== src/Transport/Ends.antt =====
-- Total correctness of what the transports do: there is no panic, the fuel is enough, and a
-- postcondition holds of what is returned.
use dog.Prelude.{◌≡◌, refl, Bool, true, false, if◌then◌else◌}
use dog.Transport.Errors.{Result, ok, err, panic, out_of_fuel, ◌>>=◌}

abbrev pub Ends {ℓ} : {A : Type ℓ} → (A → Type 0) → Result A → Type 0
Ends P (ok x) = P x
Ends P (err e) = Unit
Ends P panic = ⊥
Ends P out_of_fuel = ⊥

-- Nothing is said of what is returned.
abbrev pub Any {ℓ} : {A : Type ℓ} → A → Type 0
Any x = Unit

module _ {ℓ ℓ'} {A : Type ℓ} {B : Type ℓ'} where
  pub Ends-bind :
      (P : A → Type 0) (Q : B → Type 0) (m : Result A) (f : A → Result B)
      → Ends P m
      → ((x : A) → P x → Ends Q (f x))
      → Ends Q (m >>= f)
  Ends-bind P Q (ok x) f h k = k x h
  Ends-bind P Q (err e) f h k = tt
  Ends-bind P Q panic f h k = absurd h
  Ends-bind P Q out_of_fuel f h k = absurd h

module _ {ℓ} {A : Type ℓ} where
  pub Ends-if :
      (P : A → Type 0) (b : Bool) (x y : Result A)
      → (b ≡ true → Ends P x)
      → (b ≡ false → Ends P y)
      → Ends P (if b then x else y)
  Ends-if P true x y h k = h refl
  Ends-if P false x y h k = k refl

  pub Ends-weaken : (P Q : A → Type 0) (m : Result A) → ((x : A) → P x → Q x) → Ends P m → Ends Q m
  Ends-weaken P Q (ok x) w h = w x h
  Ends-weaken P Q (err e) w h = tt
  Ends-weaken P Q panic w h = absurd h
  Ends-weaken P Q out_of_fuel w h = absurd h
