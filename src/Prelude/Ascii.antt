-- ===== src/Prelude/Ascii.antt =====
-- Texts as their code points, and std's `eq_ignore_ascii_case`.
use Prim.Native.Char.{code}
use Prim.Native.Nat.{ℕ, zero, suc, ◌+◌, ◌/◌, ◌%◌}
use Prim.Native.String.{String}
use dog.Prelude.Tests.{leb, ◌==◌, if◌then◌else◌}
use mathlib.Core.Bool.{Bool, true, false, ◌&&◌}
use mathlib.Core.List.{List, [], ◌∷◌, ◌++◌, map}
use mathlib.Core.Path.{◌≡◌, refl}
use mathlib.Core.Logic.{◌↔◌}
use native.Mathlib.Omega.{arith}

-- The code points of a text: its bytes, if it is ASCII.
abbrev pub codes : String → List ℕ
codes String.[] = []
codes (String.◌∷◌ c s) = code c ∷ codes s

-- `u8::to_ascii_lowercase`
abbrev pub to_ascii_lowercase : ℕ → ℕ
to_ascii_lowercase c = if leb b'A' c && leb c b'Z' then c + 32 else c

unfoldable pub eq_ignore_ascii_case : List ℕ → List ℕ → Bool
eq_ignore_ascii_case [] [] = true
eq_ignore_ascii_case [] (b ∷ bs) = false
eq_ignore_ascii_case (a ∷ as') [] = false
eq_ignore_ascii_case (a ∷ as') (b ∷ bs) =
    to_ascii_lowercase a == to_ascii_lowercase b && eq_ignore_ascii_case as' bs

-- A conjunct that compares two numbers.
both_iff : (u v : ℕ) (t : Bool) → ((u == v && t) ≡ true) ↔ ((u ≡ v) × (t ≡ true))
both_iff u v t = (λ h. ground arith, λ h. ground arith)

-- Two texts are equal up to case exactly when they are equal in lower case.
pub eq_ignore_ascii_case_iff :
    (a b : List ℕ)
    → (eq_ignore_ascii_case a b ≡ true) ↔ (map to_ascii_lowercase a ≡ map to_ascii_lowercase b)
unfolding eq_ignore_ascii_case
eq_ignore_ascii_case_iff [] [] = ((λ _. refl), (λ _. refl))
eq_ignore_ascii_case_iff [] (y ∷ b) = ((λ h. cc), (λ h. cc))
eq_ignore_ascii_case_iff (x ∷ a) [] = ((λ h. cc), (λ h. cc))
eq_ignore_ascii_case_iff (x ∷ a) (y ∷ b) =
    let u = to_ascii_lowercase x in
    let v = to_ascii_lowercase y in
    let rest = eq_ignore_ascii_case_iff a b in
    (
      λ h. let (same, more) = (both_iff u v _).0 h in cc (same, rest.0 more),
      λ e. (both_iff u v _).1 (cc e, rest.1 (cc e)),
    )

-- `to_string` of an unsigned number. Each round takes a digit away, so the number is fuel enough.
unfoldable pub decimal_fuel : ℕ → ℕ → List ℕ
decimal_fuel zero n = []
decimal_fuel (suc fuel) n = elim (leb 10 n) [
  | true ↦ decimal_fuel fuel (n / 10) ++ (b'0' + n % 10) ∷ []
  | false ↦ (b'0' + n) ∷ []
]

abbrev pub decimal : ℕ → List ℕ
decimal n = decimal_fuel (suc n) n

-- A digit of `{:x}`.
abbrev pub hex_digit : ℕ → ℕ
hex_digit d = if leb 10 d then 87 + d else b'0' + d
