-- ===== src/Dns/Outcome/Defs.antt =====
-- `WireError` and `MandatedLength` of dns/src/wire.rs, and the outcome of a read.
use dog.Prelude.{ℕ, ◌+◌, ◌-◌, ◌==◌, List, leb, if◌then◌else◌}

pub data MandatedLength : Type 0 where
  exactly : ℕ → MandatedLength
  at_least : ℕ → MandatedLength

-- The numbers are a stated length with what was found, or a version with the highest supported.
pub data WireError : Type 0 where
  io : WireError
  wrong_record_length : ℕ → MandatedLength → WireError
  wrong_label_length : ℕ → ℕ → WireError
  too_much_recursion : List ℕ → WireError
  out_of_bounds : ℕ → WireError
  wrong_version : ℕ → ℕ → WireError

-- `panic` is an arithmetic overflow, which the release profile checks for.
pub data Outcome {ℓ} (A : Type ℓ) : Type ℓ where
  ok : A → Outcome A
  err : WireError → Outcome A
  panic : Outcome A
  out_of_fuel : Outcome A

-- A read of the `Cursor<&[u8]>`: the buffer, which never changes, and the position. An error ends
-- the whole parse, so the position is kept only beside a value.
abbrev pub Reader {ℓ} : Type ℓ → Type ℓ
Reader A = List ℕ → ℕ → Outcome (A × ℕ)

module _ {ℓ κ} {A : Type ℓ} {B : Type κ} where
  abbrev pub go_on : Outcome (A × ℕ) → (A → ℕ → Outcome (B × ℕ)) → Outcome (B × ℕ)
  go_on (ok (x, p)) f = f x p
  go_on (err e) f = err e
  go_on panic f = panic
  go_on out_of_fuel f = out_of_fuel

  infixl 5 ◌>>=◌
  abbrev pub ◌>>=◌ : Reader A → (A → Reader B) → Reader B
  ◌>>=◌ m f buf pos = go_on (m buf pos) (λ x p. f x buf p)

infixl 5 ◌>>◌
abbrev pub ◌>>◌ {ℓ} : {B : Type ℓ} → Reader (Unit {0}) → Reader B → Reader B
m >> k = m >>= λ _. k

module _ {ℓ} {A : Type ℓ} where
  abbrev pub pure : A → Reader A
  pure x buf pos = ok (x, pos)

  abbrev pub raise : WireError → Reader A
  raise e buf pos = err e

-- The largest `u16`.
abbrev pub u16_max : ℕ
u16_max = 65535

-- `a + b` on `u16`, with the overflow check.
abbrev pub add_u16 : ℕ → ℕ → Reader ℕ
add_u16 m n buf pos = if leb (m + n) u16_max then ok (m + n, pos) else panic

-- `a - b` on `u16`, with the check.
abbrev pub sub_u16 : ℕ → ℕ → Reader ℕ
sub_u16 m n buf pos = if leb n m then ok (m - n, pos) else panic

-- `saturating_add` on `u16`.
abbrev pub saturating_add : ℕ → ℕ → ℕ
saturating_add m n = if leb (m + n) u16_max then m + n else u16_max

-- `checked_sub(...).ok_or(e)?`
abbrev pub checked_sub : ℕ → ℕ → WireError → Reader ℕ
checked_sub m n e buf pos = if leb n m then ok (m - n, pos) else err e

-- The end of most record types: the stated length must be the length that was read.
abbrev pub check_length {ℓ} : {A : Type ℓ} → ℕ → ℕ → A → Reader A
check_length stated_length length_after_labels value =
    if stated_length == length_after_labels
    then pure value
    else raise (wrong_label_length stated_length length_after_labels)
