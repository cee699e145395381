-- ===== src/Client/Options/Parts.antt =====
-- What single arguments add to the inputs is well-formed.
use dog.Prelude.{
  ℕ, String, ◌≤◌, Option, none, some, Bool, true, false, Bool-cases, inl, inr, List, [], ◌∷◌, arith,
  codes, eq_ignore_ascii_case, ◌==◌, ◌&&◌, leb, take, drop, ==→ne, if◌then◌else◌, length, All,
  All-append,
}
use dog.Dns.Strings.Encode.Valid.{IsValid}
use dog.Dns.Records.Types.{RecordType, type_from_u16}
use dog.Dns.Message.{QClass, qclass_from_u16}
use dog.Dns.Message.Parts.{IsClass}
use dog.Transport.Address.{all_bytes, parse_unsigned}
use dog.Transport.Address.Parts as Pieces
use dog.Transport.Address.Parts.{parse_unsigned-fits}
use dog.Client.Generate.{TransportType, Inputs}
use dog.Client.Options.{
  Deduction, deduced, refused, ◌>>=◌, otherwise, map_some, nonempty, number, generic_number,
  parse_class_name, parse_class, parse_type, add_transport, type_or, class_or, add_named_type,
  add_named_class, each,
}

abbrev pub Holds {ℓ κ} : {A : Type ℓ} → (A → Type κ) → Deduction A → Type κ
Holds P (deduced x) = P x
Holds P (refused e) = Unit

abbrev pub Perhaps {ℓ κ} : {A : Type ℓ} → (A → Type κ) → Option A → Type κ
Perhaps P none = Unit
Perhaps P (some x) = P x

module _ {ℓ} {A : Type ℓ} where
  pub Holds-bind :
      (P : A → Type 0) (Q : Inputs → Type 0) (m : Deduction A) (f : A → Deduction Inputs)
      → Holds P m
      → ((x : A) → P x → Holds Q (f x))
      → Holds Q (m >>= f)
  Holds-bind P Q (deduced x) f h k = k x h
  Holds-bind P Q (refused e) f h k = tt

  pub each-Holds :
      (P : Inputs → Type 0) (body : Inputs → A → Deduction Inputs) (inputs : Inputs) (xs : List A)
      → P inputs
      → ((i : Inputs) (x : A) → P i → Holds P (body i x))
      → Holds P (each body inputs xs)
  unfolding each
  each-Holds P body inputs [] h k = h
  each-Holds P body inputs (x ∷ xs) h k =
      Holds-bind' P (body inputs x) (λ next. each body next xs) (k inputs x h)
        (λ next good. each-Holds P body next xs good k)
    where
      Holds-bind' :
          (P : Inputs → Type 0) (m : Deduction Inputs) (f : Inputs → Deduction Inputs)
          → Holds P m
          → ((x : Inputs) → P x → Holds P (f x))
          → Holds P (m >>= f)
      Holds-bind' P (deduced x) f h k = k x h
      Holds-bind' P (refused e) f h k = tt

Perhaps-otherwise :
    (P : QClass → Type 0) (a b : Option QClass)
    → Perhaps P a
    → Perhaps P b
    → Perhaps P (otherwise a b)
Perhaps-otherwise P (some x) b h k = h
Perhaps-otherwise P none b h k = k

qclass_from_u16-IsClass : (n : ℕ) → n ≤ 65535 → IsClass (qclass_from_u16 n)
unfolding qclass_from_u16
qclass_from_u16-IsClass n h = elim (Bool-cases (n == 1)) [
  | inl one ↦ rw (one, qclass_from_u16) tt
  | inr not_one ↦ elim (Bool-cases (n == 3)) [
    | inl three ↦ rw (not_one, three, qclass_from_u16) tt
    | inr not_three ↦ elim (Bool-cases (n == 4)) [
      | inl four ↦ rw (not_one, not_three, four, qclass_from_u16) tt
      | inr not_four ↦
          rw (not_one, not_three, not_four, qclass_from_u16)
            (omega arith, ==→ne n 1 not_one, ==→ne n 3 not_three, ==→ne n 4 not_four)
    ]
  ]
]

map_some-IsClass :
    (n : Option ℕ) → Perhaps (λ m. m ≤ 65535) n → Perhaps IsClass (map_some qclass_from_u16 n)
map_some-IsClass none h = tt
map_some-IsClass (some n) h = qclass_from_u16-IsClass n h

number-fits : (input : List ℕ) → Perhaps (λ n. n ≤ 65535) (number input)
unfolding number
number-fits input =
    elim (Bool-cases (nonempty input && all_bytes (λ b. leb b'0' b && leb b b'9') input)) [
      | inl digits ↦
          rw (digits, number) (fits (parse_unsigned 65535 input) (parse_unsigned-fits 65535 input))
      | inr other_text ↦ rw (other_text, number) tt
    ]
  where
    fits : (n : Option ℕ) → Pieces.Holds (λ m. m ≤ 65535) n → Perhaps (λ m. m ≤ 65535) n
    fits none h = tt
    fits (some n) h = h

generic_number-fits : (input word : List ℕ) → Perhaps (λ n. n ≤ 65535) (generic_number input word)
unfolding generic_number
generic_number-fits input word =
    elim (Bool-cases
      (leb (length word) (length input) && eq_ignore_ascii_case (take (length word) input) word)) [
        | inl same ↦ rw (same, generic_number) (number-fits (drop (length word) input))
        | inr other_text ↦ rw (other_text, generic_number) tt
      ]

Perhaps-if :
    (b : Bool) (x y : Option QClass)
    → Perhaps IsClass x
    → Perhaps IsClass y
    → Perhaps IsClass (if b then x else y)
Perhaps-if true x y h k = h
Perhaps-if false x y h k = k

parse_class_name-IsClass : (input : List ℕ) → Perhaps IsClass (parse_class_name input)
unfolding parse_class_name
parse_class_name-IsClass input = Perhaps-if (eq_ignore_ascii_case input (codes "IN")) _ _ tt (
    Perhaps-if (eq_ignore_ascii_case input (codes "CH")) _ _ tt
      (Perhaps-if (eq_ignore_ascii_case input (codes "HS")) _ _ tt tt))

pub parse_class-IsClass : (input : List ℕ) → Perhaps IsClass (parse_class input)
unfolding parse_class
parse_class-IsClass input =
    Perhaps-otherwise IsClass (parse_class_name input)
      (map_some qclass_from_u16 (generic_number input (codes "CLASS")))
      (parse_class_name-IsClass input)
      (map_some-IsClass (generic_number input (codes "CLASS"))
        (generic_number-fits input (codes "CLASS")))

-- Names within the limits, and classes that are those of their numbers.
abbrev pub IsGood : Inputs → Type 0
IsGood inputs = All IsValid inputs.domains × All IsClass inputs.classes

pub class_or-IsGood :
    (inputs : Inputs) (name : List ℕ) (class : Option QClass)
    → IsGood inputs
    → Perhaps IsClass class
    → Holds IsGood (class_or inputs name class)
class_or-IsGood inputs name none h k = tt
class_or-IsGood inputs name (some class) h k =
    (h.0, All-append IsClass inputs.classes (class ∷ []) h.1 (k, tt))

pub add_named_class-IsGood :
    (inputs : Inputs) (name : List ℕ) → IsGood inputs → Holds IsGood (add_named_class inputs name)
unfolding add_named_class
add_named_class-IsGood inputs name h =
    class_or-IsGood inputs name
      (otherwise (parse_class name) (map_some qclass_from_u16 (number name))) h
      (Perhaps-otherwise IsClass (parse_class name) (map_some qclass_from_u16 (number name))
        (parse_class-IsClass name) (map_some-IsClass (number name) (number-fits name)))

pub type_or-IsGood :
    (inputs : Inputs) (name : List ℕ) (type : Option RecordType)
    → IsGood inputs
    → Holds IsGood (type_or inputs name type)
type_or-IsGood inputs name none h = tt
type_or-IsGood inputs name (some type) h = h

pub Holds-if :
    (P : Inputs → Type 0) (b : Bool) (x y : Deduction Inputs)
    → Holds P x
    → Holds P y
    → Holds P (if b then x else y)
Holds-if P true x y h k = h
Holds-if P false x y h k = k

pub add_named_type-IsGood :
    (inputs : Inputs) (name : String) → IsGood inputs → Holds IsGood (add_named_type inputs name)
unfolding add_named_type
add_named_type-IsGood inputs name h =
    Holds-if IsGood (eq_ignore_ascii_case (codes name) (codes "OPT")) _ _ tt (
      type_or-IsGood inputs (codes name)
        (otherwise (parse_type name) (map_some type_from_u16 (number (codes name)))) h)

pub add_transport-IsGood :
    (inputs : Inputs) (flag : Bool) (transport : TransportType)
    → IsGood inputs
    → IsGood (add_transport inputs flag transport)
add_transport-IsGood inputs false transport h = h
add_transport-IsGood inputs true transport h = h
