-- ===== src/Dns/Records/Types/Laws.antt =====
-- The number of a record type is the number that it was made from.
use dog.Prelude.{
  ℕ, ◌≡◌, ◌∙◌, Option-cases, inl, inr, arith, List, [], ◌∷◌, ◌==◌, Bool-cases, ==→eq, All, String,
}
use dog.Dns.Records.Registry.{record_type_name}
use dog.Dns.Records.Types.{
  RecordType, known_types, unknown_from_u16, unknown_number, try_numbers, type_from_u16,
  type_number,
}

unknown_number-from : (n : ℕ) → unknown_number (unknown_from_u16 n) ≡ n
unfolding unknown_number unknown_from_u16
unknown_number-from n = elim (Option-cases (record_type_name n)) [
  | inl e ↦ rw (e, unknown_from_u16)
  | inr (name, e) ↦ rw (e, unknown_from_u16)
]

-- The entries of the table carry the number of their type.
abbrev Agrees : RecordType × ℕ × String → Type 0
Agrees (type, number, name) = type_number type ≡ number

known_types-agree : All Agrees known_types
unfolding type_number
known_types-agree = omega arith

try_numbers_lem :
    (table : List (RecordType × ℕ × String)) (n : ℕ)
    → All Agrees table
    → type_number (try_numbers table n) ≡ n
unfolding try_numbers
try_numbers_lem [] n h = unfold type_number in unknown_number-from n
try_numbers_lem ((type, number, name) ∷ rest) n (h, hs) = elim (Bool-cases (number == n)) [
  | inl e ↦ rw e (h ∙ ==→eq number n e)
  | inr e ↦ rw e (try_numbers_lem rest n hs)
]

-- Every number is the type number of the record type that it is converted to.
pub type_number-type_from_u16 : (n : ℕ) → type_number (type_from_u16 n) ≡ n
unfolding type_from_u16
type_number-type_from_u16 n = try_numbers_lem known_types n known_types-agree
