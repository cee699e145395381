-- ===== src/Dns/Validate.antt =====
-- dns/src/validate.rs: whether a response answers a request.
pub mod Accepts
use dog.Prelude.{
  ℕ, ◌+◌, ◌/◌, ◌%◌, Option, none, some, Bool, true, false, not, ◌&&◌, List, [], ◌∷◌, ◌++◌,
}
use dog.Prelude.{String, codes, decimal, hex_digit, ◌==◌, if◌then◌else◌}
use dog.Dns.Strings.Compare.{labels_eq_ignore_ascii_case}
use dog.Dns.Strings.Display.{display}
use dog.Dns.Records.Registry.{record_type_name}
use dog.Dns.Records.Types.{type_number}
use dog.Dns.Flags.{ErrorCode}
use dog.Dns.Message.{QClass, internet, chaosnet, hesiod, other, Query, Request, Response}

-- Texts are lists of code points.
pub data Mismatch : Type 0 where
  transaction_id : ℕ → ℕ → Mismatch
  not_a_response : Mismatch
  question : List ℕ → Option (List ℕ) → Mismatch

-- The derived equality of `QClass`.
unfoldable pub qclass_eq : QClass → QClass → Bool
qclass_eq internet internet = true
qclass_eq chaosnet chaosnet = true
qclass_eq hesiod hesiod = true
qclass_eq (other m) (other n) = m == n
qclass_eq _ _ = false

unfoldable pub same_question : Query → Query → Bool
same_question asked repeated =
    labels_eq_ignore_ascii_case asked.qname repeated.qname
    && (type_number asked.qtype == type_number repeated.qtype
        && qclass_eq asked.qclass repeated.qclass)

unfoldable pub class_text : QClass → List ℕ
class_text internet = codes "IN"
class_text chaosnet = codes "CH"
class_text hesiod = codes "HS"
class_text (other n) = decimal n

unfoldable pub describe : Query → List ℕ
describe query =
    let number = type_number query.qtype in
    let qtype : List ℕ = elim (record_type_name number) [
      | none ↦ decimal number
      | some name ↦ codes name
    ] in
    display query.qname ++ (b' ' ∷ (qtype ++ (b' ' ∷ class_text query.qclass)))

unfoldable pub is_some : Option ErrorCode → Bool
is_some none = false
is_some (some code) = true

-- The `match` of `check_response`.
unfoldable pub check_question : Query → Option ErrorCode → List Query → Option Mismatch
check_question asked error_code (query ∷ rest) =
    if same_question asked query
    then none
    else some (question (describe asked) (some (describe query)))
check_question asked error_code [] =
    if is_some error_code then none else some (question (describe asked) none)

-- `Request::check_response`; `none` is `Ok(())`.
unfoldable pub check_response : Request → Response → Option Mismatch
check_response request response =
    if not (response.transaction_id == request.transaction_id)
    then some (transaction_id request.transaction_id response.transaction_id)
    else if not response.flags.response
    then some not_a_response
    else check_question request.query response.flags.error_code response.queries

-- `{:#06x}` of a 16-bit number.
unfoldable pub hex_number : ℕ → List ℕ
hex_number n =
    b'0'
    ∷ b'x'
    ∷ hex_digit (n / 4096)
    ∷ hex_digit (n / 256 % 16)
    ∷ hex_digit (n / 16 % 16)
    ∷ hex_digit (n % 16)
    ∷ []

-- `Display` of `Mismatch`.
unfoldable pub mismatch_text : Mismatch → List ℕ
mismatch_text (transaction_id expected received) =
    codes "Response ID "
    ++ (hex_number received ++ (codes " does not match request ID " ++ hex_number expected))
mismatch_text not_a_response = codes "Received a query, not a response"
mismatch_text (question expected (some received)) =
    codes "Response is for '" ++ (received ++ (codes "', expected '" ++ (expected ++ codes "'")))
mismatch_text (question expected none) =
    codes "Response has no question, expected '" ++ (expected ++ codes "'")
