-- ===== src/Dns/Records/Types.antt =====
-- `RecordType` of dns/src/record/mod.rs and `UnknownQtype` of others.rs, with the numbers and
-- names (`RR_TYPE` and `NAME`) of the record types.
pub mod Laws
use dog.Prelude.{ℕ, Option, none, some, List, [], ◌∷◌, ◌==◌, if◌then◌else◌}
use dog.Prelude.{String, codes, eq_ignore_ascii_case}
use dog.Dns.Records.Registry.{record_type_name, record_type_by_name}

pub data UnknownQtype : Type 0 where
  heard_of : String → ℕ → UnknownQtype
  unheard_of : ℕ → UnknownQtype

pub data RecordType : Type 0 where
  a aaaa caa cname dnskey ds eui48 eui64 hinfo loc mx naptr ns nsec openpgpkey ptr rrsig sshfp soa
        srv tlsa txt uri :
      RecordType
  other : UnknownQtype → RecordType

-- `RR_TYPE` and `NAME` of each type, in the order in which mod.rs tries them.
abbrev pub known_types : List (RecordType × ℕ × String)
known_types =
    (a, 1, "A")
    ∷ (aaaa, 28, "AAAA")
    ∷ (caa, 257, "CAA")
    ∷ (cname, 5, "CNAME")
    ∷ (dnskey, 48, "DNSKEY")
    ∷ (ds, 43, "DS")
    ∷ (eui48, 108, "EUI48")
    ∷ (eui64, 109, "EUI64")
    ∷ (hinfo, 13, "HINFO")
    ∷ (loc, 29, "LOC")
    ∷ (mx, 15, "MX")
    ∷ (naptr, 35, "NAPTR")
    ∷ (ns, 2, "NS")
    ∷ (nsec, 47, "NSEC")
    ∷ (openpgpkey, 61, "OPENPGPKEY")
    ∷ (ptr, 12, "PTR")
    ∷ (rrsig, 46, "RRSIG")
    ∷ (sshfp, 44, "SSHFP")
    ∷ (soa, 6, "SOA")
    ∷ (srv, 33, "SRV")
    ∷ (tlsa, 52, "TLSA")
    ∷ (txt, 16, "TXT")
    ∷ (uri, 256, "URI")
    ∷ []

-- `UnknownQtype::from`
unfoldable pub unknown_from_u16 : ℕ → UnknownQtype
unknown_from_u16 qtype = elim (record_type_name qtype) [
  | some name ↦ heard_of name qtype
  | none ↦ unheard_of qtype
]

-- `UnknownQtype::type_number`
unfoldable pub unknown_number : UnknownQtype → ℕ
unknown_number (heard_of name number) = number
unknown_number (unheard_of number) = number

-- The `try_record!` lines: the first type whose number or name fits.
unfoldable pub try_numbers : List (RecordType × ℕ × String) → ℕ → RecordType
try_numbers [] type_number = other (unknown_from_u16 type_number)
try_numbers ((type, number, name) ∷ rest) type_number =
    if number == type_number then type else try_numbers rest type_number

unfoldable pub try_names : List (RecordType × ℕ × String) → String → Option RecordType
try_names [] type_name = elim (record_type_by_name type_name) [
  | some (number, name) ↦ some (other (heard_of name number))
  | none ↦ none
]
try_names ((type, number, name) ∷ rest) type_name =
    if eq_ignore_ascii_case (codes name) (codes type_name)
    then some type
    else try_names rest type_name

-- `RecordType::from`
unfoldable pub type_from_u16 : ℕ → RecordType
type_from_u16 = try_numbers known_types

unfoldable pub from_type_name : String → Option RecordType
from_type_name = try_names known_types

unfoldable pub type_number : RecordType → ℕ
type_number a = 1
type_number aaaa = 28
type_number caa = 257
type_number cname = 5
type_number dnskey = 48
type_number ds = 43
type_number eui48 = 108
type_number eui64 = 109
type_number hinfo = 13
type_number loc = 29
type_number mx = 15
type_number naptr = 35
type_number ns = 2
type_number nsec = 47
type_number openpgpkey = 61
type_number ptr = 12
type_number rrsig = 46
type_number sshfp = 44
type_number soa = 6
type_number srv = 33
type_number tlsa = 52
type_number txt = 16
type_number uri = 256
type_number (other unknown) = unknown_number unknown
