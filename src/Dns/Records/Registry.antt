-- ===== src/Dns/Records/Registry.antt =====
-- registry.rs of dns/src/record: names of record types, DNSSEC algorithms and digest types.
use dog.Prelude.{ℕ, Option, none, some, List, [], ◌∷◌, ◌==◌, if◌then◌else◌}
use dog.Prelude.{String, codes, eq_ignore_ascii_case}

abbrev pub Table : Type 0
Table = List (ℕ × String)

unfoldable pub record_types : Table
record_types =
    (1, "A")
    ∷ (2, "NS")
    ∷ (5, "CNAME")
    ∷ (6, "SOA")
    ∷ (12, "PTR")
    ∷ (13, "HINFO")
    ∷ (15, "MX")
    ∷ (16, "TXT")
    ∷ (17, "RP")
    ∷ (18, "AFSDB")
    ∷ (24, "SIG")
    ∷ (25, "KEY")
    ∷ (28, "AAAA")
    ∷ (29, "LOC")
    ∷ (33, "SRV")
    ∷ (35, "NAPTR")
    ∷ (36, "KX")
    ∷ (37, "CERT")
    ∷ (39, "DNAME")
    ∷ (41, "OPT")
    ∷ (42, "APL")
    ∷ (43, "DS")
    ∷ (44, "SSHFP")
    ∷ (45, "IPSECKEY")
    ∷ (46, "RRSIG")
    ∷ (47, "NSEC")
    ∷ (48, "DNSKEY")
    ∷ (49, "DHCID")
    ∷ (50, "NSEC3")
    ∷ (51, "NSEC3PARAM")
    ∷ (52, "TLSA")
    ∷ (53, "SMIMEA")
    ∷ (55, "HIP")
    ∷ (59, "CDS")
    ∷ (60, "CDNSKEY")
    ∷ (61, "OPENPGPKEY")
    ∷ (62, "CSYNC")
    ∷ (63, "ZONEMD")
    ∷ (64, "SVCB")
    ∷ (65, "HTTPS")
    ∷ (108, "EUI48")
    ∷ (109, "EUI64")
    ∷ (249, "TKEY")
    ∷ (250, "TSIG")
    ∷ (251, "IXFR")
    ∷ (252, "AXFR")
    ∷ (255, "ANY")
    ∷ (256, "URI")
    ∷ (257, "CAA")
    ∷ (32768, "TA")
    ∷ (32769, "DLV")
    ∷ []

unfoldable pub dnssec_algorithms : Table
dnssec_algorithms =
    (1, "RSAMD5")
    ∷ (3, "DSA")
    ∷ (5, "RSASHA1")
    ∷ (6, "DSA-NSEC3-SHA1")
    ∷ (7, "RSASHA1-NSEC3-SHA1")
    ∷ (8, "RSASHA256")
    ∷ (10, "RSASHA512")
    ∷ (12, "ECC-GOST")
    ∷ (13, "ECDSAP256SHA256")
    ∷ (14, "ECDSAP384SHA384")
    ∷ (15, "ED25519")
    ∷ (16, "ED448")
    ∷ []

unfoldable pub digest_types : Table
digest_types = (1, "SHA-1") ∷ (2, "SHA-256") ∷ (3, "GOST R 34.11-94") ∷ (4, "SHA-384") ∷ []

-- `table.iter().find(|(n, _)| *n == number).map(|(_, name)| *name)`
unfoldable pub name_of : Table → ℕ → Option String
name_of [] number = none
name_of ((n, name) ∷ rest) number = if n == number then some name else name_of rest number

-- `table.iter().find(|(_, n)| n.eq_ignore_ascii_case(name)).copied()`
unfoldable pub by_name : Table → String → Option (ℕ × String)
by_name [] name = none
by_name ((number, n) ∷ rest) name =
    if eq_ignore_ascii_case (codes n) (codes name) then some (number, n) else by_name rest name

unfoldable pub record_type_name : ℕ → Option String
record_type_name = name_of record_types

unfoldable pub record_type_by_name : String → Option (ℕ × String)
record_type_by_name = by_name record_types

unfoldable pub dnssec_algorithm_name : ℕ → Option String
dnssec_algorithm_name = name_of dnssec_algorithms

unfoldable pub digest_type_name : ℕ → Option String
digest_type_name = name_of digest_types
