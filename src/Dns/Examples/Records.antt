-- ===== src/Dns/Examples/Records.antt =====
-- Records: the theorems at concrete inputs.
use dog.Prelude.{
  ℕ, zero, suc, ◌*◌, ◌+◌, ◌-◌, ◌≤◌, ◌<◌, ◌≡◌, ◌⊎◌, refl, some, none, List, [], ◌∷◌, ◌++◌, length,
  All, arith, true, length-append,
}
use dog.Dns.Outcome.{panic, Ensures}
use dog.Dns.Cursor.{IsMessage, IsU16}
use dog.Dns.Records.Parse.{record_from_bytes}
use dog.Dns.Records.Parse.Bounds.{taken, record_from_bytes-Ensures}
use dog.Dns.Records.Types.{RecordType, type_from_u16, type_number}
use dog.Dns.Records.Types.Laws.{type_number-type_from_u16}
use dog.Dns.Records.Names.{read_mx, read_soa}
use dog.Dns.Records.Names.Bounds.{Consumes, NameAt, read_mx-Ensures, read_soa-Ensures}
use dog.Dns.Records.Keys.{read_rrsig, read_ds}
use dog.Dns.Records.Keys.Bounds.{read_rrsig-Ensures, read_ds-Ensures}
use dog.Dns.Records.Nsec.{read_nsec}
use dog.Dns.Records.Nsec.Bounds.{read_nsec-Ensures}
use dog.Dns.Records.Text.{read_hinfo, read_caa, read_naptr, read_txt}
use dog.Dns.Records.Text.Bounds.{read_hinfo-Ensures, read_caa-Ensures, read_naptr-Ensures}
use dog.Dns.Records.Text.Overflow.{strings_wire, IsWhole, read_txt_panics}
use dog.Dns.Records.Opt.{read_opt}
use dog.Dns.Records.Opt.Bounds.{read_opt-Ensures}
use dog.Dns.Records.Loc.{position_from_u32, position_limit}
use dog.Dns.Records.Loc.Angles.{distance, toward, IsAt, position_from_u32_lem}
use dog.Prelude.Int.{pos_part, neg_part}
use dog.Dns.Records.Loc.{altitude_from_u32}
use dog.Dns.Records.Loc.Heights.{above, below, altitude_from_u32_lem}
use dog.Dns.Examples.{big_endian, reply}

reply-IsMessage : IsMessage reply
reply-IsMessage = record { bytes = omega arith; fits = omega arith }

record_from_bytes-Ensures_example :
    Ensures (λ r p. Consumes reply 33 (taken 4 r) p) (record_from_bytes RecordType.a 4 reply 33)
record_from_bytes-Ensures_example =
    record_from_bytes-Ensures reply reply-IsMessage (omega arith) 33 (omega arith) 4 RecordType.a

type_number-type_from_u16_example : type_number (type_from_u16 65280) ≡ 65280
type_number-type_from_u16_example = type_number-type_from_u16 65280

abbrev mx : List ℕ
mx = 0 ∷ 10 ∷ 1 ∷ 0x61 ∷ 0 ∷ []

mx-IsMessage : IsMessage mx
mx-IsMessage = record { bytes = omega arith; fits = omega arith }

read_mx-Ensures_example :
    Ensures
      (λ r p. Consumes mx 0 5 p × IsU16 r.preference × NameAt mx 2 r.exchange p)
      (read_mx 5 mx 0)
read_mx-Ensures_example = read_mx-Ensures mx mx-IsMessage 0 (omega arith) 5

abbrev soa : List ℕ
soa =
    1 ∷ 0x61 ∷ 0 ∷ 0xc0 ∷ 0 ∷ 0 ∷ 0 ∷ 0 ∷ 1 ∷ 0 ∷ 0 ∷ 0 ∷ 2 ∷ 0 ∷ 0 ∷ 0 ∷ 3 ∷ 0 ∷ 0 ∷ 0 ∷ 4 ∷ 0 ∷ 0
    ∷ 0 ∷ 5 ∷ []

soa-IsMessage : IsMessage soa
soa-IsMessage = record { bytes = omega arith; fits = omega arith }

read_soa-Ensures_example :
    Ensures
      (λ r p.
        Consumes soa 0 25 p
        × ((middle end : ℕ) × NameAt soa 0 r.mname middle
            × NameAt soa middle r.rname end
            × (p ≡ end + 20)))
      (read_soa 25 soa 0)
read_soa-Ensures_example = read_soa-Ensures soa soa-IsMessage 0 (omega arith) 25

-- The fixed fields, the root as signer, and a signature of two bytes.
abbrev rrsig : List ℕ
rrsig =
    0 ∷ 1 ∷ 13 ∷ 2 ∷ 0 ∷ 0 ∷ 14 ∷ 16 ∷ 0 ∷ 0 ∷ 0 ∷ 9 ∷ 0 ∷ 0 ∷ 0 ∷ 8 ∷ 4 ∷ 210 ∷ 0 ∷ 0xaa ∷ 0xbb
    ∷ []

rrsig-IsMessage : IsMessage rrsig
rrsig-IsMessage = record { bytes = omega arith; fits = omega arith }

read_rrsig-Ensures_example :
    Ensures
      (λ r p.
        Consumes rrsig 0 21 p
        × ((end : ℕ) × NameAt rrsig (0 + 18) r.signer_name end × (p ≡ end + length r.signature)))
      (read_rrsig 21 rrsig 0)
read_rrsig-Ensures_example = read_rrsig-Ensures rrsig rrsig-IsMessage 0 (omega arith) 21

-- The root as the next name, and a window of one byte with the types A and NS.
abbrev nsec : List ℕ
nsec = 0 ∷ 0 ∷ 1 ∷ 0x60 ∷ []

nsec-IsMessage : IsMessage nsec
nsec-IsMessage = record { bytes = omega arith; fits = omega arith }

read_nsec-Ensures_example :
    Ensures
      (λ r p.
        Consumes nsec 0 4 p × All IsU16 r.types × ((end : ℕ) × NameAt nsec 0 r.next_domain end))
      (read_nsec 4 nsec 0)
read_nsec-Ensures_example = read_nsec-Ensures nsec nsec-IsMessage 0 4

-- `HINFO "a" "b"`, which is also two strings of a TXT record.
abbrev strings : List ℕ
strings = 1 ∷ 0x61 ∷ 1 ∷ 0x62 ∷ []

strings-IsMessage : IsMessage strings
strings-IsMessage = record { bytes = omega arith; fits = omega arith }

read_hinfo-Ensures_example :
    Ensures
      (λ r p. Consumes strings 0 4 p × (4 ≡ length r.cpu + length r.os + 2))
      (read_hinfo 4 strings 0)
read_hinfo-Ensures_example = read_hinfo-Ensures strings strings-IsMessage 0 4

-- A tag of two bytes, and a value of one.
abbrev caa : List ℕ
caa = 0 ∷ 2 ∷ 0x61 ∷ 0x62 ∷ 0x63 ∷ []

caa-IsMessage : IsMessage caa
caa-IsMessage = record { bytes = omega arith; fits = omega arith }

read_caa-Ensures_example :
    Ensures (λ r p. Consumes caa 0 (length r.tag + 2 + (5 - length r.tag - 2)) p) (read_caa 5 caa 0)
read_caa-Ensures_example = read_caa-Ensures caa caa-IsMessage 0 5

abbrev naptr : List ℕ
naptr = 0 ∷ 1 ∷ 0 ∷ 2 ∷ 1 ∷ 0x61 ∷ 0 ∷ 1 ∷ 0x62 ∷ 0 ∷ []

naptr-IsMessage : IsMessage naptr
naptr-IsMessage = record { bytes = omega arith; fits = omega arith }

read_naptr-Ensures_example :
    Ensures
      (λ r p. Consumes naptr 0 10 p × ((start : ℕ) × NameAt naptr start r.replacement p))
      (read_naptr 10 naptr 0)
read_naptr-Ensures_example = read_naptr-Ensures naptr naptr-IsMessage 0 (omega arith) 10

abbrev ds : List ℕ
ds = 4 ∷ 210 ∷ 13 ∷ 2 ∷ 0xaa ∷ 0xbb ∷ []

ds-IsMessage : IsMessage ds
ds-IsMessage = record { bytes = omega arith; fits = omega arith }

read_ds-Ensures_example :
    Ensures (λ r p. Consumes ds 0 6 p × (6 ≡ length r.digest + 4)) (read_ds 6 ds 0)
read_ds-Ensures_example = read_ds-Ensures ds ds-IsMessage 0 (omega arith) 6

abbrev opt : List ℕ
opt = 2 ∷ 0 ∷ 0 ∷ 0 ∷ 0x80 ∷ 0 ∷ 0 ∷ 2 ∷ 7 ∷ 8 ∷ []

opt-IsMessage : IsMessage opt
opt-IsMessage = record { bytes = omega arith; fits = omega arith }

read_opt-Ensures_example : Ensures (λ r p. Consumes opt 0 (8 + length r.payload) p) (read_opt opt 0)
read_opt-Ensures_example = read_opt-Ensures opt opt-IsMessage 0 (omega arith)

position_from_u32_lem_example :
    ((distance 2332887285 ≤ position_limit true)
      × ((p : _) × (position_from_u32 2332887285 true ≡ some p)
          × IsAt (distance 2332887285) (toward 2332887285 true) p))
    ⊎ ((position_limit true < distance 2332887285) × (position_from_u32 2332887285 true ≡ none))
position_from_u32_lem_example = position_from_u32_lem 2332887285 true

-- `n` zeros, and `n` strings of 254 zeros.
unfoldable zeros : ℕ → List ℕ
zeros zero = []
zeros (suc n) = 0 ∷ zeros n

unfoldable blanks : ℕ → List (List ℕ)
blanks zero = []
blanks (suc n) = zeros 254 ∷ blanks n

length-zeros : (n : ℕ) → length (zeros n) ≡ n
unfolding zeros
length-zeros zero = refl
length-zeros (suc n) = omega (arith, length-zeros n)

blanks-IsWhole : (n : ℕ) → All IsWhole (blanks n)
unfolding blanks
blanks-IsWhole zero = tt
blanks-IsWhole (suc n) = (omega (arith, length-zeros 254), blanks-IsWhole n)

length-blanks : (n : ℕ) → length (strings_wire (blanks n)) ≡ 255 * n
unfolding blanks
length-blanks zero = refl
length-blanks (suc n) =
    omega (
      arith,
      length-append (zeros 254) (strings_wire (blanks n)),
      length-zeros 254,
      length-blanks n,
    )

-- 256 strings of 254 bytes and a byte of 255: a message of 65,281 bytes.
abbrev long : List ℕ
long = strings_wire (blanks 256) ++ 255 ∷ []

read_txt_panics_example : read_txt 65535 long 0 ≡ panic
read_txt_panics_example =
    read_txt_panics long 65535 0 (blanks 256) 255 [] (blanks-IsWhole 256) refl
      (omega (arith, length-blanks 256)) (omega (arith, length-blanks 256))
      (omega (arith, length-blanks 256)) (omega arith)

-- 1.50 metres below the spheroid.
altitude_from_u32_lem_example :
    (above (altitude_from_u32 9999850) ≡ 9999850 - 10000000)
    × (below (altitude_from_u32 9999850) ≡ 10000000 - 9999850)
    × (pos_part (altitude_from_u32 9999850).centimetres < 100)
    × (neg_part (altitude_from_u32 9999850).centimetres < 100)
altitude_from_u32_lem_example = altitude_from_u32_lem 9999850
