-- ===== src/Transport/H2/Sending/Hpack.antt =====
-- Reading the header block of a request as RFC 7541 says, apart from the code that writes it: as much
-- of it as a request without compression state takes.
use dog.Prelude.{
  ℕ, zero, suc, ◌+◌, ◌-◌, ◌*◌, ◌/◌, ◌%◌, ◌^◌, ◌≤◌, ◌<◌, ◌≡◌, refl, sym, ap, ◌∙◌, inl, inr, Option,
  none, some, Bool-cases, true, false, List, [], ◌∷◌, ◌++◌, map, arith, codes, decimal, bit_or,
  zero-bit_or, pow_two_suc, ==→eq, Bool, ◌==◌, leb, leb→le, leb→gt, le→leb, gt→leb, ltb, ltb→lt,
  ltb→ge, if◌then◌else◌, length, length-append, take, drop, take-append, drop-append, All,
}
use dog.Transport.H2.Integers.{low_byte, more_bytes, integer}
use dog.Transport.H2.Integers.RoundTrip.{passes, passes_lem, prefix_limit}
use dog.Transport.Address.{HttpsUrl}
use dog.Transport.Https.{host_header}
use dog.Transport.H2.Sending.{write_fields, header_block}

-- A value and the bytes behind it.
abbrev Parse {ℓ} : Type ℓ → Type ℓ
Parse A = Option (A × List ℕ)

abbrev and_then {ℓ κ} : {A : Type ℓ} {B : Type κ} → Parse A → (A → List ℕ → Option B) → Option B
and_then none f = none
and_then (some (x, rest)) f = f x rest

abbrev plus : ℕ → ℕ → ℕ → Parse ℕ → Parse ℕ
plus low weight limit none = none
plus low weight limit (some (value, rest)) = some (limit + low + weight * value, rest)

-- Seven bits from each byte, the lowest first, up to a byte without the highest bit (§5.1).
unfoldable read_groups : List ℕ → Parse ℕ
read_groups [] = none
read_groups (b ∷ bytes) =
    if leb 128 b then plus (b - 128) 128 0 (read_groups bytes) else some (b, bytes)

-- An integer with a prefix, whose high bits are zero (§5.1).
unfoldable read_number : ℕ → List ℕ → Parse ℕ
read_number bits [] = none
read_number bits (b ∷ bytes) =
    let limit = 2 ^ bits - 1 in
    if ltb b limit
    then some (b, bytes)
    else if b == limit
    then plus 0 1 limit (read_groups bytes)
    else none

-- A string that is not Huffman-coded (§5.2).
unfoldable read_text : List ℕ → Parse (List ℕ)
read_text bytes =
    and_then (read_number 7 bytes)
      λ n rest. if leb n (length rest) then some (take n rest, drop n rest) else none

abbrev pub Text : Type 0
Text = List ℕ

abbrev look_up {ℓ} : {A : Type ℓ} → List (ℕ × A) → ℕ → Option A
look_up [] index = none
look_up ((known, x) ∷ entries) index = if known == index then some x else look_up entries index

-- The part of the static table that a request to a nameserver draws on (appendix A).
abbrev static_fields : List (ℕ × (Text × Text))
static_fields =
    (2, (codes ":method", codes "GET"))
    ∷ (3, (codes ":method", codes "POST"))
    ∷ (6, (codes ":scheme", codes "http"))
    ∷ (7, (codes ":scheme", codes "https"))
    ∷ []

abbrev static_names : List (ℕ × Text)
static_names =
    (1, codes ":authority")
    ∷ (4, codes ":path")
    ∷ (19, codes "accept")
    ∷ (28, codes "content-length")
    ∷ (31, codes "content-type")
    ∷ (58, codes "user-agent")
    ∷ []

abbrev before {ℓ} : {A : Type ℓ} → List ℕ → Option A → Parse A
before rest none = none
before rest (some x) = some (x, rest)

abbrev with_name : Option Text → List ℕ → Parse (Text × Text)
with_name none rest = none
with_name (some name) rest = and_then (read_text rest) λ value more. some ((name, value), more)

-- A field that is all in the table (§6.1), or a value behind a name from the table (§6.2.2).
unfoldable read_field : List ℕ → Parse (Text × Text)
read_field [] = none
read_field (b ∷ bytes) =
    if leb 128 b
    then before bytes (look_up {A = Text × Text} static_fields (b - 128))
    else and_then (read_number 4 (b ∷ bytes))
        λ index rest. with_name (look_up {A = Text} static_names index) rest

abbrev push {ℓ} : {A : Type ℓ} → A → Option (List A) → Option (List A)
push x none = none
push x (some xs) = some (x ∷ xs)

unfoldable read_fields : ℕ → List ℕ → Option (List (Text × Text))
read_fields fuel [] = some []
read_fields zero (b ∷ bytes) = none
read_fields (suc fuel) (b ∷ bytes) =
    and_then (read_field (b ∷ bytes)) λ field rest. push field (read_fields fuel rest)

-- A byte of seven bits that goes on.
abbrev goes_on : ℕ → Bool
goes_on x = bit_or x 0x80 == 128 + x % 128

goes_on_all : passes 256 goes_on ≡ true
unfolding passes
goes_on_all = refl

bit_or-mark : (x : ℕ) → x < 256 → bit_or x 0x80 ≡ 128 + x % 128
bit_or-mark x h = ==→eq (bit_or x 0x80) (128 + x % 128) (passes_lem 256 goes_on x goes_on_all h)

read_groups-more_bytes :
    (fuel n : ℕ) (rest : List ℕ)
    → n < fuel
    → read_groups (more_bytes fuel n ++ rest) ≡ some (n, rest)
unfolding read_groups more_bytes
read_groups-more_bytes zero n rest h = absurd (omega arith)
read_groups-more_bytes (suc fuel) n rest h = elim (Bool-cases (leb 0x80 n)) [
  | inl more ↦
      let marked = bit_or-mark (low_byte n) (omega arith) in
      let high : leb 128 (128 + n % 256 % 128) ≡ true =
        le→leb 128 (128 + n % 256 % 128) (omega arith) in
      let whole : 0 + (128 + n % 256 % 128 - 128) + 128 * (n / 128) ≡ n = omega arith in
      rw
        (
          more,
          marked,
          high,
          read_groups-more_bytes fuel (n / 128) rest (omega (arith, leb→le 128 n more)),
        )
        (ap (λ v. some (v, rest)) whole)
  | inr last ↦
      let small = leb→gt 128 n last in
      let same : low_byte n ≡ n = omega arith in rw (last, same, last) refl
]

small_prefix : (bits : ℕ) → bits ≤ 7 → (2 ^ bits ≤ 128) × (0 < 2 ^ bits)
small_prefix bits h =
    let (whole, some_bit) = prefix_limit bits (omega arith) in
    let double = (prefix_limit (suc bits) (omega arith)).0 in
    (omega (arith, double, pow_two_suc bits 1), some_bit)

integer-short :
    (value bits : ℕ)
    → bits ≤ 7
    → ltb value (2 ^ bits - 1) ≡ true
    → integer value bits 0 ≡ value ∷ []
unfolding integer
integer-short value bits h fits =
    let room = small_prefix bits h in
    let below = ltb→lt value (2 ^ bits - 1) fits in
    let same : bit_or 0 (low_byte value) ≡ value =
      zero-bit_or (low_byte value) ∙ omega (arith, room.0, below) in
    rw (fits, same) refl

integer-long :
    (value bits : ℕ)
    → bits ≤ 7
    → ltb value (2 ^ bits - 1) ≡ false
    → integer value bits 0 ≡ (2 ^ bits - 1) ∷ more_bytes (suc value) (value - (2 ^ bits - 1))
unfolding integer
integer-long value bits h past =
    let room = small_prefix bits h in
    let same : bit_or 0 (low_byte (2 ^ bits - 1)) ≡ 2 ^ bits - 1 =
      zero-bit_or (low_byte (2 ^ bits - 1)) ∙ omega (arith, room.0) in
    rw (past, same) refl

-- The first byte of an integer is its prefix.
starts :
    (value bits : ℕ)
    → bits ≤ 7
    → (first : ℕ) × (more : List ℕ) × (integer value bits 0 ≡ first ∷ more) × (first < 128)
starts value bits h =
    let room = small_prefix bits h in
    elim (Bool-cases (ltb value (2 ^ bits - 1))) [
      | inl fits ↦ (
        value,
        [],
        integer-short value bits h fits,
        omega (arith, room.0, ltb→lt value (2 ^ bits - 1) fits),
      )
      | inr past ↦ (
        2 ^ bits - 1,
        more_bytes (suc value) (value - (2 ^ bits - 1)),
        integer-long value bits h past,
        omega (arith, room.0, room.1),
      )
    ]

read_number-integer :
    (value bits : ℕ) (rest : List ℕ)
    → bits ≤ 7
    → read_number bits (integer value bits 0 ++ rest) ≡ some (value, rest)
unfolding read_number
read_number-integer value bits rest h = elim (Bool-cases (ltb value (2 ^ bits - 1))) [
  | inl fits ↦ rw (integer-short value bits h fits, fits, read_number) refl
  | inr past ↦
      let limit = 2 ^ bits - 1 in
      let not_below : ltb limit limit ≡ false = ground arith in
      let equal : (limit == limit) ≡ true = ground arith in
      let sum : limit + 0 + 1 * (value - limit) ≡ value = omega (arith, ltb→ge value limit past) in
      rw
        (
          integer-long value bits h past,
          not_below,
          equal,
          read_number,
          read_groups-more_bytes (suc value) (value - limit) rest (omega arith),
        )
        (ap (λ v. some (v, rest)) sum)
]

read_text-written :
    (value rest : List ℕ)
    → read_text (integer (length value) 7 0 ++ (value ++ rest)) ≡ some (value, rest)
unfolding read_text
read_text-written value rest =
    let enough : leb (length value) (length (value ++ rest)) ≡ true =
      le→leb (length value) (length (value ++ rest)) (omega (arith, length-append value rest)) in
    rw
      (
        read_number-integer (length value) 7 (value ++ rest) (omega arith),
        enough,
        take-append value rest,
        drop-append value rest,
      )
      refl

-- A name that the table has, behind its index.
read_field-written :
    (index : ℕ) (name value rest : List ℕ)
    → look_up static_names index ≡ some name
    → read_field (integer index 4 0 ++ (integer (length value) 7 0 ++ (value ++ rest)))
      ≡ some ((name, value), rest)
unfolding read_field
read_field-written index name value rest known =
    let (first, more, shape, small) = starts index 4 (omega arith) in
    let tail = integer (length value) 7 0 ++ (value ++ rest) in
    let low : leb 128 first ≡ false = gt→leb 128 first small in
    let number : read_number 4 (first ∷ (more ++ tail)) ≡ some (index, tail) =
      ap (λ bs. read_number 4 (bs ++ tail)) (sym shape)
      ∙ read_number-integer index 4 tail (omega arith) in
    rw (shape, low, number, known, read_text-written value rest) refl

-- A field: its index, its name, and its value.
abbrev pub Entry : Type 0
Entry = ℕ × (Text × Text)

abbrev pub indexed : Entry → ℕ × List ℕ
indexed (index, (name, value)) = (index, value)

abbrev pub field_of : Entry → Text × Text
field_of (index, field) = field

abbrev pub IsKnown : Entry → Type 0
IsKnown (index, (name, value)) = look_up static_names index ≡ some name

read_fields-written :
    (fuel : ℕ) (entries : List Entry)
    → length entries ≤ fuel
    → All IsKnown entries
    → read_fields fuel (write_fields (map indexed entries)) ≡ some (map field_of entries)
unfolding read_fields write_fields
read_fields-written zero [] l h = refl
read_fields-written (suc fuel) [] l h = refl
read_fields-written zero (entry ∷ entries) l h = absurd (omega arith)
read_fields-written (suc fuel) ((index, (name, value)) ∷ entries) l (known, h) =
    let rest = write_fields (map indexed entries) in
    let (first, more, shape, small) = starts index 4 (omega arith) in
    let tail = integer (length value) 7 0 ++ (value ++ rest) in
    let field : read_field (first ∷ (more ++ tail)) ≡ some ((name, value), rest) =
      ap (λ bs. read_field (bs ++ tail)) (sym shape)
      ∙ read_field-written index name value rest known in
    rw (shape, field, read_fields-written fuel entries (omega arith) h) refl

-- A request has eight fields.
pub read_block : List ℕ → Option (List (Text × Text))
read_block block = read_fields 8 block

-- The headers of a request for a message of some length (RFC 8484 §4.1).
abbrev pub request_fields : Text → Text → Text → List (Text × Text)
request_fields authority path content_length =
    (codes ":method", codes "POST")
    ∷ (codes ":scheme", codes "https")
    ∷ (codes ":authority", authority)
    ∷ (codes ":path", path)
    ∷ (codes "content-type", codes "application/dns-message")
    ∷ (codes "accept", codes "application/dns-message")
    ∷ (codes "user-agent", codes "dog/0.2.0-pre")
    ∷ (codes "content-length", content_length)
    ∷ []

abbrev entries : Text → Text → Text → List Entry
entries authority path content_length =
    (1, (codes ":authority", authority))
    ∷ (4, (codes ":path", path))
    ∷ (31, (codes "content-type", codes "application/dns-message"))
    ∷ (19, (codes "accept", codes "application/dns-message"))
    ∷ (58, (codes "user-agent", codes "dog/0.2.0-pre"))
    ∷ (28, (codes "content-length", content_length))
    ∷ []

pub read_block-header_block :
    (url : HttpsUrl) (n : ℕ)
    → read_block (header_block url n) ≡ some (request_fields (host_header url) url.path (decimal n))
unfolding read_block read_fields read_field header_block
read_block-header_block url n =
    rw
      (read_fields-written 6 (entries (host_header url) url.path (decimal n)) (omega arith)
        (refl, (refl, (refl, (refl, (refl, (refl, tt)))))))
      refl
