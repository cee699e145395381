-- ===== src/Client/Generate/Fields.antt =====
-- What the fields of the generated requests are: flags, OPT records, IDs and names.
use dog.Prelude.{
  ℕ, ◌+◌, ◌≤◌, ◌<◌, ◌≡◌, refl, inl, inr, Option, none, some, Bool, true, false, Bool-cases, List,
  [], ◌∷◌, ◌++◌, arith, bit_or, ltb, if◌then◌else◌, All, All-append,
}
use dog.Dns.Strings.Defs.{Segments, Labels, len, extend, segments_length, wire_length}
use dog.Dns.Strings.Decodes.{IsLabel}
use dog.Dns.Strings.Encode.{Characters, Encoded, encoded, invalid, encode}
use dog.Dns.Strings.Encode.Valid.{NonEmpty, IsShort-IsLabel, encode-limits}
use dog.Dns.Records.Types.{RecordType, type_from_u16, type_number}
use dog.Dns.Records.Opt.{Opt}
use dog.Dns.Records.Opt.RoundTrip.{IsOpt}
use dog.Dns.Flags.{
  Flags, query, flags_query, flags_from_u16, opcode_from_bits, error_code_from_bits,
}
use dog.Dns.Message.{additional_record}
use dog.Client.Resolve.{Resolver, suffixed, search_names, name_list}
use dog.Client.Generate.{
  TxidGenerator, random, sequence, Draws, ProtocolTweaks, set_request_flags, with_payload_size,
  set_request_opt_fields, for_each, generate_txid,
}

-- A name of labels that fit, no longer than two names behind each other.
abbrev pub IsName : ℕ → Labels → Type 0
IsName most name = All IsLabel name.segments × (segments_length name.segments ≤ most)

abbrev pub FitsU16 : Option ℕ → Type 0
FitsU16 none = Unit
FitsU16 (some n) = n < 65536

abbrev pub FitsTxid : TxidGenerator → Type 0
FitsTxid random = Unit
FitsTxid (sequence start) = start < 65536

pub for_each-All {ℓ κ} :
    {A : Type ℓ} {B : Type κ} (P : B → Type 0) (Q : A → Type 0) (xs : List A)
    (body : A → ℕ → List B × ℕ) (count : ℕ)
    → All Q xs
    → ((x : A) (n : ℕ) → Q x → All P (body x n).0)
    → All P (for_each xs body count).0
unfolding for_each
for_each-All P Q [] body count h k = tt
for_each-All P Q (x ∷ xs) body count h k =
    All-append P (body x count).0 (for_each xs body (body x count).1).0 (k x count h.0)
      (for_each-All P Q xs body (body x count).1 h.1 k)

segments_length-append :
    (xs ys : Segments) → segments_length (xs ++ ys) ≡ segments_length xs + segments_length ys
unfolding segments_length
segments_length-append [] ys = omega arith
segments_length-append (x ∷ xs) ys = omega (arith, segments_length-append xs ys)

abbrev pub IsPlain : Flags → Type 0
IsPlain flags = (flags.opcode ≡ query) × (flags.error_code ≡ none)

IsPlain-if : (b : Bool) (f g : Flags) → IsPlain f → IsPlain g → IsPlain (if b then f else g)
IsPlain-if true f g h k = h
IsPlain-if false f g h k = k

pub flags_query-IsPlain : IsPlain flags_query
unfolding flags_query flags_from_u16 opcode_from_bits error_code_from_bits
flags_query-IsPlain = (refl, refl)

pub set_request_flags-IsPlain :
    (tweaks : ProtocolTweaks) (flags : Flags)
    → IsPlain flags
    → IsPlain (set_request_flags tweaks flags)
unfolding set_request_flags
set_request_flags-IsPlain tweaks flags h =
    let f₁ =
      if tweaks.set_authoritative_flag then record flags { authoritative = true } else flags in
    let f₂ = if tweaks.set_authentic_flag then record f₁ { authentic_data = true } else f₁ in
    let h₁ =
      IsPlain-if tweaks.set_authoritative_flag (record flags { authoritative = true }) flags h h in
    let h₂ = IsPlain-if tweaks.set_authentic_flag (record f₁ { authentic_data = true }) f₁ h₁ h₁ in
    IsPlain-if tweaks.set_checking_disabled_flag (record f₂ { checking_disabled = true }) f₂ h₂ h₂

-- An OPT record without data and without a part of a response code.
abbrev pub IsBare : Opt → Type 0
IsBare opt = IsOpt opt × (opt.higher_bits ≡ 0) × (opt.payload ≡ [])

with_payload_size-IsBare :
    (size : Option ℕ) (opt : Opt) → FitsU16 size → IsBare opt → IsBare (with_payload_size size opt)
with_payload_size-IsBare none opt fits h = h
with_payload_size-IsBare (some n) opt fits (h, higher, data') = (
  record {
    size = fits;
    higher = h.higher;
    version = h.version;
    flag_bits = h.flag_bits;
    data_length = h.data_length;
  },
  higher,
  data',
)

pub set_request_opt_fields-IsBare :
    (tweaks : ProtocolTweaks)
    → FitsU16 tweaks.udp_payload_size
    → IsBare (set_request_opt_fields tweaks additional_record)
unfolding set_request_opt_fields additional_record
set_request_opt_fields-IsBare tweaks fits =
    with_payload_size-IsBare tweaks.udp_payload_size _ fits (marked tweaks.set_dnssec_ok_flag)
  where
    small : (bits : ℕ) → bits < 65536 → IsBare (record additional_record { flags = bits })
    small bits l = (
      record {
        size = omega arith;
        higher = omega arith;
        version = omega arith;
        flag_bits = l;
        data_length = omega arith;
      },
      refl,
      refl,
    )

    marked :
        (b : Bool)
        → IsBare (
            if b
            then record additional_record { flags = bit_or additional_record.flags 0x8000 }
            else additional_record)
    marked true = small 0x8000 (omega arith)
    marked false = small 0 (omega arith)

pub generate_txid-fits :
    ⦃D : Draws⦄ (generator : TxidGenerator) (count : ℕ)
    → FitsTxid generator
    → generate_txid generator count < 65536
unfolding generate_txid
generate_txid-fits ⦃D⦄ random count h = D.draw-u16 count
generate_txid-fits (sequence start) count h = h

-- A text of the search list has no empty label, if it is a name.
abbrev pub IsFull : ⦃C : Characters⦄ → List ℕ → Type 0
IsFull search = (labels : Labels) → encode search ≡ encoded labels → All NonEmpty labels.segments

abbrev pub IsDomain : Labels → Type 0
IsDomain name = All IsLabel name.segments × (wire_length name ≤ 255)

abbrev pub IsType : RecordType → Type 0
IsType type = (type_from_u16 (type_number type) ≡ type) × (type_number type < 65536)

module _ ⦃C : Characters⦄ where
  suffixed-All :
      (name : Labels) (suffix : Encoded Labels) (list : List Labels)
      → IsName 254 name
      → ((labels : Labels) → suffix ≡ encoded labels → IsName 254 labels)
      → All (IsName 508) list
      → All (IsName 508) (suffixed name suffix list)
  unfolding extend
  suffixed-All name (invalid reason) list h k rest = rest
  suffixed-All name (encoded suffix) list h k rest =
      let (labels, short) = k suffix refl in
      (
        (
          All-append IsLabel name.segments suffix.segments h.0 labels,
          omega (arith, segments_length-append name.segments suffix.segments, h.1, short),
        ),
        rest,
      )

  encode-IsName :
      (search : List ℕ)
      → IsFull search
      → (labels : Labels) → encode search ≡ encoded labels
      → IsName 254 labels
  unfolding wire_length
  encode-IsName search full labels e =
      let (short, small) = encode-limits search labels e in
      (IsShort-IsLabel labels.segments short (full labels e), omega (arith, small))

  search_names-All :
      (name : Labels) (searches : List (List ℕ))
      → IsName 254 name
      → All IsFull searches
      → All (IsName 508) (search_names name searches)
  unfolding search_names
  search_names-All name [] h full = ((h.0, omega (arith, h.1)), tt)
  search_names-All name (search ∷ rest) h full =
      suffixed-All name (encode search) (search_names name rest) h (encode-IsName search full.0)
        (search_names-All name rest h full.1)

  pub name_list-All :
      (resolver : Resolver) (name : Labels)
      → IsDomain name
      → All IsFull resolver.search_list
      → All (IsName 508) (name_list resolver name)
  unfolding name_list wire_length
  name_list-All resolver name h full = elim (Bool-cases (ltb 1 (len name))) [
    | inl dotted ↦ rw (dotted, name_list) ((h.0, omega (arith, h.1)), tt)
    | inr short ↦
        rw (short, name_list)
          (search_names-All name resolver.search_list (h.0, omega (arith, h.1)) full)
  ]
