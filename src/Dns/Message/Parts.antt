-- ===== src/Dns/Message/Parts.antt =====
-- The parts of a request, read from their bytes: the question and the OPT record.
use dog.Prelude.{
  ℕ, ◌+◌, ◌≤◌, ◌<◌, ◌≡◌, ◌≢◌, refl, sym, ◌∙◌, Option, none, some, List, [], ◌∷◌, ◌++◌, arith,
}
use dog.Prelude.{All, length, drop, drop-append, append_assoc, append-nil, bit_and}
use dog.Dns.Outcome.{ok, u16_max}
use dog.Dns.Cursor.{ByteOrder, IsU16, to_be_bytes}
use dog.Dns.Cursor.Exact.{read_u16_at}
use dog.Dns.Strings.Defs.{root, segments_length}
use dog.Dns.Strings.Decodes.{IsLabel}
use dog.Dns.Strings.Write.RoundTrip.{wire, length-wire, read_labels-wire}
use dog.Dns.Records.Types.{type_from_u16, type_number}
use dog.Dns.Records.Opt.{Opt, opt_type}
use dog.Dns.Records.Opt.RoundTrip.{IsOpt, opt_wire, drop_on, opt_to_bytes_lem, read_opt_at}
use dog.Dns.Flags.{Flags, error_code_from_bits}
use dog.Dns.Message.{
  QClass, internet, chaosnet, hesiod, other, qclass_from_u16, qclass_to_u16, Query, Answer, pseudo,
}
use dog.Dns.Message.{
  extended_rcode, with_rcode, read_entries, read_section, read_query, read_answer,
  additional_to_bytes,
}

-- A class as dog keeps it: one with a name is never a number.
abbrev pub IsClass : QClass → Type 0
IsClass (other n) = (n < 65536) × (n ≢ 1) × (n ≢ 3) × (n ≢ 4)
IsClass _ = Unit {0}

class_lem :
    (c : QClass) → IsClass c → (qclass_from_u16 (qclass_to_u16 c) ≡ c) × IsU16 (qclass_to_u16 c)
unfolding qclass_from_u16 qclass_to_u16
class_lem internet h = (refl, omega arith)
class_lem chaosnet h = (refl, omega arith)
class_lem hesiod h = (refl, omega arith)
class_lem (other n) h = (ground arith, h.0)

-- A query as dog asks it: its labels fit a message, and its type and class are those of their numbers.
pub record IsQuery (query : Query) : Type 0 where
  pub labels : All IsLabel query.qname.segments
  pub type : type_from_u16 (type_number query.qtype) ≡ query.qtype
  pub type_fits : IsU16 (type_number query.qtype)
  pub class : IsClass query.qclass

abbrev pub query_wire : Query → List ℕ
query_wire query =
    wire query.qname.segments
    ++ (to_be_bytes (type_number query.qtype) ++ to_be_bytes (qclass_to_u16 query.qclass))

module _ ⦃B : ByteOrder⦄ (buf : List ℕ) (fits : length buf ≤ u16_max) where
  -- One question, read at a position.
  pub read_question_at :
      (pos : ℕ) (query : Query) (rest : List ℕ)
      → IsQuery query
      → drop pos buf ≡ query_wire query ++ rest
      → read_section 1 read_query buf pos
        ≡ ok (query ∷ [], pos + segments_length query.qname.segments + 1 + 4)
  unfolding read_section read_entries read_query
  read_question_at pos query rest h e =
      let name = query.qname.segments in
      let q = pos + length (wire name) in
      let e₀ : drop pos buf
          ≡ wire name
            ++ (to_be_bytes (type_number query.qtype)
                ++ (to_be_bytes (qclass_to_u16 query.qclass) ++ rest)) =
        e
        ∙ append_assoc (wire name)
            (to_be_bytes (type_number query.qtype) ++ to_be_bytes (qclass_to_u16 query.qclass))
            rest in
      let e₁ = drop_on buf pos (length (wire name)) e₀ ∙ drop-append (wire name) _ in
      let e₂ = drop_on buf q 2 e₁ in
      let (class, class_fits) = class_lem query.qclass h.class in
      let end : q + 2 + 2 ≡ pos + segments_length name + 1 + 4 = omega (arith, length-wire name) in
      rw
        (
          read_labels-wire buf fits pos name _ h.labels e₀,
          read_u16_at buf q (type_number query.qtype) h.type_fits e₁,
          read_u16_at buf (q + 2) (qclass_to_u16 query.qclass) class_fits e₂,
          h.type,
          class,
        )
        (cc)

  -- The pseudo answer of the root, read at a position.
  read_additional_at :
      (pos : ℕ) (opt : Opt)
      → IsOpt opt
      → drop pos buf ≡ 0 ∷ (to_be_bytes opt_type ++ opt_wire opt)
      → read_section 1 read_answer buf pos
        ≡ ok (pseudo root opt ∷ [], pos + 1 + 2 + 8 + length opt.payload)
  unfolding read_section read_entries read_answer
  read_additional_at pos opt h e =
      let e₁ = drop_on buf pos 1 e in
      let e₂ = drop_on buf (pos + 1) 2 e₁ in
      rw (
        read_labels-wire buf fits pos [] _ tt e,
        read_u16_at buf (pos + 1) opt_type (omega arith) e₁,
        read_opt_at opt h buf (pos + 1 + 2) [] (e₂ ∙ sym (append-nil (opt_wire opt))),
      )

abbrev pub additional_wire : Option Opt → List ℕ
additional_wire none = []
additional_wire (some opt) = 0 ∷ (to_be_bytes opt_type ++ opt_wire opt)

abbrev pub additional_count : Option Opt → ℕ
additional_count none = 0
additional_count (some opt) = 1

abbrev pub additionals_of : Option Opt → List Answer
additionals_of none = []
additionals_of (some opt) = pseudo root opt ∷ []

-- An OPT record with fields of their widths and no part of a response code.
abbrev pub IsAdditional : Option Opt → Type 0
IsAdditional none = Unit {0}
IsAdditional (some opt) = IsOpt opt × (opt.higher_bits ≡ 0)

abbrev pub header : ℕ → ℕ → ℕ → List ℕ
header id bits count =
    to_be_bytes id
    ++ (to_be_bytes bits
        ++ (to_be_bytes 1 ++ (to_be_bytes 0 ++ (to_be_bytes 0 ++ to_be_bytes count))))

module _ ⦃B : ByteOrder⦄ where
  pub additional_to_bytes_lem :
      (additional : Option Opt)
      → IsAdditional additional
      → additional_to_bytes additional ≡ some (additional_wire additional)
  unfolding additional_to_bytes
  additional_to_bytes_lem none h = refl
  additional_to_bytes_lem (some opt) h = rw (opt_to_bytes_lem opt h.0, additional_to_bytes)

  pub additional_at :
      (buf : List ℕ) (fits : length buf ≤ u16_max) (additional : Option Opt) (pos : ℕ)
      → IsAdditional additional
      → drop pos buf ≡ additional_wire additional
      → (end : ℕ) × (read_section (additional_count additional) read_answer buf pos
          ≡ ok (additionals_of additional, end))
  unfolding read_section read_entries
  additional_at buf fits none pos h e = (pos, refl)
  additional_at buf fits (some opt) pos h e = (_, read_additional_at buf fits pos opt h.0 e)

-- The OPT record adds nothing to a response code that is not there.
pub rcode_lem :
    (f : Flags) (bits : ℕ) (additional : Option Opt)
    → f.error_code ≡ none
    → bit_and bits 0b1111 ≡ 0
    → IsAdditional additional
    → with_rcode (extended_rcode bits (additionals_of additional)) f ≡ f
unfolding with_rcode extended_rcode error_code_from_bits
rcode_lem f bits none e low h = refl
rcode_lem f bits (some opt) e low h = rw (h.1, low) (λ i. record f { error_code = sym e i })
