-- ===== src/Dns/Message.antt =====
-- The messages of dns/src/types.rs, with `Request::to_bytes` and `Response::from_bytes` of
-- dns/src/wire.rs.
pub mod Bounds
pub mod Total
pub mod Parts
pub mod RoundTrip
use dog.Prelude.{ℕ, zero, suc, ◌+◌, ◌*◌, ◌%◌, ◌^◌, Option, none, some, List, [], ◌∷◌, ◌++◌}
use dog.Prelude.{bit_and, bit_or, ◌==◌, if◌then◌else◌, Bool, true, false}
use dog.Dns.Outcome.{Outcome, ok, err, panic, out_of_fuel, Reader, ◌>>=◌, pure}
use dog.Dns.Cursor.{ByteOrder, read_u16, read_u32, to_be_bytes}
use dog.Dns.Strings.Defs.{Labels, root}
use dog.Dns.Strings.Read.{read_labels}
use dog.Dns.Strings.Write.{write_labels}
use dog.Dns.Records.Types.{RecordType, type_from_u16, type_number}
use dog.Dns.Records.Parse.{Record, record_from_bytes}
use dog.Dns.Records.Opt.{Opt, opt_type, read_opt, opt_to_bytes}
use dog.Dns.Flags.{Flags, flags_from_u16, flags_to_u16, error_code_from_bits}

-- `IN`, `CH`, `HS` and `Other`.
pub data QClass : Type 0 where
  internet chaosnet hesiod : QClass
  other : ℕ → QClass

unfoldable pub qclass_from_u16 : ℕ → QClass
qclass_from_u16 uu =
    if uu == 1 then internet else if uu == 3 then chaosnet else if uu == 4 then hesiod else other uu

unfoldable pub qclass_to_u16 : QClass → ℕ
qclass_to_u16 internet = 1
qclass_to_u16 chaosnet = 3
qclass_to_u16 hesiod = 4
qclass_to_u16 (other uu) = uu

pub record Query : Type 0 where
  pub qname : Labels
  pub qclass : QClass
  pub qtype : RecordType

-- A standard answer has a name, a class, a TTL and a record; a pseudo answer a name and an OPT.
pub data Answer : Type 0 where
  standard : Labels → QClass → ℕ → Record → Answer
  pseudo : Labels → Opt → Answer

unfoldable pub is_standard : Answer → Bool
is_standard (standard qname qclass ttl record') = true
is_standard (pseudo qname opt) = false

pub record Request : Type 0 where
  pub transaction_id : ℕ
  pub flags : Flags
  pub query : Query
  pub additional : Option Opt

pub record Response : Type 0 where
  pub transaction_id : ℕ
  pub flags : Flags
  pub queries : List Query
  pub answers : List Answer
  pub authorities : List Answer
  pub additionals : List Answer

-- `Request::additional_record`
unfoldable pub additional_record : Opt
additional_record = record {
  udp_payload_size = 512;
  higher_bits = 0;
  edns0_version = 0;
  flags = 0;
  payload = [];
}

-- `extended_rcode`: the first pseudo answer gives eight bits above the four of the header.
unfoldable pub extended_rcode : ℕ → List Answer → Option ℕ
extended_rcode flag_bits [] = none
extended_rcode flag_bits (pseudo qname opt ∷ rest) =
    some (bit_or (opt.higher_bits * 2 ^ 4 % 2 ^ 16) (bit_and flag_bits 0b1111))
extended_rcode flag_bits (standard qname qclass ttl record' ∷ rest) = extended_rcode flag_bits rest

unfoldable pub with_rcode : Option ℕ → Flags → Flags
with_rcode none flags = flags
with_rcode (some rcode) flags = record flags { error_code = error_code_from_bits rcode }

-- The loop of `read_section`, with the number of entries left.
unfoldable pub read_entries {ℓ} : {A : Type ℓ} → (Labels → Reader A) → ℕ → List A → Reader (List A)
read_entries read_entry zero entries = pure entries
read_entries read_entry (suc left) entries = do
  (qname, _) ← read_labels
  entry ← read_entry qname
  read_entries read_entry left (entries ++ entry ∷ [])

unfoldable pub read_section {ℓ} : {A : Type ℓ} → ℕ → (Labels → Reader A) → Reader (List A)
read_section count read_entry = read_entries read_entry count []

-- The end of a parse: the position is dropped.
abbrev pub result {ℓ} : {A : Type ℓ} → Outcome (A × ℕ) → Outcome A
result (ok (value, pos)) = ok value
result (err e) = err e
result panic = panic
result out_of_fuel = out_of_fuel

-- `?` on an `io::Result`.
abbrev pub then_write : Option (List ℕ) → (List ℕ → Option (List ℕ)) → Option (List ℕ)
then_write none f = none
then_write (some bytes) f = f bytes

module _ ⦃B : ByteOrder⦄ where
  -- `Query::from_bytes`
  unfoldable pub read_query : Labels → Reader Query
  read_query qname = do
    qtype_number ← read_u16
    qclass_number ← read_u16
    pure (record {
      qname = qname;
      qclass = qclass_from_u16 qclass_number;
      qtype = type_from_u16 qtype_number;
    })

  -- `Answer::from_bytes`
  unfoldable pub read_answer : Labels → Reader Answer
  read_answer qname = do
    qtype_number ← read_u16
    if qtype_number == opt_type then (do opt ← read_opt; pure (pseudo qname opt)) else do
      qclass_number ← read_u16
      ttl ← read_u32
      record_length ← read_u16
      record' ← record_from_bytes (type_from_u16 qtype_number) record_length
      pure (standard qname (qclass_from_u16 qclass_number) ttl record')

  unfoldable pub read_response : Reader Response
  read_response = do
    transaction_id ← read_u16
    flag_bits ← read_u16
    query_count ← read_u16
    answer_count ← read_u16
    authority_count ← read_u16
    additional_count ← read_u16
    queries ← read_section query_count read_query
    answers ← read_section answer_count read_answer
    authorities ← read_section authority_count read_answer
    additionals ← read_section additional_count read_answer
    pure (record {
      transaction_id = transaction_id;
      flags = with_rcode (extended_rcode flag_bits additionals) (flags_from_u16 flag_bits);
      queries = queries;
      answers = answers;
      authorities = authorities;
      additionals = additionals;
    })

  -- `Response::from_bytes`
  unfoldable pub response_from_bytes : List ℕ → Outcome Response
  response_from_bytes bytes = result (read_response bytes 0)

  -- The `if let Some(opt) = &self.additional` of `to_bytes`.
  unfoldable pub additional_to_bytes : Option Opt → Option (List ℕ)
  additional_to_bytes none = some []
  additional_to_bytes (some opt) = elim (opt_to_bytes opt) [
    | some bytes ↦ some (0 ∷ (to_be_bytes opt_type ++ bytes))
    | none ↦ none
  ]

  -- `Request::to_bytes`; `none` is an error of the kind `InvalidInput`.
  unfoldable pub request_to_bytes : Request → Option (List ℕ)
  request_to_bytes request =
      let additional_count : ℕ = elim request.additional [ some opt ↦ 1 | none ↦ 0 ] in
      let header =
        to_be_bytes request.transaction_id
        ++ (to_be_bytes (flags_to_u16 request.flags)
            ++ (to_be_bytes 1
                ++ (to_be_bytes 0 ++ (to_be_bytes 0 ++ to_be_bytes additional_count)))) in
      then_write (write_labels header request.query.qname) λ named.
        then_write (additional_to_bytes request.additional) λ additional. some (
          named
          ++ (to_be_bytes (type_number request.query.qtype)
              ++ (to_be_bytes (qclass_to_u16 request.query.qclass) ++ additional)))
