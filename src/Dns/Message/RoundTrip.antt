-- ===== src/Dns/Message/RoundTrip.antt =====
-- A request that was encoded is parsed as a message that says the same.
use dog.Prelude.{ℕ, ◌+◌, ◌≤◌, ◌≡◌, refl, sym, ap, ◌∙◌, none, some, List, [], ◌∷◌, ◌++◌, arith}
use dog.Prelude.{length, length-append, drop, drop-append, append_assoc}
use dog.Dns.Outcome.{ok, u16_max}
use dog.Dns.Cursor.{ByteOrder, IsU16, to_be_bytes}
use dog.Dns.Cursor.Exact.{read_u16_at}
use dog.Dns.Strings.Defs.{segments_length, wire_length}
use dog.Dns.Strings.Write.{write_labels}
use dog.Dns.Strings.Write.RoundTrip.{wire, length-wire, write_segments_lem, IsLabel-fits}
use dog.Dns.Records.Types.{type_number}
use dog.Dns.Records.Opt.RoundTrip.{drop_on}
use dog.Dns.Flags.{flags_to_u16}
use dog.Dns.Flags.RoundTrip.{IsOpcode, flags_from_u16-flags_to_u16, flags_to_u16_low}
use dog.Dns.Message.{qclass_to_u16, Request, Response}
use dog.Dns.Message.{
  read_entries, read_section, read_response, response_from_bytes, request_to_bytes,
}
use dog.Dns.Message.Parts.{
  IsQuery, query_wire, additional_wire, additional_count, additionals_of, IsAdditional, header,
  additional_to_bytes_lem, additional_at, read_question_at, rcode_lem,
}

-- A request as dog sends one, small enough for a message.
pub record IsRequest (request : Request) : Type 0 where
  pub id : IsU16 request.transaction_id
  pub opcode : IsOpcode request.flags.opcode
  pub no_code : request.flags.error_code ≡ none
  pub query : IsQuery request.query
  pub additional : IsAdditional request.additional
  pub size :
      16 + wire_length request.query.qname + length (additional_wire request.additional) ≤ u16_max

abbrev request_wire : Request → List ℕ
request_wire request =
    header request.transaction_id (flags_to_u16 request.flags) (additional_count request.additional)
    ++ (query_wire request.query ++ additional_wire request.additional)

-- The request as a message without answers.
abbrev pub echo : Request → Response
echo request = record {
  transaction_id = request.transaction_id;
  flags = request.flags;
  queries = request.query ∷ [];
  answers = [];
  authorities = [];
  additionals = additionals_of request.additional;
}

module _ ⦃B : ByteOrder⦄ (request : Request) (h : IsRequest request) where
  request_to_bytes_lem : request_to_bytes request ≡ some (request_wire request)
  unfolding request_to_bytes write_labels
  request_to_bytes_lem =
      let name = request.query.qname.segments in
      let numbers =
        to_be_bytes (type_number request.query.qtype)
        ++ to_be_bytes (qclass_to_u16 request.query.qclass) in
      rw
        (
          write_segments_lem
              (header request.transaction_id (flags_to_u16 request.flags)
                (additional_count request.additional))
              name (IsLabel-fits name h.query.labels),
          additional_to_bytes_lem request.additional h.additional,
        )
        (ap
          (λ (tail : List ℕ). some (
            header request.transaction_id (flags_to_u16 request.flags)
              (additional_count request.additional)
            ++ tail))
          (sym (append_assoc (wire name) numbers (additional_wire request.additional))))

  request-fits : length (request_wire request) ≤ u16_max
  unfolding wire_length
  request-fits =
      let name = request.query.qname.segments in
      omega (
        arith,
        h.size,
        length-wire name,
        length-append (query_wire request.query) (additional_wire request.additional),
        length-append (wire name) (
            to_be_bytes (type_number request.query.qtype)
            ++ to_be_bytes (qclass_to_u16 request.query.qclass)),
      )

  count-fits : IsU16 (additional_count request.additional)
  count-fits = ground arith

  response_from_bytes_wire : response_from_bytes (request_wire request) ≡ ok (echo request)
  unfolding response_from_bytes read_response read_section read_entries
  response_from_bytes_wire =
      let buf = request_wire request in
      let bits = flags_to_u16 request.flags in
      let name = request.query.qname.segments in
      let (same_flags, bits_fit) = flags_from_u16-flags_to_u16 request.flags h.opcode h.no_code in
      let behind : 12 + length (query_wire request.query) ≡ 12 + segments_length name + 1 + 4 =
        omega (
          arith,
          length-wire name,
          length-append (wire name) (
              to_be_bytes (type_number request.query.qtype)
              ++ to_be_bytes (qclass_to_u16 request.query.qclass)),
        ) in
      let rest : drop (12 + segments_length name + 1 + 4) buf ≡ additional_wire request.additional =
        ap (λ q. drop q buf) (sym behind)
        ∙ drop_on buf 12 (length (query_wire request.query)) refl
        ∙ drop-append (query_wire request.query) _ in
      let (end, additionals) =
        additional_at buf request-fits request.additional _ h.additional rest in
      rw (
        read_u16_at buf 0 request.transaction_id h.id refl,
        read_u16_at buf 2 bits bits_fit refl,
        read_u16_at buf 4 1 (omega arith) refl,
        read_u16_at buf 6 0 (omega arith) refl,
        read_u16_at buf 8 0 (omega arith) refl,
        read_u16_at buf 10 (additional_count request.additional) count-fits refl,
        read_question_at buf request-fits 12 request.query (additional_wire request.additional)
            h.query refl,
        additionals,
        same_flags,
        rcode_lem request.flags bits request.additional h.no_code (flags_to_u16_low request.flags)
            h.additional,
      )

-- A request whose fields fit their widths, with no response code, a canonical opcode, class and
-- type, labels of 1 to 191 bytes, and at most 65,535 bytes in all, is encoded by
-- `Request::to_bytes`, and `Response::from_bytes` parses these bytes as a message with the same
-- transaction ID, flags and question, no answers or authorities, and the OPT record, if there
-- is one, as the only additional one.
pub response_from_bytes-request_to_bytes :
    ⦃B : ByteOrder⦄ (request : Request)
    → IsRequest request
    → (bytes : List ℕ) × (request_to_bytes request ≡ some bytes)
      × (response_from_bytes bytes ≡ ok (echo request))
response_from_bytes-request_to_bytes request h =
    (request_wire request, request_to_bytes_lem request h, response_from_bytes_wire request h)
