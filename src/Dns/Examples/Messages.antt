-- ===== src/Dns/Examples/Messages.antt =====
-- Messages and names: the theorems at concrete inputs.
use dog.Prelude.{
  ℕ, ◌+◌, ◌<◌, ◌≡◌, ◌⊎◌, ◌↔◌, refl, none, some, List, [], ◌∷◌, ◌++◌, length, arith, true, false,
}
use dog.Dns.Outcome.{WireError, ok, err}
use dog.Dns.Cursor.{IsMessage}
use dog.Dns.Strings.Defs.{Labels, wire_length, segments_length}
use dog.Dns.Strings.Decodes.{Decodes, finish, label, pointer, Decodes-unique}
use dog.Dns.Strings.Read.{recursion_limit, read_labels}
use dog.Dns.Strings.Read.Complete.{read_labels_iff}
use dog.Dns.Strings.Write.{write_labels}
use dog.Dns.Strings.Write.RoundTrip.{read_labels-write_labels}
use dog.Dns.Flags.{query, other, Flags, flags_from_u16, flags_to_u16}
use dog.Dns.Flags.RoundTrip.{flags_from_u16-flags_to_u16}
use dog.Dns.Message.{
  internet, Request, Response, additional_record, request_to_bytes, response_from_bytes,
}
use dog.Dns.Message.RoundTrip.{IsRequest, echo, response_from_bytes-request_to_bytes}
use dog.Dns.Records.Types.{RecordType, type_from_u16, type_number, try_numbers}
use dog.Dns.Records.Opt.{read_opt, opt_to_bytes}
use dog.Dns.Records.Opt.RoundTrip.{read_opt-opt_to_bytes}
use dog.Dns.Message.Total.{response_from_bytes_total}
use dog.Dns.Examples.{big_endian, reply}

reply-IsMessage : IsMessage reply
reply-IsMessage = record { bytes = omega arith; fits = omega arith }

response_from_bytes_total_example :
    ((response : Response) × (response_from_bytes reply ≡ ok response))
    ⊎ ((e : WireError) × (response_from_bytes reply ≡ err e))
response_from_bytes_total_example = response_from_bytes_total reply reply-IsMessage (omega arith)

abbrev a_b : Labels
a_b = record { segments = (0x61 ∷ []) ∷ (0x62 ∷ []) ∷ [] }

-- The name of the answer, which is a pointer.
read_labels_iff_example : (read_labels reply 21 ≡ ok ((a_b, 2), 23)) ↔ (
    (depth : ℕ) × Decodes reply depth 21 a_b.segments 23
    × (depth < recursion_limit)
    × (2 + 21 ≡ 23))
read_labels_iff_example = read_labels_iff reply 21 a_b 2 23 reply-IsMessage

name_at : Decodes reply 0 12 a_b.segments 17
name_at =
    label refl (omega arith) (omega arith) (omega arith)
      (label refl (omega arith) (omega arith) (omega arith) (finish refl))

pointer_at : Decodes reply 1 21 a_b.segments 23
pointer_at = pointer refl (omega arith) refl name_at

Decodes-unique_example : (◌≡◌ {A = ℕ} 1 1) × (a_b.segments ≡ a_b.segments) × (◌≡◌ {A = ℕ} 23 23)
Decodes-unique_example = Decodes-unique pointer_at pointer_at

read_labels-write_labels_example :
    (bytes : List ℕ) × (write_labels (7 ∷ []) a_b ≡ some bytes)
    × (read_labels (bytes ++ 9 ∷ []) 1 ≡ ok ((a_b, wire_length a_b), length bytes))
unfolding wire_length segments_length
read_labels-write_labels_example =
    read_labels-write_labels (7 ∷ []) (9 ∷ []) a_b (omega arith) (omega arith)

abbrev update : Flags
update = record {
  response = true;
  opcode = other 5;
  authoritative = false;
  truncated = true;
  recursion_desired = true;
  recursion_available = false;
  authentic_data = false;
  checking_disabled = true;
  error_code = none;
}

flags_from_u16-flags_to_u16_example :
    (flags_from_u16 (flags_to_u16 update) ≡ update) × (flags_to_u16 update < 65536)
flags_from_u16-flags_to_u16_example = flags_from_u16-flags_to_u16 update (omega arith) refl

abbrev request : Request
request = record {
  transaction_id = 0x1234;
  flags = record {
    response = false;
    opcode = query;
    authoritative = false;
    truncated = false;
    recursion_desired = true;
    recursion_available = false;
    authentic_data = false;
    checking_disabled = false;
    error_code = none;
  };
  query = record { qname = a_b; qclass = internet; qtype = RecordType.aaaa };
  additional = some additional_record;
}

request-IsRequest : IsRequest request
unfolding wire_length segments_length additional_record type_from_u16 type_number try_numbers
request-IsRequest = record {
  id = omega arith;
  opcode = tt;
  no_code = refl;
  query = record { labels = omega arith; type = refl; type_fits = omega arith; class = tt };
  additional = (
    record {
      size = omega arith;
      higher = omega arith;
      version = omega arith;
      flag_bits = omega arith;
      data_length = omega arith;
    },
    refl,
  );
  size = omega arith;
}

response_from_bytes-request_to_bytes_example :
    (bytes : List ℕ) × (request_to_bytes request ≡ some bytes)
    × (response_from_bytes bytes ≡ ok (echo request))
response_from_bytes-request_to_bytes_example =
    response_from_bytes-request_to_bytes request request-IsRequest

read_opt-opt_to_bytes_example :
    (bytes : List ℕ) × (opt_to_bytes additional_record ≡ some bytes)
    × (read_opt ((5 ∷ []) ++ (bytes ++ 6 ∷ [])) 1 ≡ ok (additional_record, 1 + length bytes))
read_opt-opt_to_bytes_example =
    read_opt-opt_to_bytes additional_record request-IsRequest.additional.0 (5 ∷ []) (6 ∷ [])
