-- ===== src/Dns/Examples/Validate.antt =====
-- Checks of responses: the theorems at concrete inputs.
use dog.Prelude.{◌≡◌, ◌↔◌, none, [], ◌∷◌, All, arith, true, false}
use dog.Dns.Strings.Defs.{Labels}
use dog.Dns.Strings.Display.{display, IsPrintable, display-IsPrintable}
use dog.Prelude.{take, refl}
use dog.Dns.Strings.Display.Injective.{display-injective}
use dog.Dns.Records.Types.{RecordType}
use dog.Dns.Flags.{query}
use dog.Dns.Message.{internet, Request, Response}
use dog.Dns.Validate.{check_response}
use dog.Dns.Validate.Accepts.{Answers, check_response_iff}

-- A label with an escape byte and a dot.
abbrev hostile : Labels
hostile = record { segments = (0x1b ∷ b'.' ∷ b'a' ∷ []) ∷ [] }

display-IsPrintable_example : All IsPrintable (display hostile)
display-IsPrintable_example = display-IsPrintable hostile (omega arith)

abbrev pub asked : Request
asked = record {
  transaction_id = 0x1234;
  flags = record {
    response = false;
    opcode = query;
    authoritative = false;
    truncated = false;
    recursion_desired = true;
    recursion_available = false;
    authentic_data = false;
    checking_disabled = false;
    error_code = none;
  };
  query = record {
    qname = record { segments = (b'a' ∷ []) ∷ [] };
    qclass = internet;
    qtype = RecordType.mx;
  };
  additional = none;
}

abbrev pub answered : Response
answered = record {
  transaction_id = 0x1234;
  flags = record asked.flags { response = true };
  queries =
      record {
        qname = record { segments = (b'A' ∷ []) ∷ [] };
        qclass = internet;
        qtype = RecordType.mx;
      }
      ∷ [];
  answers = [];
  authorities = [];
  additionals = [];
}

check_response_iff_example : (check_response asked answered ≡ none) ↔ (
    (answered.transaction_id ≡ asked.transaction_id)
    × (answered.flags.response ≡ true)
    × Answers asked.query answered.flags.error_code answered.queries)
check_response_iff_example = check_response_iff asked answered

-- The same name, from a message.
abbrev hostile_again : Labels
hostile_again = record { segments = (take 3 (0x1b ∷ b'.' ∷ b'a' ∷ b'b' ∷ [])) ∷ [] }

display-injective_example : hostile ≡ hostile_again
display-injective_example = display-injective hostile hostile_again (omega arith) (omega arith) refl
