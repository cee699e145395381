-- ===== src/Transport/Examples/Streams.antt =====
-- Messages over TCP and UDP, and several nameservers: the theorems at concrete inputs.
use dog.Prelude.{ℕ, ◌≡◌, ◌↔◌, refl, none, List, [], ◌∷◌, ◌++◌, arith}
use dog.Dns.Strings.Write.{write_labels, write_segments}
use dog.Dns.Records.Types.{type_number}
use dog.Dns.Flags.{flags_to_u16, set_bit, opcode_to_bits}
use dog.Dns.Message.{request_to_bytes, response_from_bytes, additional_to_bytes, qclass_to_u16}
use dog.Dns.Examples.{big_endian, reply}
use dog.Dns.Examples.Validate.{asked, answered}
use dog.Transport.Errors.{ok, err, timeout, no_nameservers, ◌>>=◌, parsed}
use dog.Transport.Stream.{Stream, Arrival, arrived, stopped}
use dog.Transport.Errors.{interrupted}
use dog.Transport.Stream.Contents.{contents}
use dog.Transport.Tcp.{checked, exchange}
use dog.Transport.Tcp.Framing.{framed, exchange_lem}
use dog.Transport.Failover.{Transport, failover_send}
use dog.Transport.Failover.First.{
  FirstAnswer, AllFail, failover_send-FirstAnswer, failover_send-AllFail,
}
use dog.Transport.Udp.{datagram, receive}
use dog.Transport.Udp.Answers.{AnsweredBy, receive_iff}

abbrev question : List ℕ
question = 0x12 ∷ 0x34 ∷ 1 ∷ 0 ∷ 0 ∷ 1 ∷ 0 ∷ 0 ∷ 0 ∷ 0 ∷ 0 ∷ 0 ∷ 1 ∷ 97 ∷ 0 ∷ 0 ∷ 15 ∷ 0 ∷ 1 ∷ []

-- Bytes of another message follow the reply, and a signal comes between its pieces.
abbrev connection : Stream
connection = record {
  input = arrived (0 ∷ []) ∷ stopped interrupted ∷ arrived (37 ∷ reply ++ 7 ∷ []) ∷ [];
  output = [];
  refused = none;
}

exchange_lem_example :
    (rest : List Arrival) × (contents rest ≡ 7 ∷ [])
    × (exchange connection asked 5 ≡ (
        parsed (response_from_bytes reply) >>= λ response. checked asked response >>= λ answer.
        ok (answer, record connection { input = rest; output = framed question })))
unfolding request_to_bytes write_labels write_segments additional_to_bytes flags_to_u16
    opcode_to_bits qclass_to_u16 type_number contents set_bit
exchange_lem_example =
    exchange_lem connection asked 5 question reply (7 ∷ []) refl (omega arith) refl refl
      (omega arith)

abbrev late : Transport ℕ
late request world = (err (timeout 5), world)

abbrev works : Transport ℕ
works request world = (ok answered, world)

failover_send-FirstAnswer_example :
    (failover_send (late ∷ works ∷ []) asked 0 ≡ (ok answered, 0))
    ↔ FirstAnswer asked (late ∷ works ∷ []) 0 no_nameservers answered 0
failover_send-FirstAnswer_example = failover_send-FirstAnswer asked (late ∷ works ∷ []) 0 answered 0

failover_send-AllFail_example :
    (failover_send (late ∷ []) asked 0 ≡ (err (timeout 5), 0))
    ↔ AllFail asked (late ∷ []) 0 no_nameservers 0 (timeout 5)
failover_send-AllFail_example = failover_send-AllFail asked (late ∷ []) 0 (timeout 5) 0

receive_iff_example :
    (receive asked 5 (datagram (9 ∷ []) ∷ datagram reply ∷ []) ≡ ok answered)
    ↔ AnsweredBy asked (datagram (9 ∷ []) ∷ datagram reply ∷ []) answered
receive_iff_example = receive_iff asked 5 (datagram (9 ∷ []) ∷ datagram reply ∷ []) answered
