-- ===== src/Transport/Tcp.antt =====
-- tcp.rs of dns-transport/src: messages behind their length, over any stream. `send` of
-- `TcpTransport` is `exchange` over the stream that net.rs opens.
pub mod Framing
use dog.Prelude.{ℕ, Option, none, some, List, [], ◌∷◌, ◌++◌, leb, if◌then◌else◌, length}
use dog.Dns.Outcome.{u16_max}
use dog.Dns.Cursor.{ByteOrder, to_be_bytes, from_be_bytes}
use dog.Dns.Message.{Request, Response, request_to_bytes, response_from_bytes}
use dog.Dns.Validate.{check_response}
use dog.Transport.Errors.{
  Error, IoKind, unexpected_eof, invalid_input, truncated_response, network_error,
  mismatched_response, io_error, Result, ok, err, ◌>>=◌, parsed,
}
use dog.Transport.Stream.{Stream, Filled, filled, unfilled, read_exact}

-- `?` on the result of `to_bytes`, whose only error is one of the kind `InvalidInput`.
abbrev pub encoded : Option (List ℕ) → Result (List ℕ)
encoded (some bytes) = ok bytes
encoded none = err (network_error invalid_input)

unfoldable pub prefix_with_length : List ℕ → Result (List ℕ)
prefix_with_length message =
    if leb (length message) u16_max
    then ok (to_be_bytes (length message) ++ message)
    else err (network_error invalid_input)

-- `write_all`, then `flush`.
unfoldable pub send : Stream → List ℕ → ℕ → Result Stream
send stream bytes limit = elim stream.refused [
  | none ↦ ok (record stream { output = stream.output ++ bytes })
  | some kind ↦ err (io_error kind limit)
]

abbrev pub read_error : IoKind → ℕ → Error
read_error unexpected_eof limit = truncated_response
read_error kind limit = io_error kind limit

unfoldable pub read_fully : Stream → ℕ → ℕ → Result (List ℕ × Stream)
read_fully stream n limit = elim (read_exact n stream.input) [
  | filled bytes rest ↦ ok (bytes, record stream { input = rest })
  | unfilled kind ↦ err (read_error kind limit)
]

-- `u16::from_be_bytes` of an array of two bytes.
abbrev pub stated_length : List ℕ → ℕ
stated_length (b₁ ∷ b₂ ∷ bytes) = from_be_bytes b₁ b₂
stated_length bytes = 0

unfoldable pub length_prefixed_read : Stream → ℕ → Result (List ℕ × Stream)
length_prefixed_read stream limit = do
  (prefix, rest) ← read_fully stream 2 limit
  read_fully rest (stated_length prefix) limit

-- The end of an exchange: a response that answers the request.
unfoldable pub checked : Request → Response → Result Response
checked request response = elim (check_response request response) [
  | none ↦ ok response
  | some mismatch ↦ err (mismatched_response mismatch)
]

module _ ⦃B : ByteOrder⦄ where
  unfoldable pub exchange : Stream → Request → ℕ → Result (Response × Stream)
  exchange stream request limit = do
    message ← encoded (request_to_bytes request)
    bytes_to_send ← prefix_with_length message
    sent ← send stream bytes_to_send limit
    (read_bytes, rest) ← length_prefixed_read sent limit
    response ← parsed (response_from_bytes read_bytes)
    answer ← checked request response
    ok (answer, rest)
