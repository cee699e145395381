-- ===== src/Transport/Examples/Http2.antt =====
-- HTTP/2: the theorems at concrete inputs.
use dog.Prelude.{
  ℕ, ◌≡◌, refl, none, some, true, false, List, [], ◌∷◌, ◌++◌, decimal_fuel, arith, codes, length,
}
use dog.Transport.Errors.{ok}
use dog.Transport.Ends.{Ends}
use dog.Transport.Stream.{Stream, Arrival, arrived}
use dog.Transport.Stream.Contents.{contents}
use dog.Transport.Address.{HttpsUrl, strip_prefix, contains}
use dog.Transport.Https.{host_header}
use dog.Transport.H2.Frames.{frame, read_frame}
use dog.Transport.H2.Frames.RoundTrip.{read_frame-frame}
use dog.Transport.H2.Integers.{more_bytes, integer, read_integer}
use dog.Transport.H2.Integers.RoundTrip.{read_integer-integer}
use dog.Transport.H2.Incoming.{Incoming, handle, read_body}
use dog.Transport.H2.Incoming.Body.{IsConsistent, IsNext, handle-IsConsistent}
use dog.Transport.H2.Incoming.Read.{IsShort, read_body-IsShort}
use dog.Transport.H2.Sending.{write_fields, header_block, request_bytes}
use dog.Transport.H2.Sending.Server.{receive_request, meant, receive_request-request_bytes}

read_integer-integer_example :
    read_integer (integer 1337 5 0 ++ 7 ∷ []) 5 ≡ ok (1337, length (integer 1337 5 0))
read_integer-integer_example = read_integer-integer 1337 5 (7 ∷ []) (omega arith) (omega arith)

abbrev begun : Incoming
begun = record { headers = true; body = 1 ∷ []; ended = false }

begun-IsConsistent : IsConsistent begun
begun-IsConsistent = record { short = omega arith; headed = λ e. cc; open_before = λ e. cc }

handle-IsConsistent_example :
    Ends IsNext (handle begun (record { kind = 0x0; flags = 0x1; stream = 1; payload = 2 ∷ [] }))
handle-IsConsistent_example =
    handle-IsConsistent begun begun-IsConsistent
      (record { kind = 0x0; flags = 0x1; stream = 1; payload = 2 ∷ [] })

-- A HEADERS frame with the status 200, and a DATA frame with a body of two bytes.
abbrev response : Stream
response = record {
  input =
      arrived (0 ∷ 0 ∷ 1 ∷ 1 ∷ 4 ∷ 0 ∷ 0 ∷ 0 ∷ 1 ∷ 0x88 ∷ [])
      ∷ arrived (0 ∷ 0 ∷ 2 ∷ 0 ∷ 1 ∷ 0 ∷ 0 ∷ 0 ∷ 1 ∷ 5 ∷ 6 ∷ [])
      ∷ [];
  output = [];
  refused = none;
}

read_body-IsShort_example : Ends IsShort (read_body response 5)
read_body-IsShort_example = read_body-IsShort response 5

abbrev resolver : HttpsUrl
resolver = record { host = codes "dns.example"; port = 443; path = codes "/dns-query" }

receive_request-request_bytes_example :
    (bytes : List ℕ) × (request_bytes resolver (1 ∷ 2 ∷ []) ≡ ok bytes)
    × (receive_request (bytes ++ 7 ∷ []) ≡ some (meant resolver (1 ∷ 2 ∷ []), 7 ∷ []))
unfolding header_block write_fields host_header integer more_bytes decimal_fuel strip_prefix
    contains
receive_request-request_bytes_example =
    receive_request-request_bytes resolver (1 ∷ 2 ∷ []) (7 ∷ []) (omega arith)

-- A PING frame in two pieces, with a byte behind it.
abbrev ping : List ℕ
ping = 0 ∷ 0 ∷ 2 ∷ 6 ∷ 0 ∷ 0 ∷ 0 ∷ 0 ∷ 0 ∷ 1 ∷ 2 ∷ []

abbrev connection : Stream
connection = record {
  input = arrived (0 ∷ 0 ∷ 2 ∷ []) ∷ arrived (6 ∷ 0 ∷ 0 ∷ 0 ∷ 0 ∷ 0 ∷ 1 ∷ 2 ∷ 7 ∷ []) ∷ [];
  output = [];
  refused = none;
}

read_frame-frame_example :
    (rest : List Arrival) × (read_frame connection 5
      ≡ ok (
        record { kind = 6; flags = 0; stream = 0; payload = 1 ∷ 2 ∷ [] },
        record connection { input = rest },
      ))
    × (contents rest ≡ 7 ∷ [])
unfolding frame contents
read_frame-frame_example =
    read_frame-frame 6 0 0 (1 ∷ 2 ∷ []) ping (7 ∷ []) connection 5 (omega arith) refl refl
