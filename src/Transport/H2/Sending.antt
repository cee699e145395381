-- ===== src/Transport/H2/Sending.antt =====
-- What h2.rs sends: `request_bytes` and `header_block`, and `exchange`.
pub mod Hpack
pub mod Data
pub mod Server
use dog.Prelude.{
  ℕ, zero, suc, Option, none, some, List, [], ◌∷◌, ◌++◌, codes, decimal, length, take, drop,
}
use dog.Dns.Cursor.{ByteOrder}
use dog.Dns.Message.{Request, Response, request_to_bytes, response_from_bytes}
use dog.Transport.Errors.{Result, ok, err, ◌>>=◌, parsed}
use dog.Transport.Stream.{Stream}
use dog.Transport.Tcp.{encoded, send, checked}
use dog.Transport.Address.{HttpsUrl}
use dog.Transport.Https.{user_agent, host_header}
use dog.Transport.H2.Integers.{integer}
use dog.Transport.H2.Frames.{max_frame, frame}
use dog.Transport.H2.Incoming.{read_body}

-- `PREFACE`
unfoldable pub preface : List ℕ
preface = codes "PRI * HTTP/2.0" ++ 13 ∷ 10 ∷ 13 ∷ 10 ∷ (codes "SM" ++ 13 ∷ 10 ∷ 13 ∷ 10 ∷ [])

-- `NO_PUSH`
abbrev pub no_push : List ℕ
no_push = 0 ∷ 2 ∷ 0 ∷ 0 ∷ 0 ∷ 0 ∷ []

-- The loop of `header_block`, over the fields.
unfoldable pub write_fields : List (ℕ × List ℕ) → List ℕ
write_fields [] = []
write_fields ((name_index, value) ∷ fields) =
    integer name_index 4 0 ++ (integer (length value) 7 0 ++ (value ++ write_fields fields))

unfoldable pub header_block : HttpsUrl → ℕ → List ℕ
header_block url body_length =
    0x83
    ∷ 0x87
    ∷ write_fields (
        (1, host_header url)
        ∷ (4, url.path)
        ∷ (31, codes "application/dns-message")
        ∷ (19, codes "application/dns-message")
        ∷ (58, user_agent)
        ∷ (28, decimal body_length)
        ∷ [])

-- std's `chunks(MAX_FRAME)`. Each chunk has a byte at least, so the length is fuel enough.
unfoldable pub chunks_fuel : ℕ → List ℕ → List (List ℕ)
chunks_fuel fuel [] = []
chunks_fuel zero (b ∷ body) = []
chunks_fuel (suc fuel) (b ∷ body) =
    take max_frame (b ∷ body) ∷ chunks_fuel fuel (drop max_frame (b ∷ body))

-- An empty body is one empty chunk.
unfoldable pub chunks : List ℕ → List (List ℕ)
chunks [] = [] ∷ []
chunks (b ∷ body) = chunks_fuel (length (b ∷ body)) (b ∷ body)

-- The loop over the chunks; the last one ends the stream.
unfoldable pub data_frames : List (List ℕ) → Result (List ℕ)
data_frames [] = ok []
data_frames (chunk ∷ []) = frame 0x0 0x1 1 chunk
data_frames (chunk ∷ next ∷ more) = do
  bytes ← frame 0x0 0 1 chunk
  rest ← data_frames (next ∷ more)
  ok (bytes ++ rest)

unfoldable pub request_bytes : HttpsUrl → List ℕ → Result (List ℕ)
request_bytes url body = do
  settings ← frame 0x4 0 0 no_push
  headers ← frame 0x1 0x4 1 (header_block url (length body))
  data' ← data_frames (chunks body)
  ok (preface ++ (settings ++ (headers ++ data')))

module _ ⦃B : ByteOrder⦄ where
  unfoldable pub exchange : Stream → HttpsUrl → Request → ℕ → Result (Response × Stream)
  exchange stream url request limit = do
    message ← encoded (request_to_bytes request)
    bytes_to_send ← request_bytes url message
    sent ← send stream bytes_to_send limit
    (body, rest) ← read_body sent limit
    response ← parsed (response_from_bytes body)
    answer ← checked request response
    ok (answer, rest)
