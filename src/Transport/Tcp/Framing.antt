-- ===== src/Transport/Tcp/Framing.antt =====
-- An exchange sends one framed request, and returns what the framed message that comes back means.
use dog.Prelude.{
  ℕ, ◌/◌, ◌%◌, ◌≤◌, ◌<◌, ◌≡◌, ap, ◌∙◌, none, some, List, [], ◌∷◌, ◌++◌, arith, length,
  length-append, take, drop, take-append, drop-append, le→leb,
}
use dog.Dns.Outcome.{u16_max}
use dog.Dns.Cursor.{ByteOrder, to_be_bytes, from_be_bytes}
use dog.Dns.Message.{Request, request_to_bytes, response_from_bytes}
use dog.Transport.Errors.{Result, ok, err, io_error, ◌>>=◌, parsed}
use dog.Transport.Stream.{Stream, Arrival}
use dog.Transport.Stream.Contents.{contents, ending, read_exact_enough, read_exact_short}
use dog.Transport.Tcp.{
  prefix_with_length, send, read_error, read_fully, length_prefixed_read, checked, exchange,
}

-- What is read in full, and what is left.
pub read_fully_at :
    (stream : Stream) (limit : ℕ) (front back : List ℕ)
    → contents stream.input ≡ front ++ back
    → (rest : List Arrival) × (read_fully stream (length front) limit
        ≡ ok (front, record stream { input = rest }))
      × (contents rest ≡ back)
      × (ending rest ≡ ending stream.input)
unfolding read_fully
read_fully_at stream limit front back h =
    let (rest, read, left, end) =
      read_exact_enough (length front) stream.input
        (omega (arith, ap length h, length-append front back)) in
    let front_here : take (length front) (contents stream.input) ≡ front =
      ap (take (length front)) h ∙ take-append front back in
    (
      rest,
      rw (read, front_here, read_fully),
      left ∙ ap (drop (length front)) h ∙ drop-append front back,
      end,
    )

pub read_fully_short :
    (stream : Stream) (n limit : ℕ)
    → length (contents stream.input) < n
    → read_fully stream n limit ≡ err (read_error (ending stream.input) limit)
unfolding read_fully
read_fully_short stream n limit h = rw (read_exact_short n stream.input h, read_fully)

-- A message that arrives behind its length is read, and nothing more.
pub length_prefixed_read_lem :
    (stream : Stream) (limit b₁ b₂ : ℕ) (message more : List ℕ)
    → contents stream.input ≡ b₁ ∷ b₂ ∷ (message ++ more)
    → length message ≡ from_be_bytes b₁ b₂
    → (rest : List Arrival) × (length_prefixed_read stream limit
        ≡ ok (message, record stream { input = rest }))
      × (contents rest ≡ more)
unfolding length_prefixed_read
length_prefixed_read_lem stream limit b₁ b₂ message more h l =
    let (middle, prefix, left, end) =
      read_fully_at stream limit (b₁ ∷ b₂ ∷ []) (message ++ more) h in
    let (rest, body, behind, end') =
      read_fully_at (record stream { input = middle }) limit message more left in
    (rest, rw (prefix, ← l, body), behind)

-- The bytes of a framed message.
abbrev pub framed : List ℕ → List ℕ
framed message = to_be_bytes (length message) ++ message

framed-length :
    (message : List ℕ)
    → length message ≤ u16_max
    → length message ≡ from_be_bytes (length message / 256) (length message % 256)
framed-length message h = omega arith

pub send_open :
    (stream : Stream) (bytes : List ℕ) (limit : ℕ)
    → stream.refused ≡ none
    → send stream bytes limit ≡ ok (record stream { output = stream.output ++ bytes })
unfolding send
send_open stream bytes limit h =
    ap
      (λ r. elim r as (λ _. Result Stream) [
        | none ↦ ok (record stream { output = stream.output ++ bytes })
        | some kind ↦ err (io_error kind limit)
      ])
      h

module _ ⦃B : ByteOrder⦄ (stream : Stream) (request : Request) (limit : ℕ) where
  -- If the request is encoded as at most 65,535 bytes, writing to the stream does not fail, and
  -- a message of at most 65,535 bytes arrives behind its length, then `exchange` writes the
  -- length of the request and the request, and its result is that of reading the message and
  -- checking it against the request. It stops right behind the message.
  pub exchange_lem :
      (bytes message more : List ℕ)
      → request_to_bytes request ≡ some bytes
      → length bytes ≤ u16_max
      → stream.refused ≡ none
      → contents stream.input ≡ framed message ++ more
      → length message ≤ u16_max
      → (rest : List Arrival) × (contents rest ≡ more)
        × (exchange stream request limit ≡ (
            parsed (response_from_bytes message) >>= λ response.
            checked request response >>= λ answer.
            ok (answer, record stream { input = rest; output = stream.output ++ framed bytes })))
  unfolding exchange prefix_with_length
  exchange_lem bytes message more written fits open_stream arrives short =
      let sent = record stream { output = stream.output ++ framed bytes } in
      let (rest, read, left) =
        length_prefixed_read_lem sent limit _ _ message more arrives
          (framed-length message short) in
      (
        rest,
        left,
        rw (
          written,
          le→leb (length bytes) u16_max fits,
          send_open stream (framed bytes) limit open_stream,
          read,
        ),
      )
