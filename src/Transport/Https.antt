-- ===== src/Transport/Https.antt =====
-- https.rs of dns-transport/src: a message as the body of an HTTP request, and of its response. The
-- head of a response is taken apart by the package httparse, a parameter.
pub mod Lines
pub mod Blank
pub mod Body
use dog.Prelude.{
  ℕ, zero, suc, ◌+◌, ◌-◌, Option, none, some, Bool, true, false, List, [], ◌∷◌, ◌++◌, codes,
  decimal, eq_ignore_ascii_case, leb, ltb, ◌==◌, if◌then◌else◌, length, take, drop,
}
use dog.Dns.Cursor.{ByteOrder}
use dog.Dns.Message.{Request, Response, request_to_bytes, response_from_bytes}
use dog.Transport.Errors.{
  Error, interrupted, malformed_http, long_head, incomplete_head, no_content_length,
  transfer_encoding, not_a_length, long_length, truncated_response, http_error, wrong_http_status,
  io_error, Result, ok, err, out_of_fuel, ◌>>=◌, parsed,
}
use dog.Transport.Stream.{Arrival, arrived, stopped, put_back, Stream}
use dog.Transport.Stream.Contents.{contents}
use dog.Transport.Tcp.{encoded, send, checked}
use dog.Transport.Address.{HttpsUrl, contains, starts_with, parse_unsigned}

-- `MAX_HEAD` and `MAX_BODY`
abbrev pub max_head : ℕ
max_head = 8192

abbrev pub max_body : ℕ
max_body = 65535

-- `USER_AGENT`, with the version of dns-transport/Cargo.toml.
abbrev pub user_agent : List ℕ
user_agent = codes "dog/0.2.0-pre"

unfoldable pub host_header : HttpsUrl → List ℕ
host_header url =
    let host =
      if contains (b':' ∷ []) url.host
      then (b'[' ∷ []) ++ (url.host ++ (b']' ∷ []))
      else url.host in
    if url.port == 443 then host else host ++ b':' ∷ decimal url.port

abbrev pub line_break : List ℕ
line_break = 13 ∷ 10 ∷ []

unfoldable pub build_http_request : HttpsUrl → List ℕ → List ℕ
build_http_request url body =
    codes "POST "
    ++ (url.path
        ++ (codes " HTTP/1.1"
            ++ (line_break
                ++ (codes "Host: "
                    ++ (host_header url
                        ++ (line_break
                            ++ (codes "Content-Type: application/dns-message"
                                ++ (line_break
                                    ++ (codes "Accept: application/dns-message"
                                        ++ (line_break
                                            ++ (codes "User-Agent: "
                                                ++ (user_agent
                                                    ++ (line_break
                                                        ++ (codes "Content-Length: "
                                                            ++ (decimal (length body)
                                                            ++ (line_break
                                                            ++ (line_break ++ body)))))))))))))))))

-- What `Response::parse` finds.
pub data Head : Type 0 where
  refused : ℕ → Head
  partial : Head
  complete : Option ℕ → Option (List ℕ) → List (List ℕ × List ℕ) → Head

-- httparse's `parse` with room for 64 headers, and std's `from_utf8` and `trim` of a header's value.
pub record HttpParser : Type 0 where
  pub parse : List ℕ → Head
  pub trimmed_text : List ℕ → Option (List ℕ)

-- One read into a buffer of 4096 bytes, and again after an interruption.
unfoldable pub read_more : List Arrival → ℕ → Result (List ℕ × List Arrival)
read_more [] limit = err truncated_response
read_more (arrived [] ∷ input) limit = err truncated_response
read_more (arrived (b ∷ bytes) ∷ input) limit =
    ok (b ∷ take 4095 bytes, put_back (drop 4095 bytes) input)
read_more (stopped interrupted ∷ input) limit = read_more input limit
read_more (stopped kind ∷ input) limit = err (io_error kind limit)

-- `windows(4).position(...)`: where the first blank line begins.
abbrev pub one_further : Option ℕ → Option ℕ
one_further none = none
one_further (some at) = some (suc at)

unfoldable pub blank_line : List ℕ → Option ℕ
blank_line [] = none
blank_line (b ∷ data') =
    if starts_with (13 ∷ 10 ∷ 13 ∷ 10 ∷ []) (b ∷ data')
    then some 0
    else one_further (blank_line data')

-- The loop of `read_head`, which returns the bytes so far too. Each round reads a byte at least.
unfoldable pub read_head : ℕ → List Arrival → List ℕ → ℕ → Result (ℕ × List ℕ × List Arrival)
read_head zero input data' limit = out_of_fuel
read_head (suc fuel) input data' limit = elim (blank_line data') [
  | some end ↦ ok (end + 4, data', input)
  | none ↦
      if ltb max_head (length data')
      then err (malformed_http long_head)
      else do (more, rest) ← read_more input limit; read_head fuel rest (data' ++ more) limit
]

-- The `while` of `read_http_body`.
unfoldable pub read_until : ℕ → ℕ → List Arrival → List ℕ → ℕ → Result (List ℕ × List Arrival)
read_until zero body_end input data' limit = out_of_fuel
read_until (suc fuel) body_end input data' limit =
    if leb body_end (length data') then ok (data', input) else do
      (more, rest) ← read_more input limit
      read_until fuel body_end rest (data' ++ more) limit

unfoldable pub header : List (List ℕ × List ℕ) → List ℕ → Option (List ℕ)
header [] name = none
header ((known, value) ∷ headers) name =
    if eq_ignore_ascii_case known name then some value else header headers name

-- The greatest `usize`.
abbrev pub usize_max : ℕ
usize_max = 18446744073709551615

abbrev pub some_or {ℓ} : {A : Type ℓ} → Option A → Error → Result A
some_or (some x) e = ok x
some_or none e = err e

module _ ⦃H : HttpParser⦄ where
  -- `from_utf8`, `trim` and `parse::<usize>`
  abbrev pub length_in : Option (List ℕ) → Option ℕ
  length_in none = none
  length_in (some text) = parse_unsigned usize_max text

  abbrev pub no_longer : ℕ → Result ℕ
  no_longer n = if ltb max_body n then err (malformed_http (long_length n)) else ok n

  unfoldable pub content_length : List (List ℕ × List ℕ) → Result ℕ
  content_length headers = elim (header headers (codes "Transfer-Encoding")) [
    | some encoding ↦ err (malformed_http (transfer_encoding encoding))
    | none ↦ do
      value ← some_or (header headers (codes "Content-Length")) (malformed_http no_content_length)
      n ← some_or (length_in (H.trimmed_text value)) (malformed_http (not_a_length value))
      no_longer n
  ]

  -- The comparison of the status with 200.
  abbrev pub by_code : Option ℕ → Option (List ℕ) → List (List ℕ × List ℕ) → Result ℕ
  by_code none reason headers = err (wrong_http_status 0 reason)
  by_code (some code) reason headers =
      if code == 200 then content_length headers else err (wrong_http_status code reason)

  abbrev pub of_head : Head → Result ℕ
  of_head (refused e) = err (http_error e)
  of_head partial = err (malformed_http incomplete_head)
  of_head (complete code reason headers) = by_code code reason headers

  unfoldable pub parse_head : List ℕ → Result ℕ
  parse_head head = of_head (H.parse head)

  -- The fuel is one more than the bytes that wait.
  unfoldable pub read_http_body : Stream → ℕ → Result (List ℕ × Stream)
  read_http_body stream limit = do
    (head_end, data', rest) ← read_head (suc (length (contents stream.input))) stream.input [] limit
    n ← parse_head (take head_end data')
    (bytes, after) ← read_until (suc (length (contents rest))) (head_end + n) rest data' limit
    ok (drop head_end (take (head_end + n) bytes), record stream { input = after })

  module _ ⦃B : ByteOrder⦄ where
    unfoldable pub exchange_https : Stream → HttpsUrl → Request → ℕ → Result (Response × Stream)
    exchange_https stream url request limit = do
      message ← encoded (request_to_bytes request)
      sent ← send stream (build_http_request url message) limit
      (body, rest) ← read_http_body sent limit
      response ← parsed (response_from_bytes body)
      answer ← checked request response
      ok (answer, rest)
