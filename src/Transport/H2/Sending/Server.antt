-- ===== src/Transport/H2/Sending/Server.antt =====
-- What a server that follows RFC 9113 reads of a request, apart from the code that writes it.
use dog.Prelude.{
  ℕ, zero, suc, ◌+◌, ◌*◌, ◌/◌, ◌%◌, ◌^◌, ◌≤◌, ◌<◌, ◌≡◌, refl, ap, ◌∙◌, Option, none, some, true,
  ◌&&◌, List, [], ◌∷◌, ◌++◌, arith, decimal, ◌==◌, leb, le→leb, if◌then◌else◌, length,
  length-append, take, drop, take-append, drop-append, All, append_assoc, append-nil,
}
use dog.Transport.Errors.{ok}
use dog.Transport.Address.{HttpsUrl}
use dog.Transport.Https.{host_header}
use dog.Transport.H2.Frames.{max_frame, Frame}
use dog.Transport.H2.Sending.{preface, no_push, header_block, chunks, request_bytes}
use dog.Transport.H2.Sending.Data.{
  Fits, joined, frame_bytes, chunk_bytes, chunks_lem, frame-ok, data_frames-ok,
}
use dog.Transport.H2.Sending.Hpack.{Text, read_block, request_fields, read_block-header_block}

abbrev and_then {ℓ κ} :
    {A : Type ℓ} {B : Type κ} → Option (A × List ℕ) → (A → List ℕ → Option B) → Option B
and_then none f = none
and_then (some (x, rest)) f = f x rest

-- One frame (§4.1): a length of 24 bits, a type, flags, a stream of 31 bits, and the payload, which is
-- no longer than a server has to take (§4.2).
unfoldable receive_frame : List ℕ → Option (Frame × List ℕ)
receive_frame (n₁ ∷ n₂ ∷ n₃ ∷ kind ∷ flags ∷ s₁ ∷ s₂ ∷ s₃ ∷ s₄ ∷ rest) =
    let n = n₁ * 65536 + n₂ * 256 + n₃ in
    if leb n 16384 && leb n (length rest)
    then some (
      record {
        kind = kind;
        flags = flags;
        stream = s₁ % 128 * 16777216 + s₂ * 65536 + s₃ * 256 + s₄;
        payload = take n rest;
      },
      drop n rest,
    )
    else none
receive_frame bytes = none

-- The client's preface (§3.4), as the RFC has it in hexadecimal.
abbrev client_preface : List ℕ
client_preface =
    0x50 ∷ 0x52 ∷ 0x49 ∷ 0x20 ∷ 0x2a ∷ 0x20 ∷ 0x48 ∷ 0x54 ∷ 0x54 ∷ 0x50 ∷ 0x2f ∷ 0x32 ∷ 0x2e ∷ 0x30
    ∷ 0x0d ∷ 0x0a ∷ 0x0d ∷ 0x0a ∷ 0x53 ∷ 0x4d ∷ 0x0d ∷ 0x0a ∷ 0x0d ∷ 0x0a ∷ []

unfoldable behind_preface : List ℕ → List ℕ → Option (List ℕ)
behind_preface [] bytes = some bytes
behind_preface (c ∷ start) [] = none
behind_preface (c ∷ start) (b ∷ bytes) = if c == b then behind_preface start bytes else none

abbrev setting : ℕ → ℕ → Option (List (ℕ × ℕ)) → Option (List (ℕ × ℕ))
setting id value none = none
setting id value (some settings) = some ((id, value) ∷ settings)

-- Settings (§6.5.1): an identifier of 16 bits and a value of 32 bits each.
unfoldable read_settings : List ℕ → Option (List (ℕ × ℕ))
read_settings [] = some []
read_settings (i₁ ∷ i₂ ∷ v₁ ∷ v₂ ∷ v₃ ∷ v₄ ∷ more) =
    setting (i₁ * 256 + i₂) (v₁ * 16777216 + v₂ * 65536 + v₃ * 256 + v₄) (read_settings more)
read_settings bytes = none

-- A SETTINGS frame (type 4) that is no acknowledgement, on the connection's stream.
unfoldable settings_of : Frame → Option (List (ℕ × ℕ))
settings_of f =
    if f.kind == 4 && (f.flags == 0 && f.stream == 0) then read_settings f.payload else none

-- A HEADERS frame (type 1) that ends the headers and not the stream, on the first stream.
unfoldable headers_of : Frame → Option (List (Text × Text))
headers_of f = if f.kind == 1 && (f.flags == 4 && f.stream == 1) then read_block f.payload else none

abbrev before : List ℕ → Option (List ℕ × List ℕ) → Option (List ℕ × List ℕ)
before payload none = none
before payload (some (more, rest)) = some (payload ++ more, rest)

-- The payloads of the DATA frames (type 0) up to the one that ends the stream (flag 1).
unfoldable receive_body : ℕ → List ℕ → Option (List ℕ × List ℕ)
receive_body zero bytes = none
receive_body (suc fuel) bytes = and_then (receive_frame bytes) λ f rest.
    if f.kind == 0 && f.stream == 1
    then (if f.flags == 1
        then some (f.payload, rest)
        else before f.payload (receive_body fuel rest))
    else none

pub record Received : Type 0 where
  pub settings : List (ℕ × ℕ)
  pub fields : List (Text × Text)
  pub body : List ℕ

abbrev with_settings :
    Option (List (ℕ × ℕ)) → Option (List (Text × Text)) → List ℕ → Option Received
with_settings none fields body = none
with_settings (some settings) none body = none
with_settings (some settings) (some fields) body =
    some (record { settings = settings; fields = fields; body = body })

abbrev beside : List ℕ → Option Received → Option (Received × List ℕ)
beside rest none = none
beside rest (some received) = some (received, rest)

-- What stands behind the preface.
unfoldable receive_frames : ℕ → Option (List ℕ) → Option (Received × List ℕ)
receive_frames fuel none = none
receive_frames fuel (some bytes) = and_then (receive_frame bytes) λ settings behind_settings.
    and_then (receive_frame behind_settings) λ headers behind_headers.
      and_then (receive_body fuel behind_headers)
        λ body rest. beside rest (with_settings (settings_of settings) (headers_of headers) body)

-- A request, and the bytes behind it. A DATA frame takes nine bytes at least.
pub receive_request : List ℕ → Option (Received × List ℕ)
receive_request bytes = receive_frames (length bytes) (behind_preface client_preface bytes)

receive_frame-frame_bytes :
    (kind flags id : ℕ) (payload rest : List ℕ)
    → Fits payload
    → id < 2 ^ 31
    → receive_frame (frame_bytes kind flags id payload ++ rest)
      ≡ some (record { kind = kind; flags = flags; stream = id; payload = payload }, rest)
unfolding receive_frame
receive_frame-frame_bytes kind flags id payload rest fits small =
    let n = length payload in
    let count : n / 65536 % 256 * 65536 + n / 256 % 256 * 256 + n % 256 ≡ n = omega arith in
    let stream : id / 16777216 % 256 % 128 * 16777216
          + id / 65536 % 256 * 65536
          + id / 256 % 256 * 256
          + id % 256
        ≡ id =
      omega arith in
    let allowed : leb n 16384 ≡ true = le→leb n 16384 fits in
    let there : leb n (length (payload ++ rest)) ≡ true =
      le→leb n (length (payload ++ rest)) (omega (arith, length-append payload rest)) in
    rw (count, stream, allowed, there, take-append payload rest, drop-append payload rest) refl

receive_body-chunk_bytes :
    (fuel : ℕ) (chunk : List ℕ) (chunks : List (List ℕ)) (rest : List ℕ)
    → length chunks < fuel
    → All Fits (chunk ∷ chunks)
    → receive_body fuel (chunk_bytes chunk chunks ++ rest) ≡ some (joined (chunk ∷ chunks), rest)
unfolding receive_body joined
receive_body-chunk_bytes zero chunk chunks rest l fits = absurd (omega arith)
receive_body-chunk_bytes (suc fuel) chunk [] rest l fits =
    rw (receive_frame-frame_bytes 0 1 1 chunk rest fits.0 (omega arith), append-nil chunk) refl
receive_body-chunk_bytes (suc fuel) chunk (next ∷ chunks) rest l fits =
    rw
      (
        append_assoc (frame_bytes 0 0 1 chunk) (chunk_bytes next chunks) rest,
        receive_frame-frame_bytes 0 0 1 chunk (chunk_bytes next chunks ++ rest) fits.0
            (omega arith),
        receive_body-chunk_bytes fuel next chunks rest (omega arith) fits.1,
      )
      refl

-- There are bytes for every chunk.
count-chunk_bytes :
    (chunk : List ℕ) (chunks : List (List ℕ)) → length chunks < length (chunk_bytes chunk chunks)
count-chunk_bytes chunk [] = omega arith
count-chunk_bytes chunk (next ∷ chunks) = omega (
  arith,
  count-chunk_bytes next chunks,
  length-append (frame_bytes 0 0 1 chunk) (chunk_bytes next chunks),
)

-- What is meant: push is turned off (ENABLE_PUSH, 2, is 0), and a message is posted.
abbrev pub meant : HttpsUrl → List ℕ → Received
meant url body = record {
  settings = (2, 0) ∷ [];
  fields = request_fields (host_header url) url.path (decimal (length body));
  body = body;
}

receive_frames_lem :
    (url : HttpsUrl) (body rest chunk : List ℕ) (others : List (List ℕ)) (fuel : ℕ)
    → length (header_block url (length body)) ≤ max_frame
    → All Fits (chunk ∷ others)
    → joined (chunk ∷ others) ≡ body
    → length others < fuel
    → receive_frames fuel (
        some (
          frame_bytes 4 0 0 no_push
          ++ (frame_bytes 1 4 1 (header_block url (length body))
              ++ (chunk_bytes chunk others ++ rest))))
      ≡ some (meant url body, rest)
unfolding receive_frames settings_of headers_of read_settings
receive_frames_lem url body rest chunk others fuel fits fit whole enough =
    let data' = chunk_bytes chunk others ++ rest in
    let headers = frame_bytes 1 4 1 (header_block url (length body)) in
    rw
      (
        receive_frame-frame_bytes 4 0 0 no_push (headers ++ data') (omega arith) (omega arith),
        receive_frame-frame_bytes 1 4 1 (header_block url (length body)) data' fits (omega arith),
        receive_body-chunk_bytes fuel chunk others rest enough fit,
        whole,
        read_block-header_block url (length body),
      )
      refl

-- If the header block fits a frame, `request_bytes` returns bytes from which a server, written
-- down from RFC 9113 and RFC 7541 apart from the code, reads the preface of the RFC, a SETTINGS
-- frame whose only setting turns push off, a HEADERS frame that ends the headers and not the
-- stream, and DATA frames up to the first that ends the stream, all on their streams, and stops
-- right behind that one. The headers are `:method` POST, `:scheme` https, `:authority` with the
-- value of `host_header`, `:path` with the path of the URL, the content type and the accepted
-- type `application/dns-message`, the user agent `dog/0.2.0-pre`, and the length of the body;
-- the DATA frames hold the body, of any length.
pub receive_request-request_bytes :
    (url : HttpsUrl) (body more : List ℕ)
    → length (header_block url (length body)) ≤ max_frame
    → (bytes : List ℕ) × (request_bytes url body ≡ ok bytes)
      × (receive_request (bytes ++ more) ≡ some (meant url body, more))
unfolding request_bytes receive_request behind_preface preface
receive_request-request_bytes url body more fits =
    let (first, rest, shape, whole, fit, count) = chunks_lem body in
    let settings = frame_bytes 4 0 0 no_push in
    let headers = frame_bytes 1 4 1 (header_block url (length body)) in
    let data' = chunk_bytes first rest in
    let bytes = preface ++ (settings ++ (headers ++ data')) in
    let written : request_bytes url body ≡ ok bytes =
      rw
        (
          frame-ok 4 0 0 no_push (omega arith),
          frame-ok 1 4 1 (header_block url (length body)) fits,
          shape,
          data_frames-ok first rest fit,
        )
        refl in
    let apart : (settings ++ (headers ++ data')) ++ more
        ≡ settings ++ (headers ++ (data' ++ more)) =
      append_assoc settings (headers ++ data') more
      ∙ ap (λ bs. settings ++ bs) (append_assoc headers data' more) in
    let enough : length rest < length (bytes ++ more) = omega (
      arith,
      count-chunk_bytes first rest,
      length-append bytes more,
      length-append preface (settings ++ (headers ++ data')),
      length-append settings (headers ++ data'),
      length-append headers data',
    ) in
    let read : receive_frames (length (bytes ++ more))
          (some ((settings ++ (headers ++ data')) ++ more))
        ≡ some (meant url body, more) =
      ap (λ bs. receive_frames (length (bytes ++ more)) (some bs)) apart
      ∙ receive_frames_lem url body more first rest (length (bytes ++ more)) fits fit whole
          enough in
    (bytes, written, read)
