-- ===== src/Transport/H2/Incoming.antt =====
-- What h2.rs makes of the frames of a response: `handle`, `headers`, `data` and `read_body`.
pub mod Body
pub mod Read
use dog.Prelude.{
  ℕ, zero, suc, ◌+◌, ◌-◌, Option, none, some, Bool, true, false, not, ◌&&◌, String, List, [], ◌∷◌,
  ◌++◌, bit_and, ◌==◌, leb, ltb, if◌then◌else◌, length, take, drop, get_elem?,
}
use dog.Transport.Errors.{
  Error, StopReason, unexplained, named, numbered, MalformedHttp, closed_connection,
  cancelled_request, pushed_response, body_before_headers, body_too_long, frame_too_short,
  malformed_http, wrong_http_status, Result, ok, err, out_of_fuel, ◌>>=◌,
}
use dog.Transport.Stream.{Stream}
use dog.Transport.Stream.Contents.{contents}
use dog.Transport.Tcp.{send}
use dog.Transport.Https.{max_body}
use dog.Transport.H2.Frames.{Frame, frame, read_frame, u32_from_be_bytes}
use dog.Transport.H2.Status.{status}

pub record Incoming : Type 0 where
  pub headers : Bool
  pub body : List ℕ
  pub ended : Bool

-- The derived `Default`.
abbrev pub empty : Incoming
empty = record { headers = false; body = []; ended = false }

-- `flags & mask != 0`
abbrev pub has_flag : ℕ → ℕ → Bool
has_flag flags mask = not (bit_and flags mask == 0)

abbrev pub too_short : Error
too_short = malformed_http frame_too_short

-- The padding's length and what follows it, if the frame is padded.
abbrev pub split_padding : Bool → List ℕ → Result (ℕ × List ℕ)
split_padding false payload = ok (0, payload)
split_padding true [] = err too_short
split_padding true (count ∷ rest) = ok (count, rest)

unfoldable pub content : Frame → Result (List ℕ)
content f = do
  (padding, rest) ← split_padding (has_flag f.flags 0x8) f.payload
  fields ←
      if f.kind == 0x1 && has_flag f.flags 0x20
      then (if leb 5 (length rest) then ok (drop 5 rest) else err too_short)
      else ok rest
  if leb padding (length fields) then ok (take (length fields - padding) fields) else err too_short

unfoldable pub error_codes : List String
error_codes =
    "NO_ERROR" ∷ "PROTOCOL_ERROR" ∷ "INTERNAL_ERROR" ∷ "FLOW_CONTROL_ERROR" ∷ "SETTINGS_TIMEOUT"
    ∷ "STREAM_CLOSED" ∷ "FRAME_SIZE_ERROR" ∷ "REFUSED_STREAM" ∷ "CANCEL" ∷ "COMPRESSION_ERROR"
    ∷ "CONNECT_ERROR" ∷ "ENHANCE_YOUR_CALM" ∷ "INADEQUATE_SECURITY" ∷ "HTTP_1_1_REQUIRED" ∷ []

-- The reason of `stopped`, from the bytes that may hold a code.
unfoldable pub stop_reason : List ℕ → StopReason
stop_reason (b₁ ∷ b₂ ∷ b₃ ∷ b₄ ∷ more) =
    let code = u32_from_be_bytes b₁ b₂ b₃ b₄ in
    elim (get_elem? error_codes code) [ some name ↦ named name | none ↦ numbered code ]
stop_reason bytes = unexplained

-- The `match` on the status in `headers`.
unfoldable pub take_status : Bool → Incoming → ℕ → Result Incoming
take_status ends incoming code =
    if code == 200
    then ok (record incoming { headers = true; ended = ends })
    else if leb 100 code && leb code 199
    then ok incoming
    else err (wrong_http_status code none)

unfoldable pub headers : Incoming → Frame → Result Incoming
headers incoming f =
    let ends = has_flag f.flags 0x1 in
    if incoming.headers
    then ok (record incoming { ended = ends })
    else do block ← content f; code ← status block; take_status ends incoming code

unfoldable pub data_frame : Incoming → Frame → Result Incoming
data_frame incoming f =
    if incoming.headers
    then (do
      bytes ← content f
      let body = incoming.body ++ bytes
      if ltb max_body (length body)
          then err (malformed_http body_too_long)
          else ok (record incoming { body = body; ended = has_flag f.flags 0x1 }))
    else err (malformed_http body_before_headers)

-- `map(Some)` and `map(|()| None)`.
abbrev pub reply : Incoming → Result (List ℕ) → Result (Incoming × Option (List ℕ))
reply incoming (ok bytes) = ok (incoming, some bytes)
reply incoming (err e) = err e
reply incoming Result.panic = Result.panic
reply incoming out_of_fuel = out_of_fuel

abbrev pub goes_on : Result Incoming → Result (Incoming × Option (List ℕ))
goes_on (ok next) = ok (next, none)
goes_on (err e) = err e
goes_on Result.panic = Result.panic
goes_on out_of_fuel = out_of_fuel

-- The arms of the `match` in `handle`, with the frame to send back.
unfoldable pub handle : Incoming → Frame → Result (Incoming × Option (List ℕ))
handle incoming f =
    let ours = f.stream == 1 in
    if f.kind == 0x4 && not (has_flag f.flags 0x1)
    then reply incoming (frame 0x4 0x1 0 [])
    else if f.kind == 0x6 && not (has_flag f.flags 0x1)
    then reply incoming (frame 0x6 0x1 0 f.payload)
    else if f.kind == 0x7
    then err (
        malformed_http (
          closed_connection
            (if leb 8 (length f.payload) then stop_reason (drop 4 f.payload) else unexplained)))
    else if f.kind == 0x3 && ours
    then err (malformed_http (cancelled_request (stop_reason f.payload)))
    else if f.kind == 0x1 && ours
    then goes_on (headers incoming f)
    else if f.kind == 0x0 && ours
    then goes_on (data_frame incoming f)
    else if f.kind == 0x5
    then err (malformed_http pushed_response)
    else ok (incoming, none)

-- `if let Some(reply) = ... { send(...)?; }`
abbrev pub send_reply : Stream → Option (List ℕ) → ℕ → Result Stream
send_reply stream none limit = ok stream
send_reply stream (some reply) limit = send stream reply limit

-- The loop of `read_body`. Each frame takes nine bytes at least, so one more than the stream has bytes
-- is fuel enough.
unfoldable pub read_frames : ℕ → Incoming → Stream → ℕ → Result (List ℕ × Stream)
read_frames zero incoming stream limit = out_of_fuel
read_frames (suc fuel) incoming stream limit =
    if incoming.ended then ok (incoming.body, stream) else do
      (f, rest) ← read_frame stream limit
      (next, reply) ← handle incoming f
      sent ← send_reply rest reply limit
      read_frames fuel next sent limit

unfoldable pub read_body : Stream → ℕ → Result (List ℕ × Stream)
read_body stream limit = read_frames (suc (length (contents stream.input))) empty stream limit
