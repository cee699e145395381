-- ===== src/Transport/H2/Frames.antt =====
-- HTTP/2 frames (RFC 9113 §4.1) in h2.rs: `frame` and `read_frame`.
pub mod RoundTrip
use dog.Prelude.{
  ℕ, ◌+◌, ◌*◌, ◌/◌, ◌%◌, ◌^◌, ◌-◌, List, [], ◌∷◌, ◌++◌, bit_and, bit_or, leb, ltb, if◌then◌else◌,
  length,
}
use dog.Transport.Errors.{
  Error, malformed_http, request_frame_too_long, server_frame_too_long, Result, ok, err, ◌>>=◌,
}
use dog.Transport.Stream.{Stream}
use dog.Transport.Tcp.{read_fully}

-- `MAX_FRAME`
abbrev pub max_frame : ℕ
max_frame = 16384

pub record Frame : Type 0 where
  pub kind : ℕ
  pub flags : ℕ
  pub stream : ℕ
  pub payload : List ℕ

-- `u32::to_be_bytes`
abbrev pub u32_to_be_bytes : ℕ → List ℕ
u32_to_be_bytes n = n / 16777216 % 256 ∷ n / 65536 % 256 ∷ n / 256 % 256 ∷ n % 256 ∷ []

unfoldable pub frame : ℕ → ℕ → ℕ → List ℕ → Result (List ℕ)
frame kind flags stream payload =
    let n = length payload in
    if ltb max_frame n
    then err (malformed_http (request_frame_too_long n))
    else ok (
        n / 65536 % 256
        ∷ n / 256 % 256
        ∷ n % 256
        ∷ kind
        ∷ flags
        ∷ (u32_to_be_bytes stream ++ payload))

-- `u32::from_be_bytes`
abbrev pub u32_from_be_bytes : ℕ → ℕ → ℕ → ℕ → ℕ
u32_from_be_bytes b₁ b₂ b₃ b₄ = ((b₁ * 256 + b₂) * 256 + b₃) * 256 + b₄

-- The part of `read_frame` behind its first read; a head has nine bytes.
unfoldable pub read_payload : List ℕ → Stream → ℕ → Result (Frame × Stream)
read_payload (h₀ ∷ h₁ ∷ h₂ ∷ kind ∷ flags ∷ s₁ ∷ s₂ ∷ s₃ ∷ s₄ ∷ more) stream limit =
    let n = bit_or (bit_or (h₀ * 2 ^ 16) (h₁ * 2 ^ 8)) h₂ in
    if ltb max_frame n then err (malformed_http (server_frame_too_long n)) else do
      (payload, rest) ← read_fully stream n limit
      ok (
        record {
          kind = kind;
          flags = flags;
          stream = bit_and (u32_from_be_bytes s₁ s₂ s₃ s₄) 0x7fff_ffff;
          payload = payload;
        },
        rest,
      )
read_payload head stream limit = Result.panic

unfoldable pub read_frame : Stream → ℕ → Result (Frame × Stream)
read_frame stream limit = do (head, rest) ← read_fully stream 9 limit; read_payload head rest limit
