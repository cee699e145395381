-- ===== src/Transport/H2/Incoming/Read.antt =====
-- Reading a response over HTTP/2 ends without a panic, in an error or with a body that fits a
-- message.
use dog.Prelude.{
  ◌≡◌, ℕ, zero, suc, ◌+◌, ◌*◌, ◌^◌, ◌≤◌, ◌<◌, ap, inl, inr, Option, Option-cases, none, some,
  Bool-cases, List, ◌∷◌, arith, bit_or, leb, leb→le, leb→gt, ltb, length, drop-length, take-length,
}
use dog.Transport.Ends.{Ends, Ends-bind, Ends-if, Ends-weaken}
use dog.Transport.Stream.{Stream}
use dog.Transport.Stream.Contents.{contents, read_exact_enough}
use dog.Transport.Tcp.{send, read_fully}
use dog.Transport.Tcp.Framing.{read_fully_short}
use dog.Transport.Https.{max_body}
use dog.Transport.H2.Frames.{read_frame, read_payload}
use dog.Transport.H2.Incoming.{Incoming, empty, handle, send_reply, read_frames, read_body}
use dog.Transport.H2.Incoming.Body.{IsConsistent, empty-IsConsistent, IsNext, handle-IsConsistent}

abbrev waiting : Stream → ℕ
waiting stream = length (contents stream.input)

-- At least `n` bytes fewer wait.
abbrev IsBehind {ℓ} : {A : Type ℓ} → ℕ → Stream → A × Stream → Type 0
IsBehind n stream (x, rest) = waiting rest + n ≤ waiting stream

-- `n` bytes were read, and at least as many fewer wait.
abbrev IsRead : ℕ → Stream → List ℕ × Stream → Type 0
IsRead n stream (bytes, rest) = (length bytes ≡ n) × (waiting rest + n ≤ waiting stream)

abbrev IsBehindStream : Stream → Stream → Type 0
IsBehindStream stream rest = waiting rest ≤ waiting stream

read_fully-Ends :
    (stream : Stream) (n limit : ℕ) → Ends (IsRead n stream) (read_fully stream n limit)
unfolding read_fully
read_fully-Ends stream n limit = elim (Bool-cases (leb n (waiting stream))) [
  | inl enough ↦
      let (rest, read, left, end) =
        read_exact_enough n stream.input (leb→le n (waiting stream) enough) in
      rw (read, read_fully)
        (
          take-length n (contents stream.input) (leb→le n (waiting stream) enough),
          omega (
            arith,
            ap length left,
            drop-length n (contents stream.input),
            leb→le n (waiting stream) enough,
          ),
        )
  | inr short ↦ rw (read_fully_short stream n limit (leb→gt n (waiting stream) short)) tt
]

read_payload-Ends :
    (head : List ℕ) (stream : Stream) (limit : ℕ)
    → length head ≡ 9
    → Ends (IsBehind 0 stream) (read_payload head stream limit)
unfolding read_payload
read_payload-Ends (h₀ ∷ h₁ ∷ h₂ ∷ kind ∷ flags ∷ s₁ ∷ s₂ ∷ s₃ ∷ s₄ ∷ more) stream limit nine =
    let n = bit_or (bit_or (h₀ * 2 ^ 16) (h₁ * 2 ^ 8)) h₂ in
    Ends-if (IsBehind 0 stream) (ltb 16384 n) _ _ (λ long. tt)
      λ room.
        Ends-bind (IsRead n stream) (IsBehind 0 stream) (read_fully stream n limit) _
          (read_fully-Ends stream n limit) λ r read. omega (arith, read.1)
read_payload-Ends head stream limit nine = absurd (omega arith)

read_frame-Ends : (stream : Stream) (limit : ℕ) → Ends (IsBehind 9 stream) (read_frame stream limit)
unfolding read_frame
read_frame-Ends stream limit =
    Ends-bind (IsRead 9 stream) (IsBehind 9 stream) (read_fully stream 9 limit) _
      (read_fully-Ends stream 9 limit)
      λ r head.
        Ends-weaken (IsBehind 0 r.1) (IsBehind 9 stream) (read_payload r.0 r.1 limit)
          (λ s payload. omega (arith, payload, head.1)) (read_payload-Ends r.0 r.1 limit head.0)

send-Ends :
    (stream : Stream) (bytes : List ℕ) (limit : ℕ)
    → Ends (IsBehindStream stream) (send stream bytes limit)
unfolding send
send-Ends stream bytes limit = elim (Option-cases stream.refused) [
  | inl writes ↦ rw (writes, send) (omega arith)
  | inr (kind, closed) ↦ rw (closed, send) tt
]

send_reply-Ends :
    (stream : Stream) (back : Option (List ℕ)) (limit : ℕ)
    → Ends (IsBehindStream stream) (send_reply stream back limit)
send_reply-Ends stream none limit = omega arith
send_reply-Ends stream (some bytes) limit = send-Ends stream bytes limit

-- What is returned, and how much of it.
abbrev pub IsShort : List ℕ × Stream → Type 0
IsShort (body, rest) = length body ≤ max_body

read_frames-Ends :
    (fuel : ℕ) (incoming : Incoming) (stream : Stream) (limit : ℕ)
    → IsConsistent incoming
    → waiting stream < fuel
    → Ends IsShort (read_frames fuel incoming stream limit)
unfolding read_frames
read_frames-Ends zero incoming stream limit consistent l = absurd (omega arith)
read_frames-Ends (suc fuel) incoming stream limit consistent l =
    Ends-if IsShort incoming.ended _ _ (λ ended. consistent.short)
      λ unended.
        Ends-bind (IsBehind 9 stream) IsShort (read_frame stream limit) _
          (read_frame-Ends stream limit)
          λ r read.
            Ends-bind IsNext IsShort (handle incoming r.0) _
              (handle-IsConsistent incoming consistent r.0)
              λ s next.
                Ends-bind (IsBehindStream r.1) IsShort (send_reply r.1 s.1 limit) _
                  (send_reply-Ends r.1 s.1 limit)
                  λ sent same.
                    read_frames-Ends fuel s.0 sent limit next (omega (arith, read, same, l))

-- Reading a response over HTTP/2 ends on any stream whose bytes end, without a panic and
-- without running out of fuel: in an error, or with a body of at most 65,535 bytes.
pub read_body-IsShort : (stream : Stream) (limit : ℕ) → Ends IsShort (read_body stream limit)
unfolding read_body
read_body-IsShort stream limit =
    read_frames-Ends (suc (waiting stream)) empty stream limit empty-IsConsistent (omega arith)
