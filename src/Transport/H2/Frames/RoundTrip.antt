-- ===== src/Transport/H2/Frames/RoundTrip.antt =====
-- A frame that was encoded is read back from a stream, whatever pieces it arrives in.
use dog.Prelude.{
  ℕ, ◌+◌, ◌*◌, ◌/◌, ◌%◌, ◌^◌, ◌≤◌, ◌<◌, ◌≡◌, refl, sym, ap, ◌∙◌, List, ◌∷◌, ◌++◌, arith, bit_and,
  bit_or, bit_or_fields, bit_and_mask, ltb, length, ltb→ge, inl, inr, Bool-cases,
}
use native.Mathlib.Nat.{mod-eq_of_lt}
use dog.Transport.Errors.{ok, err, malformed_http, request_frame_too_long}
use dog.Transport.Stream.{Stream, Arrival}
use dog.Transport.Stream.Contents.{contents}
use dog.Transport.Tcp.Framing.{read_fully_at}
use dog.Transport.H2.Frames.{
  max_frame, u32_to_be_bytes, u32_from_be_bytes, frame, read_payload, read_frame,
}

length_bits :
    (n : ℕ)
    → n ≤ 16384
    → bit_or (bit_or (n / 65536 % 256 * 2 ^ 16) (n / 256 % 256 * 2 ^ 8)) (n % 256) ≡ n
length_bits n h =
    let a = n / 65536 % 256 in
    let b = n / 256 % 256 in
    let high : bit_or (a * 2 ^ 16) (b * 2 ^ 8) ≡ (a * 256 + b) * 2 ^ 8 =
      bit_or_fields 16 a (b * 2 ^ 8) (omega arith) ∙ omega arith in
    rw high (bit_or_fields 8 (a * 256 + b) (n % 256) (omega arith) ∙ omega arith)

stream_bits :
    (s : ℕ)
    → s < 2 ^ 31
    → bit_and
        (u32_from_be_bytes (s / 16777216 % 256) (s / 65536 % 256) (s / 256 % 256) (s % 256))
        0x7fff_ffff
      ≡ s
stream_bits s h =
    let whole : u32_from_be_bytes (s / 16777216 % 256) (s / 65536 % 256) (s / 256 % 256) (s % 256)
        ≡ s =
      omega arith in
    rw whole (bit_and_mask 31 s ∙ mod-eq_of_lt h)

-- A frame that `frame` encoded, for a stream below 2^31, is read back by `read_frame` from a
-- connection on which its bytes are the next to come, whatever pieces they come in and whatever
-- comes behind them, and the connection is left right behind it.
pub read_frame-frame :
    (kind flags id : ℕ) (payload bytes more : List ℕ) (stream : Stream) (limit : ℕ)
    → id < 2 ^ 31
    → frame kind flags id payload ≡ ok bytes
    → contents stream.input ≡ bytes ++ more
    → (rest : List Arrival) × (read_frame stream limit
        ≡ ok (
          record { kind = kind; flags = flags; stream = id; payload = payload },
          record stream { input = rest },
        ))
      × (contents rest ≡ more)
unfolding frame read_frame read_payload
read_frame-frame kind flags id payload bytes more stream limit small made arrives =
    let n = length payload in
    let head = n / 65536 % 256 ∷ n / 256 % 256 ∷ n % 256 ∷ kind ∷ flags ∷ u32_to_be_bytes id in
    elim (Bool-cases (ltb max_frame n)) [
      | inl long ↦
          let refused : frame kind flags id payload
              ≡ err (malformed_http (request_frame_too_long n)) =
            rw long refl in
          cc
      | inr room ↦
          let encoded : frame kind flags id payload ≡ ok (head ++ payload) = rw room refl in
          let shape : head ++ payload ≡ bytes = cc in
          let (middle, read, left, end) =
            read_fully_at stream limit head (payload ++ more)
              (arrives ∙ ap (λ bs. bs ++ more) (sym shape)) in
          let (rest, body, behind, end') =
            read_fully_at (record stream { input = middle }) limit payload more left in
          (
            rest,
            rw (read, length_bits n (ltb→ge max_frame n room), room, body, stream_bits id small)
                refl,
            behind,
          )
    ]
