-- ===== src/Transport/H2/Sending/Data.antt =====
-- The frames that a body is split into, however long it is.
use dog.Prelude.{
  ℕ, zero, suc, ◌/◌, ◌%◌, ◌≤◌, ◌≡◌, refl, ap, ◌∙◌, inl, inr, Bool-cases, List, [], ◌∷◌, ◌++◌, arith,
  ltb, ltb→lt, length, take, drop, drop-length, take-drop, All,
}
use dog.Transport.Errors.{ok}
use dog.Transport.H2.Frames.{max_frame, u32_to_be_bytes, frame}
use dog.Transport.H2.Sending.{chunks_fuel, chunks, data_frames}

abbrev pub Fits : List ℕ → Type 0
Fits chunk = length chunk ≤ max_frame

unfoldable pub joined : List (List ℕ) → List ℕ
joined [] = []
joined (chunk ∷ chunks) = chunk ++ joined chunks

take_at_most : (n : ℕ) (xs : List ℕ) → length (take n xs) ≤ n
take_at_most zero xs = omega arith
take_at_most (suc n) [] = omega arith
take_at_most (suc n) (x ∷ xs) = omega (arith, take_at_most n xs)

chunks_fuel_lem :
    (fuel : ℕ) (body : List ℕ)
    → length body ≤ fuel
    → (joined (chunks_fuel fuel body) ≡ body) × All Fits (chunks_fuel fuel body)
unfolding chunks_fuel joined
chunks_fuel_lem zero [] l = (refl, tt)
chunks_fuel_lem (suc fuel) [] l = (refl, tt)
chunks_fuel_lem zero (b ∷ body) l = absurd (omega arith)
chunks_fuel_lem (suc fuel) (b ∷ body) l =
    let (whole, fit) =
      chunks_fuel_lem fuel (drop max_frame (b ∷ body))
        (omega (arith, drop-length max_frame (b ∷ body))) in
    (
      ap (λ rest. take max_frame (b ∷ body) ++ rest) whole ∙ take-drop max_frame (b ∷ body),
      (take_at_most max_frame (b ∷ body), fit),
    )

chunks_fuel_count : (fuel : ℕ) (body : List ℕ) → length (chunks_fuel fuel body) ≤ fuel
unfolding chunks_fuel
chunks_fuel_count zero [] = omega arith
chunks_fuel_count (suc fuel) [] = omega arith
chunks_fuel_count zero (b ∷ body) = omega arith
chunks_fuel_count (suc fuel) (b ∷ body) =
    omega (arith, chunks_fuel_count fuel (drop max_frame (b ∷ body)))

-- The chunks of a body: one at least, and together the body.
pub chunks_lem :
    (body : List ℕ)
    → (first : List ℕ) × (rest : List (List ℕ)) × (chunks body ≡ first ∷ rest)
      × (joined (first ∷ rest) ≡ body)
      × All Fits (first ∷ rest)
      × (length rest ≤ length body)
unfolding chunks joined chunks_fuel
chunks_lem [] = ([], [], refl, refl, (omega arith, tt), omega arith)
chunks_lem (b ∷ body) =
    let (whole, fit) = chunks_fuel_lem (length (b ∷ body)) (b ∷ body) (omega arith) in
    (
      take max_frame (b ∷ body),
      chunks_fuel (length body) (drop max_frame (b ∷ body)),
      refl,
      whole,
      fit,
      omega (arith, chunks_fuel_count (length body) (drop max_frame (b ∷ body))),
    )

abbrev pub frame_bytes : ℕ → ℕ → ℕ → List ℕ → List ℕ
frame_bytes kind flags id payload =
    let n = length payload in
    n / 65536 % 256 ∷ n / 256 % 256 ∷ n % 256 ∷ kind ∷ flags ∷ (u32_to_be_bytes id ++ payload)

pub frame-ok :
    (kind flags id : ℕ) (payload : List ℕ)
    → Fits payload
    → frame kind flags id payload ≡ ok (frame_bytes kind flags id payload)
unfolding frame
frame-ok kind flags id payload h = elim (Bool-cases (ltb max_frame (length payload))) [
  | inl long ↦ absurd (omega (arith, ltb→lt max_frame (length payload) long))
  | inr room ↦ rw (room, frame) refl
]

-- The bytes of some chunks.
abbrev pub chunk_bytes : List ℕ → List (List ℕ) → List ℕ
chunk_bytes chunk [] = frame_bytes 0x0 0x1 1 chunk
chunk_bytes chunk (next ∷ rest) = frame_bytes 0x0 0 1 chunk ++ chunk_bytes next rest

pub data_frames-ok :
    (chunk : List ℕ) (rest : List (List ℕ))
    → All Fits (chunk ∷ rest)
    → data_frames (chunk ∷ rest) ≡ ok (chunk_bytes chunk rest)
unfolding data_frames
data_frames-ok chunk [] h = frame-ok 0x0 0x1 1 chunk h.0
data_frames-ok chunk (next ∷ rest) h =
    rw (frame-ok 0x0 0 1 chunk h.0, data_frames-ok next rest h.1) refl
