-- ===== src/Transport/Stream/Contents.antt =====
-- What `read_exact` returns depends on the bytes that arrive, not on the pieces they arrive in.
use dog.Prelude.{
  ℕ, zero, suc, ◌-◌, ◌≤◌, ◌<◌, ◌≡◌, refl, sym, ◌∙◌, inl, inr, List, [], ◌∷◌, ◌++◌, arith, leb,
  leb→le, leb→gt, Bool-cases, length, length-append, take, drop, take_past, drop_past, take_within,
  drop_within,
}
use dog.Transport.Errors.{
  IoKind, would_block, timed_out, interrupted, unexpected_eof, invalid_input, other_kind,
}
use dog.Transport.Stream.{Arrival, arrived, stopped, put_back, filled, unfilled, read_exact}

-- The bytes up to the end of the stream, or to the first error.
unfoldable pub contents : List Arrival → List ℕ
contents [] = []
contents (arrived [] ∷ input) = []
contents (stopped interrupted ∷ input) = contents input
contents (stopped kind ∷ input) = []
contents (arrived (b ∷ bytes) ∷ input) = b ∷ (bytes ++ contents input)

-- How they end.
unfoldable pub ending : List Arrival → IoKind
ending [] = unexpected_eof
ending (arrived [] ∷ input) = unexpected_eof
ending (stopped interrupted ∷ input) = ending input
ending (stopped kind ∷ input) = kind
ending (arrived (b ∷ bytes) ∷ input) = ending input

pub contents-put_back :
    (bytes : List ℕ) (input : List Arrival)
    → contents (put_back bytes input) ≡ bytes ++ contents input
unfolding contents
contents-put_back [] input = refl
contents-put_back (b ∷ bytes) input = refl

ending-put_back :
    (bytes : List ℕ) (input : List Arrival) → ending (put_back bytes input) ≡ ending input
unfolding ending
ending-put_back [] input = refl
ending-put_back (b ∷ bytes) input = refl

-- The first `n` bytes are read, and the stream is behind them.
abbrev pub Reads : ℕ → List Arrival → Type 0
Reads n input =
    (rest : List Arrival) × (read_exact n input ≡ filled (take n (contents input)) rest)
    × (contents rest ≡ drop n (contents input))
    × (ending rest ≡ ending input)

pub read_exact_enough : (n : ℕ) (input : List Arrival) → n ≤ length (contents input) → Reads n input
unfolding read_exact contents ending
read_exact_enough zero input h = (input, refl, refl, refl)
read_exact_enough (suc n) [] h = absurd (omega arith)
read_exact_enough (suc n) (arrived [] ∷ input) h = absurd (omega arith)
read_exact_enough (suc n) (stopped interrupted ∷ input) h = read_exact_enough (suc n) input h
read_exact_enough (suc n) (stopped would_block ∷ input) h = absurd (omega arith)
read_exact_enough (suc n) (stopped timed_out ∷ input) h = absurd (omega arith)
read_exact_enough (suc n) (stopped unexpected_eof ∷ input) h = absurd (omega arith)
read_exact_enough (suc n) (stopped invalid_input ∷ input) h = absurd (omega arith)
read_exact_enough (suc n) (stopped (other_kind k) ∷ input) h = absurd (omega arith)
read_exact_enough (suc n) (arrived (b ∷ bytes) ∷ input) h =
    elim (Bool-cases (leb (length bytes) n)) [
      | inl past ↦
          let le = leb→le (length bytes) n past in
          let (rest, read, left, end) =
            read_exact_enough (n - length bytes) input
              (omega (arith, length-append bytes (contents input))) in
          (
            rest,
            rw (past, read) (cc (take_past n bytes (contents input) le)),
            left ∙ sym (drop_past n bytes (contents input) le),
            end,
          )
      | inr within ↦
          let le : n ≤ length bytes = omega (arith, leb→gt (length bytes) n within) in
          (
            put_back (drop n bytes) input,
            rw within (cc (take_within n bytes (contents input) le)),
            contents-put_back (drop n bytes) input ∙ sym (drop_within n bytes (contents input) le),
            ending-put_back (drop n bytes) input,
          )
    ]

pub read_exact_short :
    (n : ℕ) (input : List Arrival)
    → length (contents input) < n
    → read_exact n input ≡ unfilled (ending input)
unfolding read_exact contents ending
read_exact_short zero input h = absurd (omega arith)
read_exact_short (suc n) [] h = refl
read_exact_short (suc n) (arrived [] ∷ input) h = refl
read_exact_short (suc n) (stopped interrupted ∷ input) h = read_exact_short (suc n) input h
read_exact_short (suc n) (stopped would_block ∷ input) h = refl
read_exact_short (suc n) (stopped timed_out ∷ input) h = refl
read_exact_short (suc n) (stopped unexpected_eof ∷ input) h = refl
read_exact_short (suc n) (stopped invalid_input ∷ input) h = refl
read_exact_short (suc n) (stopped (other_kind k) ∷ input) h = refl
read_exact_short (suc n) (arrived (b ∷ bytes) ∷ input) h =
    elim (Bool-cases (leb (length bytes) n)) [
      | inl past ↦
          let le = leb→le (length bytes) n past in
          rw
            (
              past,
              read_exact_short (n - length bytes) input
                  (omega (arith, length-append bytes (contents input))),
            )
            refl
      | inr within ↦
          absurd
            (omega (arith, leb→gt (length bytes) n within, length-append bytes (contents input)))
    ]
