-- ===== src/Transport/Https/Body.antt =====
-- The body of a response is read, whatever pieces the response arrives in.
use dog.Prelude.{
  ℕ, zero, suc, ◌+◌, ◌≤◌, ◌<◌, ◌≡◌, refl, sym, ap, ◌∙◌, inl, inr, none, some, false, Bool-cases,
  List, [], ◌∷◌, ◌++◌, arith, leb, leb→le, leb→gt, ltb, ltb→lt, length, length-append, take, drop,
  take-append, take_within, take-drop, drop-append, append_assoc, append-nil,
}
use dog.Transport.Errors.{
  would_block, timed_out, interrupted, unexpected_eof, invalid_input, other_kind, ok,
}
use dog.Transport.Stream.{Stream, Arrival, arrived, stopped, put_back}
use dog.Transport.Stream.Contents.{contents, contents-put_back}
use dog.Transport.Https.{
  max_head, HttpParser, read_more, blank_line, read_head, read_until, parse_head, read_http_body,
}
use dog.Transport.Https.Blank.{blank_line-Seen}

-- Some bytes are read, if some are to come.
read_more-some :
    (input : List Arrival) (limit : ℕ)
    → 1 ≤ length (contents input)
    → (more : List ℕ) × (rest : List Arrival) × (read_more input limit ≡ ok (more, rest))
      × (more ++ contents rest ≡ contents input)
      × (1 ≤ length more)
unfolding read_more contents
read_more-some [] limit h = absurd (omega arith)
read_more-some (arrived [] ∷ input) limit h = absurd (omega arith)
read_more-some (arrived (b ∷ bytes) ∷ input) limit h = (
  b ∷ take 4095 bytes,
  put_back (drop 4095 bytes) input,
  refl,
  ap (λ bs. b ∷ bs)
      (ap (λ bs. take 4095 bytes ++ bs) (contents-put_back (drop 4095 bytes) input)
        ∙ sym (append_assoc (take 4095 bytes) (drop 4095 bytes) (contents input))
        ∙ ap (λ bs. bs ++ contents input) (take-drop 4095 bytes)),
  omega arith,
)
read_more-some (stopped interrupted ∷ input) limit h = read_more-some input limit h
read_more-some (stopped would_block ∷ input) limit h = absurd (omega arith)
read_more-some (stopped timed_out ∷ input) limit h = absurd (omega arith)
read_more-some (stopped unexpected_eof ∷ input) limit h = absurd (omega arith)
read_more-some (stopped invalid_input ∷ input) limit h = absurd (omega arith)
read_more-some (stopped (other_kind k) ∷ input) limit h = absurd (omega arith)

-- What one round leaves to be read.
one_round :
    (all data' more : List ℕ) (input rest : List Arrival)
    → data' ++ contents input ≡ all
    → more ++ contents rest ≡ contents input
    → (data' ++ more) ++ contents rest ≡ all
one_round all data' more input rest h step =
    append_assoc data' more (contents rest) ∙ ap (λ bs. data' ++ bs) step ∙ h

read_until_lem :
    (fuel body_end : ℕ) (all data' : List ℕ) (input : List Arrival) (limit : ℕ)
    → data' ++ contents input ≡ all
    → body_end ≤ length all
    → length (contents input) < fuel
    → (bytes : List ℕ) × (rest : List Arrival) × (read_until fuel body_end input data' limit
        ≡ ok (bytes, rest))
      × (bytes ++ contents rest ≡ all)
      × (body_end ≤ length bytes)
unfolding read_until
read_until_lem zero body_end all data' input limit h fits l = absurd (omega arith)
read_until_lem (suc fuel) body_end all data' input limit h fits l =
    elim (Bool-cases (leb body_end (length data'))) [
      | inl done ↦
          (data', input, rw (done, read_until) refl, h, leb→le body_end (length data') done)
      | inr short ↦
          let waits : 1 ≤ length (contents input) = omega (
            arith,
            leb→gt body_end (length data') short,
            length-append data' (contents input),
            ap length h,
          ) in
          let (more, rest, read, step, some_more) = read_more-some input limit waits in
          let (bytes, after, result, whole, enough) =
            read_until_lem fuel body_end all (data' ++ more) rest limit
              (one_round all data' more input rest h step) fits
              (omega (arith, length-append more (contents rest), ap length step, some_more)) in
          (bytes, after, rw (short, read, read_until) result, whole, enough)
    ]

fits_head : (n : ℕ) → n ≤ max_head → ltb max_head n ≡ false
fits_head n h = elim (Bool-cases (ltb max_head n)) [
  | inl past ↦ absurd (omega (arith, ltb→lt max_head n past))
  | inr e ↦ e
]

-- A blank line that has not been read is still to come.
something_waits :
    (at : ℕ) (all data' : List ℕ) (input : List Arrival)
    → data' ++ contents input ≡ all
    → blank_line all ≡ some at
    → blank_line data' ≡ none
    → 1 ≤ length (contents input)
something_waits at all data' input h there nowhere = to_come (contents input) h
  where
    to_come : (bytes : List ℕ) → data' ++ bytes ≡ all → 1 ≤ length bytes
    to_come [] e = let same : data' ≡ all = sym (append-nil data') ∙ e in cc (ap blank_line same)
    to_come (b ∷ bytes) e = omega arith

read_head_lem :
    (fuel at : ℕ) (all data' : List ℕ) (input : List Arrival) (limit : ℕ)
    → data' ++ contents input ≡ all
    → blank_line all ≡ some at
    → at + 3 ≤ max_head
    → length (contents input) < fuel
    → (bytes : List ℕ) × (rest : List Arrival) × (read_head fuel input data' limit
        ≡ ok (at + 4, bytes, rest))
      × (bytes ++ contents rest ≡ all)
      × (at + 4 ≤ length bytes)
unfolding read_head
read_head_lem zero at all data' input limit h there early l = absurd (omega arith)
read_head_lem (suc fuel) at all data' input limit h there early l =
    elim (blank_line-Seen data' (contents input) at (ap blank_line h ∙ there)) [
      | inl (found, within) ↦ (data', input, rw (found, read_head) refl, h, within)
      | inr (nowhere, short) ↦
          let waits : 1 ≤ length (contents input) =
            something_waits at all data' input h there nowhere in
          let (more, rest, read, step, some_more) = read_more-some input limit waits in
          let (bytes, after, result, whole, enough) =
            read_head_lem fuel at all (data' ++ more) rest limit
              (one_round all data' more input rest h step) there early
              (omega (arith, length-append more (contents rest), ap length step, some_more)) in
          let room = fits_head (length data') (omega (arith, short, early)) in
          (bytes, after, rw (nowhere, room, read, read_head) result, whole, enough)
    ]

-- The front of what was read, if enough was.
take_front :
    (n : ℕ) (bytes tail front back : List ℕ)
    → bytes ++ tail ≡ front ++ back
    → n ≤ length bytes
    → n ≡ length front
    → take n bytes ≡ front
take_front n bytes tail front back h l e =
    let within = take_within n bytes tail l in
    let same : take n (bytes ++ tail) ≡ take n (front ++ back) = ap (take n) h in
    let cut : take n (front ++ back) ≡ front =
      ap (λ m. take m (front ++ back)) e ∙ take-append front back in
    cc

module _ ⦃H : HttpParser⦄ where
  -- If the bytes that arrive are a head, which ends with the first blank line and is at most
  -- 8,193 bytes long, one more than MAX_HEAD, then a body and any further bytes, and
  -- `parse_head` returns the length of that body for the head, then `read_http_body` returns
  -- that body, whatever pieces the bytes arrive in.
  pub read_http_body_lem :
      (stream : Stream) (limit at : ℕ) (head body more : List ℕ)
      → contents stream.input ≡ head ++ (body ++ more)
      → blank_line (head ++ (body ++ more)) ≡ some at
      → length head ≡ at + 4
      → at + 3 ≤ max_head
      → parse_head head ≡ ok (length body)
      → (rest : List Arrival) × (read_http_body stream limit
          ≡ ok (body, record stream { input = rest }))
  unfolding read_http_body
  read_http_body_lem stream limit at head body more h there l early parses =
      let all = head ++ (body ++ more) in
      let (bytes, rest, found, whole, enough) =
        read_head_lem (suc (length (contents stream.input))) at all [] stream.input limit h there
          early (omega arith) in
      let front : take (at + 4) bytes ≡ head =
        take_front (at + 4) bytes (contents rest) head (body ++ more) whole enough (sym l) in
      let (bytes', after, filled, whole', enough') =
        read_until_lem (suc (length (contents rest))) (at + 4 + length body) all bytes rest limit
          whole (omega (arith, l, length-append head (body ++ more), length-append body more))
          (omega arith) in
      let message : take (at + 4 + length body) bytes' ≡ head ++ body =
        take_front (at + 4 + length body) bytes' (contents after) (head ++ body) more
          (whole' ∙ sym (append_assoc head body more)) enough'
          (omega (arith, l, length-append head body)) in
      let back : drop (at + 4) (take (at + 4 + length body) bytes') ≡ body =
        ap (drop (at + 4)) message
        ∙ ap (λ n. drop n (head ++ body)) (sym l)
        ∙ drop-append head body in
      (after, rw (found, front, parses, filled, back) refl)
