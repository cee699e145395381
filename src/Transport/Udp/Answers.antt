-- ===== src/Transport/Udp/Answers.antt =====
-- Which datagram ends the wait for an answer.
use dog.Prelude.{
  ℕ, ◌≡◌, ◌↔◌, ◌≢◌, Bool, if◌then◌else◌, refl, sym, ap, ◌∙◌, Option, none, some, true, false, List,
  [], ◌∷◌, ◌++◌, All,
}
use dog.Dns.Outcome.{Outcome}
use dog.Dns.Cursor.{ByteOrder}
use dog.Dns.Message.{Request, Response, response_from_bytes}
use dog.Dns.Validate.{Mismatch, check_response}
use dog.Dns.Validate.Accepts.{Answers, check_response_iff}
use dog.Transport.Errors.{
  Error, would_block, timed_out, interrupted, unexpected_eof, invalid_input, other_kind, wire_error,
  Result, ok, err, panic, out_of_fuel,
}
use dog.Transport.Udp.{
  Wait, expired, datagram, broken_off, carries_txid, judge, judge_response, unless_accepted, accept,
  receive,
}

-- A message that is the answer to the request.
abbrev pub IsAnswer : Request → Response → Type 0
IsAnswer request response =
    (response.transaction_id ≡ request.transaction_id)
    × (response.flags.response ≡ true)
    × Answers request.query response.flags.error_code response.queries

judge_response-some :
    (mismatch : Option Mismatch) (x response : Response)
    → judge_response mismatch x ≡ some response
    → (x ≡ response) × (mismatch ≡ none)
judge_response-some none x response h = (cc h, refl)
judge_response-some (some m) x response h = cc h

unreadable :
    (ours : Bool) (e : Error) (response : Response)
    → (if ours then err e else ok none) ≢ ok (some response)
unreadable true e response h = cc h
unreadable false e response h = cc h

judge-some :
    (request : Request) (bytes : List ℕ) (outcome : Outcome Response) (response : Response)
    → judge request bytes outcome ≡ ok (some response)
    → (outcome ≡ Outcome.ok response) × (check_response request response ≡ none)
unfolding judge
judge-some request bytes (Outcome.ok x) response h =
    let (same, fits) = judge_response-some (check_response request x) x response (cc h) in
    (ap Outcome.ok same, ap (check_response request) (sym same) ∙ fits)
judge-some request bytes (Outcome.err e) response h =
    absurd (unreadable (carries_txid bytes request.transaction_id) (wire_error e) response h)
judge-some request bytes Outcome.panic response h = cc h
judge-some request bytes Outcome.out_of_fuel response h = cc h

module _ ⦃B : ByteOrder⦄ (request : Request) where
  accept_iff :
      (bytes : List ℕ) (response : Response)
      → (accept request bytes ≡ ok (some response))
        ↔ ((response_from_bytes bytes ≡ Outcome.ok response) × IsAnswer request response)
  unfolding accept judge
  accept_iff bytes response =
      let checked = check_response_iff request response in
      (
        λ h.
            let (read, fits) = judge-some request bytes (response_from_bytes bytes) response h in
            (read, checked.0 fits),
        λ (read, fits). rw (read, checked.1 fits) refl,
      )

  -- A wait that ends in a datagram which is not the answer, or in an interruption.
  abbrev pub IsSkipped : Wait → Type 0
  IsSkipped expired = ⊥
  IsSkipped (datagram bytes) = accept request bytes ≡ ok none
  IsSkipped (broken_off kind) = kind ≡ interrupted

  -- The answer comes behind waits that were skipped.
  abbrev pub AnsweredBy : List Wait → Response → Type 0
  AnsweredBy waits response =
      (before after : List Wait) × (bytes : List ℕ) × (waits ≡ before ++ datagram bytes ∷ after)
      × All IsSkipped before
      × (response_from_bytes bytes ≡ Outcome.ok response)
      × IsAnswer request response

  behind_skipped :
      (wait : Wait) (waits : List Wait) (response : Response)
      → IsSkipped wait
      → AnsweredBy waits response
      → AnsweredBy (wait ∷ waits) response
  behind_skipped wait waits response skipped (before, after, bytes, shape, others, read, answer) =
      (wait ∷ before, after, bytes, ap (λ ws. wait ∷ ws) shape, (skipped, others), read, answer)

  judged :
      (limit : ℕ) (bytes : List ℕ) (waits : List Wait) (response : Response)
      (result : Result (Option Response))
      → accept request bytes ≡ result
      → unless_accepted result (receive request limit waits) ≡ ok response
      → (receive request limit waits ≡ ok response → AnsweredBy waits response)
      → AnsweredBy (datagram bytes ∷ waits) response
  judged limit bytes waits response (ok (some x)) a h later =
      let (read, answer) = (accept_iff bytes response).0 (a ∙ cc h) in
      ([], waits, bytes, refl, tt, read, answer)
  judged limit bytes waits response (ok none) a h later =
      behind_skipped (datagram bytes) waits response a (later h)
  judged limit bytes waits response (err e) a h later = cc h
  judged limit bytes waits response panic a h later = cc h
  judged limit bytes waits response out_of_fuel a h later = cc h

  receive_sound :
      (limit : ℕ) (waits : List Wait) (response : Response)
      → receive request limit waits ≡ ok response
      → AnsweredBy waits response
  unfolding receive
  receive_sound limit [] response h = cc h
  receive_sound limit (expired ∷ waits) response h = cc h
  receive_sound limit (datagram bytes ∷ waits) response h =
      judged limit bytes waits response (accept request bytes) refl h
        (receive_sound limit waits response)
  receive_sound limit (broken_off interrupted ∷ waits) response h =
      behind_skipped (broken_off interrupted) waits response refl
        (receive_sound limit waits response h)
  receive_sound limit (broken_off would_block ∷ waits) response h = cc h
  receive_sound limit (broken_off timed_out ∷ waits) response h = cc h
  receive_sound limit (broken_off unexpected_eof ∷ waits) response h = cc h
  receive_sound limit (broken_off invalid_input ∷ waits) response h = cc h
  receive_sound limit (broken_off (other_kind k) ∷ waits) response h = cc h

  receive_skips :
      (limit : ℕ) (before rest : List Wait)
      → All IsSkipped before
      → receive request limit (before ++ rest) ≡ receive request limit rest
  unfolding receive
  receive_skips limit [] rest h = refl
  receive_skips limit (expired ∷ before) rest h = absurd h.0
  receive_skips limit (datagram bytes ∷ before) rest (skipped, h) =
      rw skipped (receive_skips limit before rest h)
  receive_skips limit (broken_off kind ∷ before) rest (skipped, h) =
      rw skipped (receive_skips limit before rest h)

  -- The wait for a UDP response returns a response exactly when it comes in a datagram which
  -- `Response::from_bytes` reads as that response and which answers the request: the ID is that
  -- of the request, it is marked as a response, and its questions are answers to the question.
  -- Everything ahead of it is either an interruption or a datagram that `accept` passes over,
  -- and the deadline has not passed.
  pub receive_iff :
      (limit : ℕ) (waits : List Wait) (response : Response)
      → (receive request limit waits ≡ ok response) ↔ AnsweredBy waits response
  unfolding receive
  receive_iff limit waits response = (
    receive_sound limit waits response,
    λ (before, after, bytes, shape, skipped, read, answer).
        ap (receive request limit) shape
        ∙ receive_skips limit before (datagram bytes ∷ after) skipped
        ∙ ap (λ r. unless_accepted r (receive request limit after))
            ((accept_iff bytes response).1 (read, answer)),
  )
