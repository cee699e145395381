-- ===== src/Transport/Udp.antt =====
-- udp.rs of dns-transport/src: waiting for the datagram that answers. The socket is net.rs's and
-- std's; what each wait for a datagram finds is an argument.
pub mod Answers
use dog.Prelude.{
  ℕ, ◌/◌, ◌%◌, Bool, true, false, ◌&&◌, ◌==◌, Option, none, some, List, [], ◌∷◌, if◌then◌else◌,
}
use dog.Dns.Outcome.{Outcome}
use dog.Dns.Cursor.{ByteOrder}
use dog.Dns.Message.{Request, Response, response_from_bytes}
use dog.Dns.Validate.{Mismatch, check_response}
use dog.Transport.Errors.{
  Error, IoKind, interrupted, wire_error, timeout, io_error, Result, ok, err, panic, out_of_fuel,
  ◌>>=◌,
}

-- One round of the loop: the deadline has passed when it starts, or the wait ends with a datagram or
-- an error.
pub data Wait : Type 0 where
  expired : Wait
  datagram : List ℕ → Wait
  broken_off : IoKind → Wait

-- Whether the first two bytes are those of the ID.
unfoldable pub carries_txid : List ℕ → ℕ → Bool
carries_txid (b₁ ∷ b₂ ∷ bytes) txid = b₁ == txid / 256 && b₂ == txid % 256
carries_txid bytes txid = false

abbrev pub judge_response : Option Mismatch → Response → Option Response
judge_response none response = some response
judge_response (some mismatch) response = none

-- The `match` on the result of `from_bytes`.
unfoldable pub judge : Request → List ℕ → Outcome Response → Result (Option Response)
judge request bytes (Outcome.ok response) =
    ok (judge_response (check_response request response) response)
judge request bytes (Outcome.err e) =
    if carries_txid bytes request.transaction_id then err (wire_error e) else ok none
judge request bytes Outcome.panic = panic
judge request bytes Outcome.out_of_fuel = out_of_fuel

-- What one datagram does to the wait: it ends it, or `more` goes on.
abbrev pub unless_accepted : Result (Option Response) → Result Response → Result Response
unless_accepted (ok (some response)) more = ok response
unless_accepted (ok none) more = more
unless_accepted (err e) more = err e
unless_accepted panic more = panic
unless_accepted out_of_fuel more = out_of_fuel

module _ ⦃B : ByteOrder⦄ where
  unfoldable pub accept : Request → List ℕ → Result (Option Response)
  accept request bytes = judge request bytes (response_from_bytes bytes)

  -- The loop ends with the deadline, and so with the rounds before it.
  unfoldable pub receive : Request → ℕ → List Wait → Result Response
  receive request limit [] = err (timeout limit)
  receive request limit (expired ∷ waits) = err (timeout limit)
  receive request limit (datagram bytes ∷ waits) =
      unless_accepted (accept request bytes) (receive request limit waits)
  receive request limit (broken_off interrupted ∷ waits) = receive request limit waits
  receive request limit (broken_off kind ∷ waits) = err (io_error kind limit)
