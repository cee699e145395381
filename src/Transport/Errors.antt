-- ===== src/Transport/Errors.antt =====
-- error.rs of dns-transport/src, and `io_error` of net.rs. An error is the reason that its text
-- states, with the numbers in it.
use dog.Prelude.{ℕ, Option, List, String}
use dog.Dns.Outcome.{WireError, Outcome}
use dog.Dns.Validate.{Mismatch}

-- The kinds of `std::io::Error` that the code tells apart; `other_kind` is any other.
pub data IoKind : Type 0 where
  would_block timed_out interrupted unexpected_eof invalid_input : IoKind
  other_kind : ℕ → IoKind

pub data StopReason : Type 0 where
  unexplained : StopReason
  named : String → StopReason
  numbered : ℕ → StopReason

-- The reasons of `MalformedHttp`.
pub data MalformedHttp : Type 0 where
  request_frame_too_long server_frame_too_long : ℕ → MalformedHttp
  closed_connection cancelled_request : StopReason → MalformedHttp
  pushed_response body_before_headers body_too_long frame_too_short : MalformedHttp
  no_status : MalformedHttp
  not_the_status : ℕ → MalformedHttp
  number_too_long headers_cut_short not_huffman_digits : MalformedHttp
  not_three_digits : List ℕ → MalformedHttp
  long_head incomplete_head no_content_length : MalformedHttp
  transfer_encoding not_a_length : List ℕ → MalformedHttp
  long_length : ℕ → MalformedHttp

-- Why `parse_host_port` or `parse_https_url` of address.rs cannot use an address.
pub data AddressReason : Type 0 where
  is_url unclosed_bracket not_a_port_follows no_host not_a_host not_a_port : AddressReason
  not_graphic not_https no_path has_user bad_authority : AddressReason

-- A `TlsError`, a `TlsHandshakeError` and an `HttpError` are values of other packages; they are
-- numbered. The number of a timeout is a `Duration`, in nanoseconds. An `InvalidNameserver` holds the address
-- that cannot be used and the reason, or says that there are no nameservers.
pub data Error : Type 0 where
  wire_error : WireError → Error
  network_error : IoKind → Error
  truncated_response : Error
  timeout : ℕ → Error
  mismatched_response : Mismatch → Error
  no_nameservers : Error
  invalid_nameserver : List ℕ → AddressReason → Error
  tls_error tls_handshake_error : ℕ → Error
  http_error : ℕ → Error
  wrong_http_status : ℕ → Option (List ℕ) → Error
  malformed_http : MalformedHttp → Error

-- `net::io_error`
abbrev pub io_error : IoKind → ℕ → Error
io_error IoKind.would_block limit = timeout limit
io_error IoKind.timed_out limit = timeout limit
io_error kind limit = network_error kind

-- A result, or one of the ways in which a parse fails to give one.
pub data Result {ℓ} (A : Type ℓ) : Type ℓ where
  ok : A → Result A
  err : Error → Result A
  panic : Result A
  out_of_fuel : Result A

module _ {ℓ κ} {A : Type ℓ} {B : Type κ} where
  infixl 5 ◌>>=◌
  abbrev pub ◌>>=◌ : Result A → (A → Result B) → Result B
  ok x >>= f = f x
  err e >>= f = err e
  panic >>= f = panic
  out_of_fuel >>= f = out_of_fuel

-- `?` on a `WireError`.
abbrev pub parsed {ℓ} : {A : Type ℓ} → Outcome A → Result A
parsed (Outcome.ok x) = ok x
parsed (Outcome.err e) = err (wire_error e)
parsed Outcome.panic = panic
parsed Outcome.out_of_fuel = out_of_fuel
