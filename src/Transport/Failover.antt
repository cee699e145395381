-- ===== src/Transport/Failover.antt =====
-- failover.rs and auto.rs of dns-transport/src: transports made of others. A transport is what its
-- `send` does: a result, and what the world is afterwards.
pub mod First
use dog.Prelude.{List, [], ◌∷◌, if◌then◌else◌}
use dog.Dns.Message.{Request, Response}
use dog.Transport.Errors.{Error, no_nameservers, Result, ok, err, panic, out_of_fuel}

module _ {ℓ} (World : Type ℓ) where
  abbrev pub Transport : Type ℓ
  Transport = Request → World → Result Response × World

module _ {ℓ} {World : Type ℓ} where
  -- A `match` on a result: an error goes on, and a panic does not.
  abbrev pub or_else :
      Result Response × World → (Error → World → Result Response × World) → Result Response × World
  or_else (ok response, world) next = (ok response, world)
  or_else (err e, world) next = next e world
  or_else (panic, world) next = (panic, world)
  or_else (out_of_fuel, world) next = (out_of_fuel, world)

  -- The loop of `FailoverTransport::send`, with the last error.
  unfoldable pub try_all : Error → List (Transport World) → Transport World
  try_all last_error [] request world = (err last_error, world)
  try_all last_error (transport ∷ rest) request world =
      or_else (transport request world) (λ e world'. try_all e rest request world')

  unfoldable pub failover_send : List (Transport World) → Transport World
  failover_send transports request world = try_all no_nameservers transports request world

  abbrev pub and_then :
      Result Response × World
      → (Response → World → Result Response × World)
      → Result Response × World
  and_then (ok response, world) next = next response world
  and_then (err e, world) next = (err e, world)
  and_then (panic, world) next = (panic, world)
  and_then (out_of_fuel, world) next = (out_of_fuel, world)

  -- `AutoTransport::send`, over UDP and then over TCP.
  unfoldable pub auto_send : Transport World → Transport World → Transport World
  auto_send udp_transport tcp_transport request world =
      and_then (udp_transport request world) λ udp_response world'.
        if udp_response.flags.truncated
        then tcp_transport request world'
        else (ok udp_response, world')
