-- ===== src/Dns/Outcome.antt =====
-- What decoding can come to: the `Result<_, WireError>` of dns/src/wire.rs, the panic of an
-- arithmetic overflow, and, of no counterpart in the program, a model that ran out of fuel.
mod Rules
pub use Rules.*
mod Defs
pub use Defs.*
