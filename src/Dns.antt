-- ===== src/Dns.antt =====
-- The library of dns/src: encoding requests, decoding responses.
pub mod Outcome
pub mod Cursor
pub mod Strings
pub mod Records
pub mod Flags
pub mod Message
pub mod Validate
pub mod Examples
