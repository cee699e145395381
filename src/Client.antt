-- ===== src/Client.antt =====
-- The program's own choices in src: which nameservers to ask, and which requests to send to them.
pub mod Resolve
pub mod Generate
pub mod Options
pub mod Examples
