-- ===== src/Transport/Examples.antt =====
-- The theorems of the transports at concrete inputs.
pub mod Streams
pub mod Http
pub mod Http2
