-- ===== src/Transport/H2.antt =====
-- h2.rs of dns-transport/src: as much of HTTP/2 as one request takes.
pub mod Integers
pub mod Frames
pub mod Huffman
pub mod Status
pub mod Incoming
pub mod Sending
