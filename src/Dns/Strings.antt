-- ===== src/Dns/Strings.antt =====
-- dns/src/strings.rs: domain names as labels.
pub mod Defs
pub mod Decodes
pub mod Read
pub mod Write
pub mod Compare
pub mod Display
pub mod Encode
