-- ===== src/Dns/Records.antt =====
-- dns/src/record: the record types, how each is read, and the registry of their names.
pub mod Names
pub mod Fixed
pub mod Text
pub mod Keys
pub mod Nsec
pub mod Loc
pub mod Opt
pub mod Registry
pub mod Types
pub mod Parse
