-- ===== src/Transport.antt =====
-- The library of dns-transport/src: sending requests to nameservers.
pub mod Errors
pub mod Ends
pub mod Stream
pub mod Tcp
pub mod Failover
pub mod Udp
pub mod Address
pub mod Https
pub mod H2
pub mod Examples
