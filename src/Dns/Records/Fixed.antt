-- ===== src/Dns/Records/Fixed.antt =====
-- The record types of a fixed length: a.rs, aaaa.rs, eui48.rs and eui64.rs of dns/src/record.
-- An address is its octets; std's `Ipv4Addr` and `Ipv6Addr` hold just those.
pub mod Bounds
use dog.Prelude.{ℕ, List, ◌==◌, if◌then◌else◌, not}
use dog.Dns.Outcome.{Reader, ◌>>=◌, pure, raise, wrong_record_length, exactly}
use dog.Dns.Cursor.{read_exact}

pub record A : Type 0 where
  pub address : List ℕ

pub record Aaaa : Type 0 where
  pub address : List ℕ

pub record Eui48 : Type 0 where
  pub octets : List ℕ

pub record Eui64 : Type 0 where
  pub octets : List ℕ

unfoldable pub read_a : ℕ → Reader A
read_a stated_length =
    if not (stated_length == 4)
    then raise (wrong_record_length stated_length (exactly 4))
    else do buf ← read_exact 4; pure (record { address = buf })

unfoldable pub read_aaaa : ℕ → Reader Aaaa
read_aaaa stated_length =
    if not (stated_length == 16)
    then raise (wrong_record_length stated_length (exactly 16))
    else do buf ← read_exact 16; pure (record { address = buf })

unfoldable pub read_eui48 : ℕ → Reader Eui48
read_eui48 stated_length =
    if not (stated_length == 6)
    then raise (wrong_record_length stated_length (exactly 6))
    else do octets ← read_exact 6; pure (record { octets = octets })

unfoldable pub read_eui64 : ℕ → Reader Eui64
read_eui64 stated_length =
    if not (stated_length == 8)
    then raise (wrong_record_length stated_length (exactly 8))
    else do octets ← read_exact 8; pure (record { octets = octets })
