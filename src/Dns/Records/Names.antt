-- ===== src/Dns/Records/Names.antt =====
-- The record types whose length is found by reading names: cname.rs, ns.rs, ptr.rs, mx.rs, srv.rs
-- and soa.rs of dns/src/record.
pub mod Bounds
use dog.Prelude.{ℕ, ◌+◌, ◌*◌}
use dog.Dns.Outcome.{Reader, ◌>>=◌, check_length, add_u16}
use dog.Dns.Cursor.{ByteOrder, read_u16, read_u32}
use dog.Dns.Strings.Defs.{Labels}
use dog.Dns.Strings.Read.{read_labels}

pub record Cname : Type 0 where
  pub domain : Labels

pub record Ns : Type 0 where
  pub nameserver : Labels

pub record Ptr : Type 0 where
  pub cname : Labels

pub record Mx : Type 0 where
  pub preference : ℕ
  pub exchange : Labels

pub record Srv : Type 0 where
  pub priority : ℕ
  pub weight : ℕ
  pub port : ℕ
  pub target : Labels

pub record Soa : Type 0 where
  pub mname : Labels
  pub rname : Labels
  pub serial : ℕ
  pub refresh_interval : ℕ
  pub retry_interval : ℕ
  pub expire_limit : ℕ
  pub minimum_ttl : ℕ

unfoldable pub read_cname : ℕ → Reader Cname
read_cname stated_length = do
  (domain, domain_length) ← read_labels
  check_length stated_length domain_length (record { domain = domain })

unfoldable pub read_ns : ℕ → Reader Ns
read_ns stated_length = do
  (nameserver, nameserver_length) ← read_labels
  check_length stated_length nameserver_length (record { nameserver = nameserver })

unfoldable pub read_ptr : ℕ → Reader Ptr
read_ptr stated_length = do
  (cname, cname_length) ← read_labels
  check_length stated_length cname_length (record { cname = cname })

module _ ⦃B : ByteOrder⦄ where
  unfoldable pub read_mx : ℕ → Reader Mx
  read_mx stated_length = do
    preference ← read_u16
    (exchange, exchange_length) ← read_labels
    length_after_labels ← add_u16 2 exchange_length
    check_length stated_length length_after_labels
        (record { preference = preference; exchange = exchange })

  unfoldable pub read_srv : ℕ → Reader Srv
  read_srv stated_length = do
    priority ← read_u16
    weight ← read_u16
    port ← read_u16
    (target, target_length) ← read_labels
    length_after_labels ← add_u16 (3 * 2) target_length
    check_length stated_length length_after_labels
        (record { priority = priority; weight = weight; port = port; target = target })

  unfoldable pub read_soa : ℕ → Reader Soa
  read_soa stated_length = do
    (mname, mname_length) ← read_labels
    (rname, rname_length) ← read_labels
    serial ← read_u32
    refresh_interval ← read_u32
    retry_interval ← read_u32
    expire_limit ← read_u32
    minimum_ttl ← read_u32
    names_length ← add_u16 (4 * 5) mname_length
    length_after_labels ← add_u16 names_length rname_length
    check_length stated_length length_after_labels (record {
      mname = mname;
      rname = rname;
      serial = serial;
      refresh_interval = refresh_interval;
      retry_interval = retry_interval;
      expire_limit = expire_limit;
      minimum_ttl = minimum_ttl;
    })
