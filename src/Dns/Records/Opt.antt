-- ===== src/Dns/Records/Opt.antt =====
-- opt.rs of dns/src/record: the OPT pseudo-record, read and written.
pub mod Bounds
pub mod RoundTrip
use dog.Prelude.{ℕ, Option, none, some, List, [], ◌∷◌, ◌++◌, leb, if◌then◌else◌, length}
use dog.Dns.Outcome.{Reader, ◌>>=◌, pure, u16_max}
use dog.Dns.Cursor.{ByteOrder, read_u8, read_exact, read_u16}

pub record Opt : Type 0 where
  pub udp_payload_size : ℕ
  pub higher_bits : ℕ
  pub edns0_version : ℕ
  pub flags : ℕ
  pub payload : List ℕ

-- `OPT::RR_TYPE`
abbrev pub opt_type : ℕ
opt_type = 41

module _ ⦃B : ByteOrder⦄ where
  unfoldable pub read_opt : Reader Opt
  read_opt = do
    udp_payload_size ← read_u16
    higher_bits ← read_u8
    edns0_version ← read_u8
    flags ← read_u16
    data_length ← read_u16
    payload ← read_exact data_length
    pure (record {
      udp_payload_size = udp_payload_size;
      higher_bits = higher_bits;
      edns0_version = edns0_version;
      flags = flags;
      payload = payload;
    })

  -- `OPT::to_bytes`; `none` is the error of the kind `InvalidInput`: the data is too long for its
  -- length field. The bytes of the data are written one by one.
  unfoldable pub opt_to_bytes : Opt → Option (List ℕ)
  opt_to_bytes opt =
      let bytes =
        B.encode_u16 opt.udp_payload_size
        ++ (opt.higher_bits ∷ opt.edns0_version ∷ B.encode_u16 opt.flags) in
      if leb (length opt.payload) u16_max
      then some (bytes ++ (B.encode_u16 (length opt.payload) ++ opt.payload))
      else none
