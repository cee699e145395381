-- ===== src/Dns/Records/Parse.antt =====
-- `Record` of dns/src/record/mod.rs, and `Record::from_bytes` of dns/src/wire.rs.
pub mod Bounds
use dog.Prelude.{ℕ, List}
use dog.Dns.Outcome.{Reader, ◌>>=◌, pure}
use dog.Dns.Cursor.{ByteOrder, read_exact}
use dog.Dns.Records.Names.{
  Cname, Ns, Ptr, Mx, Srv, Soa, read_cname, read_ns, read_ptr, read_mx, read_srv, read_soa,
}
use dog.Dns.Records.Fixed.{A, Aaaa, Eui48, Eui64, read_a, read_aaaa, read_eui48, read_eui64}
use dog.Dns.Records.Text.{
  Hinfo, Caa, Uri, Naptr, Txt, read_hinfo, read_caa, read_uri, read_naptr, read_txt,
}
use dog.Dns.Records.Keys.{
  Ds, Dnskey, Sshfp, Tlsa, Openpgpkey, Rrsig, read_ds, read_dnskey, read_sshfp, read_tlsa,
  read_openpgpkey, read_rrsig,
}
use dog.Dns.Records.Nsec.{Nsec, read_nsec}
use dog.Dns.Records.Loc.{Loc, read_loc}
use dog.Dns.Records.Types.{RecordType, UnknownQtype}

pub data Record : Type 0 where
  a : A → Record
  aaaa : Aaaa → Record
  caa : Caa → Record
  cname : Cname → Record
  dnskey : Dnskey → Record
  ds : Ds → Record
  eui48 : Eui48 → Record
  eui64 : Eui64 → Record
  hinfo : Hinfo → Record
  loc : Loc → Record
  mx : Mx → Record
  naptr : Naptr → Record
  ns : Ns → Record
  nsec : Nsec → Record
  openpgpkey : Openpgpkey → Record
  ptr : Ptr → Record
  rrsig : Rrsig → Record
  sshfp : Sshfp → Record
  soa : Soa → Record
  srv : Srv → Record
  tlsa : Tlsa → Record
  txt : Txt → Record
  uri : Uri → Record
  other : UnknownQtype → List ℕ → Record

-- `Record::from_bytes`; in the last line `read_bytes` is `read_exact` into a new vector.
module _ ⦃B : ByteOrder⦄ where
  unfoldable pub record_from_bytes : RecordType → ℕ → Reader Record
  record_from_bytes RecordType.a len = do value ← read_a len; pure (Record.a value)
  record_from_bytes RecordType.aaaa len = do value ← read_aaaa len; pure (Record.aaaa value)
  record_from_bytes RecordType.caa len = do value ← read_caa len; pure (Record.caa value)
  record_from_bytes RecordType.cname len = do value ← read_cname len; pure (Record.cname value)
  record_from_bytes RecordType.dnskey len = do value ← read_dnskey len; pure (Record.dnskey value)
  record_from_bytes RecordType.ds len = do value ← read_ds len; pure (Record.ds value)
  record_from_bytes RecordType.eui48 len = do value ← read_eui48 len; pure (Record.eui48 value)
  record_from_bytes RecordType.eui64 len = do value ← read_eui64 len; pure (Record.eui64 value)
  record_from_bytes RecordType.hinfo len = do value ← read_hinfo len; pure (Record.hinfo value)
  record_from_bytes RecordType.loc len = do value ← read_loc len; pure (Record.loc value)
  record_from_bytes RecordType.mx len = do value ← read_mx len; pure (Record.mx value)
  record_from_bytes RecordType.naptr len = do value ← read_naptr len; pure (Record.naptr value)
  record_from_bytes RecordType.ns len = do value ← read_ns len; pure (Record.ns value)
  record_from_bytes RecordType.nsec len = do value ← read_nsec len; pure (Record.nsec value)
  record_from_bytes RecordType.openpgpkey len = do
    value ← read_openpgpkey len
    pure (Record.openpgpkey value)
  record_from_bytes RecordType.ptr len = do value ← read_ptr len; pure (Record.ptr value)
  record_from_bytes RecordType.rrsig len = do value ← read_rrsig len; pure (Record.rrsig value)
  record_from_bytes RecordType.sshfp len = do value ← read_sshfp len; pure (Record.sshfp value)
  record_from_bytes RecordType.soa len = do value ← read_soa len; pure (Record.soa value)
  record_from_bytes RecordType.srv len = do value ← read_srv len; pure (Record.srv value)
  record_from_bytes RecordType.tlsa len = do value ← read_tlsa len; pure (Record.tlsa value)
  record_from_bytes RecordType.txt len = do value ← read_txt len; pure (Record.txt value)
  record_from_bytes RecordType.uri len = do value ← read_uri len; pure (Record.uri value)
  record_from_bytes (RecordType.other type_number) len = do
    bytes ← read_exact len
    pure (Record.other type_number bytes)
