-- ===== src/Dns/Records/Parse/Bounds.antt =====
-- `Record::from_bytes` ends without a panic, in an error or with the stated length taken.
use dog.Prelude.{ℕ, ◌+◌, ◌-◌, ◌≤◌, List, length}
use dog.Dns.Outcome.{Ensures, holds, Ensures-bind, u16_max}
use dog.Dns.Cursor.{ByteOrder, IsMessage}
use dog.Dns.Cursor.Bounds.{read_exact-Moves}
use dog.Dns.Records.Types.{RecordType}
use dog.Dns.Records.Parse.{Record, record_from_bytes}
use dog.Dns.Records.Names.Bounds.{
  read_cname-Ensures, read_ns-Ensures, read_ptr-Ensures, read_mx-Ensures, read_srv-Ensures,
  read_soa-Ensures,
}
use dog.Dns.Records.Fixed.Bounds.{
  read_a-Ensures, read_aaaa-Ensures, read_eui48-Ensures, read_eui64-Ensures,
}
use dog.Dns.Records.Text.Bounds.{
  read_hinfo-Ensures, read_caa-Ensures, read_uri-Ensures, read_naptr-Ensures, read_txt-Ensures,
}
use dog.Dns.Records.Keys.Bounds.{
  read_ds-Ensures, read_dnskey-Ensures, read_sshfp-Ensures, read_tlsa-Ensures,
  read_openpgpkey-Ensures, read_rrsig-Ensures,
}
use dog.Dns.Records.Nsec.Bounds.{read_nsec-Ensures}
use dog.Dns.Records.Loc.Bounds.{read_loc-Ensures}
use dog.Dns.Records.Names.Bounds.{Consumes}

-- The number of bytes that a record read with a stated length takes: that length, but a CAA record
-- takes two bytes and its tag even if that is more.
abbrev pub taken : ℕ → Record → ℕ
taken len (Record.caa r) = length r.tag + 2 + (len - length r.tag - 2)
taken len (Record.a r) = len
taken len (Record.aaaa r) = len
taken len (Record.cname r) = len
taken len (Record.dnskey r) = len
taken len (Record.ds r) = len
taken len (Record.eui48 r) = len
taken len (Record.eui64 r) = len
taken len (Record.hinfo r) = len
taken len (Record.loc r) = len
taken len (Record.mx r) = len
taken len (Record.naptr r) = len
taken len (Record.ns r) = len
taken len (Record.nsec r) = len
taken len (Record.openpgpkey r) = len
taken len (Record.ptr r) = len
taken len (Record.rrsig r) = len
taken len (Record.sshfp r) = len
taken len (Record.soa r) = len
taken len (Record.srv r) = len
taken len (Record.tlsa r) = len
taken len (Record.txt r) = len
taken len (Record.uri r) = len
taken len (Record.other unknown bytes) = len

module _ ⦃B : ByteOrder⦄ (buf : List ℕ) (message : IsMessage buf)
    (short : length buf + 255 ≤ u16_max) (pos : ℕ) (inside : pos ≤ length buf) (len : ℕ) where
  -- At a position inside a message of at most 65,280 bytes, `Record::from_bytes` neither panics
  -- nor runs out of fuel, for any record type and stated length. If it returns a record, the
  -- cursor is inside the message and has moved by the stated length, or, for a CAA record with
  -- a longer tag, by two bytes and the tag.
  pub record_from_bytes-Ensures :
      (record_type : RecordType)
      → Ensures
          (λ r p. Consumes buf pos (taken len r) p)
          (record_from_bytes record_type len buf pos)
  unfolding record_from_bytes
  record_from_bytes-Ensures RecordType.a =
      Ensures-bind (read_a-Ensures buf message pos inside len) λ r p h. holds h.0
  record_from_bytes-Ensures RecordType.aaaa =
      Ensures-bind (read_aaaa-Ensures buf message pos inside len) λ r p h. holds h.0
  record_from_bytes-Ensures RecordType.caa =
      Ensures-bind (read_caa-Ensures buf message pos len) λ r p h. holds h
  record_from_bytes-Ensures RecordType.cname =
      Ensures-bind (read_cname-Ensures buf message pos len) λ r p h. holds h.0
  record_from_bytes-Ensures RecordType.dnskey =
      Ensures-bind (read_dnskey-Ensures buf message pos inside len) λ r p h. holds h.0
  record_from_bytes-Ensures RecordType.ds =
      Ensures-bind (read_ds-Ensures buf message pos inside len) λ r p h. holds h.0
  record_from_bytes-Ensures RecordType.eui48 =
      Ensures-bind (read_eui48-Ensures buf message pos inside len) λ r p h. holds h.0
  record_from_bytes-Ensures RecordType.eui64 =
      Ensures-bind (read_eui64-Ensures buf message pos inside len) λ r p h. holds h.0
  record_from_bytes-Ensures RecordType.hinfo =
      Ensures-bind (read_hinfo-Ensures buf message pos len) λ r p h. holds h.0
  record_from_bytes-Ensures RecordType.loc =
      Ensures-bind (read_loc-Ensures buf message pos len) λ r p h. holds h
  record_from_bytes-Ensures RecordType.mx =
      Ensures-bind (read_mx-Ensures buf message pos inside len) λ r p h. holds h.0
  record_from_bytes-Ensures RecordType.naptr =
      Ensures-bind (read_naptr-Ensures buf message pos inside len) λ r p h. holds h.0
  record_from_bytes-Ensures RecordType.ns =
      Ensures-bind (read_ns-Ensures buf message pos len) λ r p h. holds h.0
  record_from_bytes-Ensures RecordType.nsec =
      Ensures-bind (read_nsec-Ensures buf message pos len) λ r p h. holds h.0
  record_from_bytes-Ensures RecordType.openpgpkey =
      Ensures-bind (read_openpgpkey-Ensures buf message pos len inside) λ r p h. holds h.0
  record_from_bytes-Ensures RecordType.ptr =
      Ensures-bind (read_ptr-Ensures buf message pos len) λ r p h. holds h.0
  record_from_bytes-Ensures RecordType.rrsig =
      Ensures-bind (read_rrsig-Ensures buf message pos inside len) λ r p h. holds h.0
  record_from_bytes-Ensures RecordType.sshfp =
      Ensures-bind (read_sshfp-Ensures buf message pos len) λ r p h. holds h.0
  record_from_bytes-Ensures RecordType.soa =
      Ensures-bind (read_soa-Ensures buf message pos inside len) λ r p h. holds h.0
  record_from_bytes-Ensures RecordType.srv =
      Ensures-bind (read_srv-Ensures buf message pos inside len) λ r p h. holds h.0
  record_from_bytes-Ensures RecordType.tlsa =
      Ensures-bind (read_tlsa-Ensures buf message pos len) λ r p h. holds h.0
  record_from_bytes-Ensures RecordType.txt =
      Ensures-bind (read_txt-Ensures buf message short len pos inside) λ r p h. holds h
  record_from_bytes-Ensures RecordType.uri =
      Ensures-bind (read_uri-Ensures buf message pos inside len) λ r p h. holds h.0
  record_from_bytes-Ensures (RecordType.other unknown) =
      Ensures-bind (read_exact-Moves buf message.bytes pos len inside) λ r p h. holds (h.1, h.2)
