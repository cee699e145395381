-- ===== src/Dns/Records/Keys.antt =====
-- The record types that hold keys and digests, their length being what the stated length leaves:
-- ds.rs, dnskey.rs, sshfp.rs, tlsa.rs, openpgpkey.rs and rrsig.rs of dns/src/record.
pub mod Bounds
use dog.Prelude.{ℕ, List, ◌==◌, leb, ltb, if◌then◌else◌}
use dog.Dns.Outcome.{Reader, ◌>>=◌, pure, raise, wrong_record_length, wrong_label_length, at_least}
use dog.Dns.Outcome.{sub_u16, saturating_add, checked_sub}
use dog.Dns.Cursor.{ByteOrder, read_u8, read_exact, read_u16, read_u32}
use dog.Dns.Strings.Defs.{Labels}
use dog.Dns.Strings.Read.{read_labels}

pub record Ds : Type 0 where
  pub key_tag : ℕ
  pub algorithm : ℕ
  pub digest_type : ℕ
  pub digest : List ℕ

pub record Dnskey : Type 0 where
  pub flags : ℕ
  pub protocol : ℕ
  pub algorithm : ℕ
  pub public_key : List ℕ

pub record Sshfp : Type 0 where
  pub algorithm : ℕ
  pub fingerprint_type : ℕ
  pub fingerprint : List ℕ

pub record Tlsa : Type 0 where
  pub certificate_usage : ℕ
  pub selector : ℕ
  pub matching_type : ℕ
  pub certificate_data : List ℕ

pub record Openpgpkey : Type 0 where
  pub key : List ℕ

-- The fields of an RRSIG that stand before the signer's name.
pub record FixedFields : Type 0 where
  pub type_covered : ℕ
  pub algorithm : ℕ
  pub labels : ℕ
  pub original_ttl : ℕ
  pub signature_expiration : ℕ
  pub signature_inception : ℕ
  pub key_tag : ℕ

pub record Rrsig : Type 0 where
  pub type_covered : ℕ
  pub algorithm : ℕ
  pub labels : ℕ
  pub original_ttl : ℕ
  pub signature_expiration : ℕ
  pub signature_inception : ℕ
  pub key_tag : ℕ
  pub signer_name : Labels
  pub signature : List ℕ

unfoldable pub read_sshfp : ℕ → Reader Sshfp
read_sshfp stated_length = do
  algorithm ← read_u8
  fingerprint_type ← read_u8
  if leb stated_length 2 then raise (wrong_record_length stated_length (at_least 3)) else do
    without_algorithm ← sub_u16 stated_length 1
    fingerprint_length ← sub_u16 without_algorithm 1
    fingerprint ← read_exact fingerprint_length
    pure (record {
      algorithm = algorithm;
      fingerprint_type = fingerprint_type;
      fingerprint = fingerprint;
    })

unfoldable pub read_tlsa : ℕ → Reader Tlsa
read_tlsa stated_length = do
  certificate_usage ← read_u8
  selector ← read_u8
  matching_type ← read_u8
  if leb stated_length 3 then raise (wrong_record_length stated_length (at_least 4)) else do
    without_usage ← sub_u16 stated_length 1
    without_selector ← sub_u16 without_usage 1
    certificate_data_length ← sub_u16 without_selector 1
    certificate_data ← read_exact certificate_data_length
    pure (record {
      certificate_usage = certificate_usage;
      selector = selector;
      matching_type = matching_type;
      certificate_data = certificate_data;
    })

unfoldable pub read_openpgpkey : ℕ → Reader Openpgpkey
read_openpgpkey stated_length =
    if stated_length == 0
    then raise (wrong_record_length stated_length (at_least 1))
    else do key ← read_exact stated_length; pure (record { key = key })

module _ ⦃B : ByteOrder⦄ where
  unfoldable pub read_ds : ℕ → Reader Ds
  read_ds stated_length =
      if ltb stated_length 5 then raise (wrong_record_length stated_length (at_least 5)) else do
        key_tag ← read_u16
        algorithm ← read_u8
        digest_type ← read_u8
        digest_length ← sub_u16 stated_length 4
        digest ← read_exact digest_length
        pure (record {
          key_tag = key_tag;
          algorithm = algorithm;
          digest_type = digest_type;
          digest = digest;
        })

  unfoldable pub read_dnskey : ℕ → Reader Dnskey
  read_dnskey stated_length =
      if ltb stated_length 4 then raise (wrong_record_length stated_length (at_least 4)) else do
        flags ← read_u16
        protocol ← read_u8
        algorithm ← read_u8
        key_length ← sub_u16 stated_length 4
        public_key ← read_exact key_length
        pure (record {
          flags = flags;
          protocol = protocol;
          algorithm = algorithm;
          public_key = public_key;
        })

  unfoldable pub read_fixed_fields : Reader FixedFields
  read_fixed_fields = do
    type_covered ← read_u16
    algorithm ← read_u8
    labels ← read_u8
    original_ttl ← read_u32
    signature_expiration ← read_u32
    signature_inception ← read_u32
    key_tag ← read_u16
    pure (record {
      type_covered = type_covered;
      algorithm = algorithm;
      labels = labels;
      original_ttl = original_ttl;
      signature_expiration = signature_expiration;
      signature_inception = signature_inception;
      key_tag = key_tag;
    })

  unfoldable pub read_rrsig : ℕ → Reader Rrsig
  read_rrsig stated_length =
      if ltb stated_length 19 then raise (wrong_record_length stated_length (at_least 19)) else do
        fixed ← read_fixed_fields
        (signer_name, signer_name_length) ← read_labels
        let length_after_labels = saturating_add signer_name_length 18
        signature_length ←
            checked_sub stated_length length_after_labels
              (wrong_label_length stated_length length_after_labels)
        signature ← read_exact signature_length
        pure (record {
          type_covered = fixed.type_covered;
          algorithm = fixed.algorithm;
          labels = fixed.labels;
          original_ttl = fixed.original_ttl;
          signature_expiration = fixed.signature_expiration;
          signature_inception = fixed.signature_inception;
          key_tag = fixed.key_tag;
          signer_name = signer_name;
          signature = signature;
        })
