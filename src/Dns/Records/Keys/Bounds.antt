-- ===== src/Dns/Records/Keys/Bounds.antt =====
-- Each of these reads ends without a panic, in an error or with the cursor moved by exactly the
-- stated length, and the key, digest or signature has the rest of that length.
use dog.Prelude.{ℕ, ◌+◌, ◌-◌, ◌≤◌, ◌≡◌, List, length, leb, ltb, ◌==◌, arith, leb→gt, ltb→ge}
use dog.Dns.Outcome.{
  Ensures, holds, failed, Ensures-bind, Ensures-branch, Ensures-sub_u16, Ensures-checked_sub,
}
use dog.Dns.Outcome.{saturating_add, saturating_add_lem}
use dog.Dns.Cursor.{ByteOrder, IsMessage}
use dog.Dns.Cursor.Bounds.{read_u8-Moves, read_exact-Moves, read_u16-Moves, read_u32-Moves}
use dog.Dns.Records.Names.Bounds.{Consumes, NameAt, read_labels-NameAt}
use dog.Dns.Records.Keys.{
  read_ds, read_dnskey, read_sshfp, read_tlsa, read_openpgpkey, read_fixed_fields, read_rrsig,
}
use mathlib.Core.Path.{subst}

module _ (buf : List ℕ) (message : IsMessage buf) (pos stated_length : ℕ) where
  pub read_sshfp-Ensures :
      Ensures
        (λ r p. Consumes buf pos stated_length p × (stated_length ≡ length r.fingerprint + 2))
        (read_sshfp stated_length buf pos)
  unfolding read_sshfp
  read_sshfp-Ensures =
      Ensures-bind (read_u8-Moves buf message.bytes pos) λ algorithm p₁ (h₁, e₁, l₁).
        Ensures-bind (read_u8-Moves buf message.bytes p₁) λ kind p₂ (h₂, e₂, l₂).
          Ensures-branch (leb stated_length 2) _ _ (λ _. failed)
            λ more.
              let enough = leb→gt stated_length 2 more in
              Ensures-sub_u16 stated_length 1 _ (omega arith) (
                Ensures-sub_u16 (stated_length - 1) 1 _ (omega arith) (
                  Ensures-bind (read_exact-Moves buf message.bytes p₂ (stated_length - 1 - 1) l₂)
                    λ bytes p (h, e, l). holds ((omega arith, l), omega (arith, h.1))))

  pub read_tlsa-Ensures :
      Ensures
        (λ r p. Consumes buf pos stated_length p × (stated_length ≡ length r.certificate_data + 3))
        (read_tlsa stated_length buf pos)
  unfolding read_tlsa
  read_tlsa-Ensures = Ensures-bind (read_u8-Moves buf message.bytes pos) λ usage p₁ (h₁, e₁, l₁).
      Ensures-bind (read_u8-Moves buf message.bytes p₁) λ selector p₂ (h₂, e₂, l₂).
        Ensures-bind (read_u8-Moves buf message.bytes p₂) λ matching p₃ (h₃, e₃, l₃).
          Ensures-branch (leb stated_length 3) _ _ (λ _. failed)
            λ more.
              let enough = leb→gt stated_length 3 more in
              Ensures-sub_u16 stated_length 1 _ (omega arith) (
                Ensures-sub_u16 (stated_length - 1) 1 _ (omega arith) (
                  Ensures-sub_u16 (stated_length - 1 - 1) 1 _ (omega arith) (
                    Ensures-bind
                      (read_exact-Moves buf message.bytes p₃ (stated_length - 1 - 1 - 1) l₃)
                      λ bytes p (h, e, l). holds ((omega arith, l), omega (arith, h.1)))))

  module _ (inside : pos ≤ length buf) where
    pub read_openpgpkey-Ensures :
        Ensures
          (λ r p. Consumes buf pos stated_length p × (stated_length ≡ length r.key))
          (read_openpgpkey stated_length buf pos)
    unfolding read_openpgpkey
    read_openpgpkey-Ensures =
        Ensures-branch (stated_length == 0) _ _ (λ _. failed)
          λ _.
            Ensures-bind (read_exact-Moves buf message.bytes pos stated_length inside)
              λ bytes p (h, e, l). holds ((e, l), omega (arith, h.1))

module _ ⦃B : ByteOrder⦄ (buf : List ℕ) (message : IsMessage buf) (pos : ℕ)
    (inside : pos ≤ length buf) (stated_length : ℕ) where
  -- Reading a DS record from a position inside a message does not panic. If it returns one, the
  -- cursor has moved by the stated length and is inside the message, and the digest has all
  -- bytes of that length but four.
  pub read_ds-Ensures :
      Ensures
        (λ r p. Consumes buf pos stated_length p × (stated_length ≡ length r.digest + 4))
        (read_ds stated_length buf pos)
  unfolding read_ds
  read_ds-Ensures =
      Ensures-branch (ltb stated_length 5) _ _ (λ _. failed)
        λ more.
          let enough = ltb→ge stated_length 5 more in
          Ensures-bind (read_u16-Moves buf message.bytes pos inside) λ tag p₁ (h₁, e₁, l₁).
            Ensures-bind (read_u8-Moves buf message.bytes p₁) λ algorithm p₂ (h₂, e₂, l₂).
              Ensures-bind (read_u8-Moves buf message.bytes p₂) λ kind p₃ (h₃, e₃, l₃).
                Ensures-sub_u16 stated_length 4 _ (omega arith) (
                  Ensures-bind (read_exact-Moves buf message.bytes p₃ (stated_length - 4) l₃)
                    λ bytes p (h, e, l). holds ((omega arith, l), omega (arith, h.1)))

  pub read_dnskey-Ensures :
      Ensures
        (λ r p. Consumes buf pos stated_length p × (stated_length ≡ length r.public_key + 4))
        (read_dnskey stated_length buf pos)
  unfolding read_dnskey
  read_dnskey-Ensures =
      Ensures-branch (ltb stated_length 4) _ _ (λ _. failed)
        λ more.
          let enough = ltb→ge stated_length 4 more in
          Ensures-bind (read_u16-Moves buf message.bytes pos inside) λ flags p₁ (h₁, e₁, l₁).
            Ensures-bind (read_u8-Moves buf message.bytes p₁) λ protocol p₂ (h₂, e₂, l₂).
              Ensures-bind (read_u8-Moves buf message.bytes p₂) λ algorithm p₃ (h₃, e₃, l₃).
                Ensures-sub_u16 stated_length 4 _ (omega arith) (
                  Ensures-bind (read_exact-Moves buf message.bytes p₃ (stated_length - 4) l₃)
                    λ bytes p (h, e, l). holds ((omega arith, l), omega (arith, h.1)))

  read_fixed_fields-Ensures : Ensures (λ _ p. Consumes buf pos 18 p) (read_fixed_fields buf pos)
  unfolding read_fixed_fields
  read_fixed_fields-Ensures =
      Ensures-bind (read_u16-Moves buf message.bytes pos inside) λ covered p₁ (h₁, e₁, l₁).
        Ensures-bind (read_u8-Moves buf message.bytes p₁) λ algorithm p₂ (h₂, e₂, l₂).
          Ensures-bind (read_u8-Moves buf message.bytes p₂) λ labels p₃ (h₃, e₃, l₃).
            Ensures-bind (read_u32-Moves buf message.bytes p₃ l₃) λ ttl p₄ (h₄, e₄, l₄).
              Ensures-bind (read_u32-Moves buf message.bytes p₄ l₄) λ expiration p₅ (h₅, e₅, l₅).
                Ensures-bind (read_u32-Moves buf message.bytes p₅ l₅) λ inception p₆ (h₆, e₆, l₆).
                  Ensures-bind (read_u16-Moves buf message.bytes p₆ l₆)
                    λ tag p₇ (h₇, e₇, l₇). holds (omega arith, l₇)

  -- Reading an RRSIG record from a position inside a message does not panic. If it returns one,
  -- the cursor has moved by the stated length and is inside the message, the signer is the name
  -- that stands 18 bytes behind the start, and the signature has all the bytes from the end of
  -- that name on.
  pub read_rrsig-Ensures :
      Ensures
        (λ r p.
          Consumes buf pos stated_length p
          × ((end : ℕ) × NameAt buf (pos + 18) r.signer_name end × (p ≡ end + length r.signature)))
        (read_rrsig stated_length buf pos)
  unfolding read_rrsig
  read_rrsig-Ensures =
      Ensures-branch (ltb stated_length 19) _ _ (λ _. failed)
        λ more. Ensures-bind read_fixed_fields-Ensures λ fixed p₁ (e₁, l₁).
          Ensures-bind (read_labels-NameAt buf message p₁) λ (name, n) p₂ (at, c, l₂).
            Ensures-checked_sub stated_length (saturating_add n 18) _ _ λ fits.
              Ensures-bind
                (read_exact-Moves buf message.bytes p₂ (stated_length - saturating_add n 18) l₂)
                λ bytes p (h, e, l).
                  let sum = saturating_add_lem n 18 (omega (arith, message.fits)) in
                  holds (
                    (omega arith, l),
                    (p₂, subst (λ q. NameAt buf q name p₂) e₁ at, omega (arith, h.1)),
                  )
