-- ===== src/Dns/Records/Opt/RoundTrip.antt =====
-- An OPT record that was written is read back.
use dog.Prelude.{ℕ, ◌+◌, ◌≡◌, sym, ap, ◌∙◌, some, List, ◌∷◌, ◌++◌, arith}
use dog.Prelude.{le→leb, length, drop, drop-drop, drop-append}
use dog.Dns.Outcome.{ok, u16_max}
use dog.Dns.Cursor.{ByteOrder, IsByte, IsU16, to_be_bytes}
use dog.Dns.Cursor.Exact.{read_u8_at, read_u16_at, read_exact_at}
use dog.Dns.Records.Opt.{Opt, read_opt, opt_to_bytes}

-- Fields that fit their widths.
pub record IsOpt (opt : Opt) : Type 0 where
  pub size : IsU16 opt.udp_payload_size
  pub higher : IsByte opt.higher_bits
  pub version : IsByte opt.edns0_version
  pub flag_bits : IsU16 opt.flags
  pub data_length : IsU16 (length opt.payload)

abbrev pub opt_wire : Opt → List ℕ
opt_wire opt =
    to_be_bytes opt.udp_payload_size
    ++ (opt.higher_bits
        ∷ opt.edns0_version
        ∷ (to_be_bytes opt.flags ++ (to_be_bytes (length opt.payload) ++ opt.payload)))

-- The bytes behind the first `k`.
pub drop_on :
    (buf : List ℕ) (pos k : ℕ) {bytes : List ℕ}
    → drop pos buf ≡ bytes
    → drop (pos + k) buf ≡ drop k bytes
drop_on buf pos k h = sym (drop-drop k pos buf) ∙ ap (drop k) h

module _ ⦃B : ByteOrder⦄ (opt : Opt) (small : IsOpt opt) where
  pub opt_to_bytes_lem : opt_to_bytes opt ≡ some (opt_wire opt)
  unfolding opt_to_bytes
  opt_to_bytes_lem = rw (
    B.encode_u16_lem opt.udp_payload_size small.size,
    B.encode_u16_lem opt.flags small.flag_bits,
    le→leb (length opt.payload) u16_max (omega (arith, small.data_length)),
    B.encode_u16_lem (length opt.payload) small.data_length,
  )

  pub read_opt_at :
      (buf : List ℕ) (pos : ℕ) (rest : List ℕ)
      → drop pos buf ≡ opt_wire opt ++ rest
      → read_opt buf pos ≡ ok (opt, pos + 8 + length opt.payload)
  unfolding read_opt
  read_opt_at buf pos rest e₀ =
      let e₁ = drop_on buf pos 2 e₀ in
      let e₂ = drop_on buf (pos + 2) 1 e₁ in
      let e₃ = drop_on buf (pos + 2 + 1) 1 e₂ in
      let e₄ = drop_on buf (pos + 2 + 1 + 1) 2 e₃ in
      let e₅ = drop_on buf (pos + 2 + 1 + 1 + 2) 2 e₄ in
      let end : pos + 2 + 1 + 1 + 2 + 2 + length opt.payload ≡ pos + 8 + length opt.payload =
        omega arith in
      rw
        (
          read_u16_at buf pos opt.udp_payload_size small.size e₀,
          read_u8_at buf (pos + 2) e₁,
          read_u8_at buf (pos + 2 + 1) e₂,
          read_u16_at buf (pos + 2 + 1 + 1) opt.flags small.flag_bits e₃,
          read_u16_at buf (pos + 2 + 1 + 1 + 2) (length opt.payload) small.data_length e₄,
          read_exact_at buf (pos + 2 + 1 + 1 + 2 + 2) opt.payload rest e₅,
        )
        (cc)

  -- An OPT record whose fields fit their widths, with at most 65,535 bytes of data, is encoded
  -- by `OPT::to_bytes`, and `OPT::read` reads it back from where it stands, whatever is before
  -- and after it, and stops right behind it.
  pub read_opt-opt_to_bytes :
      (before rest : List ℕ)
      → (bytes : List ℕ) × (opt_to_bytes opt ≡ some bytes)
        × (read_opt (before ++ (bytes ++ rest)) (length before)
            ≡ ok (opt, length before + length bytes))
  read_opt-opt_to_bytes before rest =
      let bytes = opt_wire opt in
      let end : length before + 8 + length opt.payload ≡ length before + length bytes =
        omega arith in
      (
        bytes,
        opt_to_bytes_lem,
        read_opt_at (before ++ (bytes ++ rest)) (length before) rest (drop-append before _) ∙ cc,
      )
