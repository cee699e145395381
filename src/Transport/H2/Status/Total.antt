-- ===== src/Transport/H2/Status/Total.antt =====
-- Reading the status of a response ends without a panic.
use dog.Prelude.{
  ℕ, zero, suc, ◌+◌, ◌-◌, ◌*◌, ◌^◌, ◌≤◌, inl, inr, Option-cases, Bool-cases, ◌&&◌, List, [], ◌∷◌,
  ◌++◌, arith, bit_and, bit_or, ◌==◌, leb, le→leb, ltb, if◌then◌else◌, length, take, drop,
  drop-length, get_elem?,
}
use dog.Transport.Errors.{
  ok, err, malformed_http, not_the_status, headers_cut_short, not_huffman_digits, ◌>>=◌,
}
use dog.Transport.Ends.{Ends, Any, Ends-bind, Ends-if, Ends-weaken}
use dog.Transport.H2.Integers.{read_more, read_integer}
use dog.Transport.H2.Huffman.{huffman_codes, position, bits, check_padding, decode, huffman_digits}
use dog.Transport.H2.Status.{
  is_ascii_digit, static_statuses, static_status, skip_changes, first_field, slice_from, string,
  parse_status, field_status, status,
}

-- A byte at least is taken, and at most `most`.
abbrev IsUsed : ℕ → ℕ × ℕ → Type 0
IsUsed most (value, used) = (1 ≤ used) × (used ≤ most)

read_more-Ends :
    (left used value : ℕ) (bytes : List ℕ)
    → Ends (IsUsed (used + length bytes)) (read_more left used value bytes)
unfolding read_more
read_more-Ends zero used value bytes = tt
read_more-Ends (suc left) used value [] = tt
read_more-Ends (suc left) used value (byte ∷ bytes) =
    let value' = value + bit_and byte 0x7f * 2 ^ (7 * (used - 1)) in
    Ends-if (IsUsed (used + length (byte ∷ bytes))) (bit_and byte 0x80 == 0) _ _
      (λ last. (omega arith, omega arith))
      (λ more.
        Ends-weaken (IsUsed (used + 1 + length bytes)) (IsUsed (used + length (byte ∷ bytes)))
          (read_more left (used + 1) value' bytes) (λ r h. (h.0, omega (arith, h.1)))
          (read_more-Ends left (used + 1) value' bytes))

read_integer-Ends :
    (bytes : List ℕ) (prefix_bits : ℕ)
    → Ends (IsUsed (length bytes)) (read_integer bytes prefix_bits)
unfolding read_integer
read_integer-Ends [] prefix_bits = tt
read_integer-Ends (byte ∷ bytes) prefix_bits =
    let first = bit_and byte (2 ^ prefix_bits - 1) in
    Ends-if (IsUsed (length (byte ∷ bytes))) (ltb first (2 ^ prefix_bits - 1)) (ok (first, 1))
      (read_more 4 1 first bytes) (λ fits. (omega arith, omega arith))
      (λ past.
        Ends-weaken (IsUsed (1 + length bytes)) (IsUsed (length (byte ∷ bytes)))
          (read_more 4 1 first bytes) (λ r h. (h.0, omega (arith, h.1)))
          (read_more-Ends 4 1 first bytes))

check_padding-Ends : (digits : List ℕ) (code width : ℕ) → Ends Any (check_padding digits code width)
unfolding check_padding
check_padding-Ends digits code width =
    Ends-if Any (code == 2 ^ width - 1) (ok digits) (err (malformed_http not_huffman_digits))
      (λ h. tt) (λ h. tt)

decode-Ends : (bits digits : List ℕ) (code width : ℕ) → Ends Any (decode bits digits code width)
unfolding decode
decode-Ends [] digits code width = check_padding-Ends digits code width
decode-Ends (bit ∷ rest) digits code width =
    elim (Option-cases (position huffman_codes 0 (bit_or (code * 2) bit) (width + 1))) [
      | inl e ↦
          rw (e, decode)
            (Ends-if Any (ltb 7 (width + 1)) (err (malformed_http not_huffman_digits)) _ (λ h. tt)
              (λ h. decode-Ends rest digits (bit_or (code * 2) bit) (width + 1)))
      | inr (digit, e) ↦ rw (e, decode) (decode-Ends rest (digits ++ (b'0' + digit) ∷ []) 0 0)
    ]

abbrev NonEmpty : List ℕ → Type 0
NonEmpty field = 1 ≤ length field

skip_changes-Ends :
    (fuel : ℕ) (block : List ℕ) → length block ≤ fuel → Ends NonEmpty (skip_changes fuel block)
unfolding skip_changes
skip_changes-Ends zero [] l = tt
skip_changes-Ends (suc fuel) [] l = tt
skip_changes-Ends zero (byte ∷ block) l = absurd (omega arith)
skip_changes-Ends (suc fuel) (byte ∷ block) l = elim (Bool-cases (bit_and byte 0xe0 == 0x20)) [
  | inl change ↦
      rw (change, skip_changes)
        (Ends-bind (IsUsed (length (byte ∷ block))) NonEmpty (read_integer (byte ∷ block) 5) _
          (read_integer-Ends (byte ∷ block) 5)
          λ r used.
            skip_changes-Ends fuel (drop r.1 (byte ∷ block))
              (omega (arith, used.0, drop-length r.1 (byte ∷ block))))
  | inr field ↦ rw (field, skip_changes) (omega arith)
]

static_status-Ends : (index : ℕ) → Ends Any (static_status index)
unfolding static_status
static_status-Ends index =
    Ends-if Any (ltb index 8) (err (malformed_http (not_the_status index))) _ (λ h. tt)
      λ h. elim (Option-cases (get_elem? static_statuses (index - 8))) [
        | inl e ↦ rw e tt
        | inr (code, e) ↦ rw e tt
      ]

parse_status-Ends : (value : List ℕ) → Ends Any (parse_status value)
unfolding parse_status
parse_status-Ends [] = tt
parse_status-Ends (a ∷ []) = tt
parse_status-Ends (a ∷ b ∷ []) = tt
parse_status-Ends (a ∷ b ∷ c ∷ []) =
    Ends-if Any (is_ascii_digit a && (is_ascii_digit b && is_ascii_digit c)) _ _ (λ h. tt) (λ h. tt)
parse_status-Ends (a ∷ b ∷ c ∷ d ∷ more) = tt

huffman_digits-Ends : (coded : List ℕ) → Ends Any (huffman_digits coded)
unfolding huffman_digits
huffman_digits-Ends coded = decode-Ends (bits coded) [] 0 0

string-Ends : (bytes : List ℕ) → Ends Any (string bytes)
unfolding string
string-Ends [] =
    Ends-bind (IsUsed 0) Any (read_integer [] 7) _ (read_integer-Ends [] 7)
      λ r used. absurd (omega (arith, used.0, used.1))
string-Ends (first ∷ more) =
    Ends-bind (IsUsed (length (first ∷ more))) Any (read_integer (first ∷ more) 7) _
      (read_integer-Ends (first ∷ more) 7)
      λ r used.
        Ends-if Any (leb r.1 (length (first ∷ more)) && leb r.0 (length (first ∷ more) - r.1)) _
          (err (malformed_http headers_cut_short))
          (λ h.
            Ends-if Any (bit_and first 0x80 == 0) (ok (take r.0 (drop r.1 (first ∷ more))))
              (huffman_digits (take r.0 (drop r.1 (first ∷ more)))) (λ plain. tt)
              (λ coded. huffman_digits-Ends (take r.0 (drop r.1 (first ∷ more)))))
          (λ h. tt)

slice_from-Ends : (n : ℕ) (bytes : List ℕ) → n ≤ length bytes → Ends Any (slice_from n bytes)
unfolding slice_from
slice_from-Ends n bytes h = rw (le→leb n (length bytes) h, slice_from) tt

field_status-Ends : (field : List ℕ) → 1 ≤ length field → Ends Any (field_status field)
unfolding field_status
field_status-Ends [] nonempty = absurd (omega arith)
field_status-Ends (first ∷ more) nonempty =
    let written = if bit_and first 0x40 == 0 then 4 else 6 in
    Ends-if Any (bit_and first 0x80 == 0) _
      (read_integer (first ∷ more) 7 >>= λ (index, used). static_status index)
      (λ h.
        Ends-bind (IsUsed (length (first ∷ more))) Any (read_integer (first ∷ more) written) _
          (read_integer-Ends (first ∷ more) written)
          λ r used. Ends-bind Any Any (static_status r.0) _ (static_status-Ends r.0) λ code known.
            Ends-bind Any Any (slice_from r.1 (first ∷ more)) _
              (slice_from-Ends r.1 (first ∷ more) used.1)
              λ rest cut.
                Ends-bind Any Any (string rest) parse_status (string-Ends rest)
                  λ value read. parse_status-Ends value)
      (λ h.
        Ends-bind (IsUsed (length (first ∷ more))) Any (read_integer (first ∷ more) 7) _
          (read_integer-Ends (first ∷ more) 7) λ r used. static_status-Ends r.0)

pub status-Ends : (block : List ℕ) → Ends Any (status block)
unfolding status first_field
status-Ends block =
    Ends-bind NonEmpty Any (skip_changes (length block) block) field_status
      (skip_changes-Ends (length block) block (omega arith)) λ field h. field_status-Ends field h
