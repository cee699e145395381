-- ===== src/Dns/Message/Bounds.antt =====
-- Each part of a response is read without a panic, and the cursor stays within the message.
use dog.Prelude.{
  ℕ, zero, suc, ◌+◌, ◌≤◌, ◌≡◌, List, [], ◌∷◌, ◌++◌, length, length-append, ◌==◌, arith,
}
use dog.Dns.Outcome.{Reader, Ensures, holds, Ensures-bind, Ensures-weaken, Ensures-branch, u16_max}
use dog.Dns.Cursor.{ByteOrder, IsMessage}
use dog.Dns.Cursor.Bounds.{read_u16-Moves, read_u32-Moves}
use dog.Dns.Strings.Defs.{Labels}
use dog.Dns.Records.Types.{type_from_u16}
use dog.Dns.Records.Names.Bounds.{read_labels-NameAt}
use dog.Dns.Records.Opt.{opt_type}
use dog.Dns.Records.Opt.Bounds.{read_opt-Ensures}
use dog.Dns.Records.Parse.Bounds.{record_from_bytes-Ensures}
use dog.Dns.Message.{read_entries, read_section, read_query, read_answer}

abbrev Within : List ℕ → ℕ → ℕ → Type 0
Within buf pos p = (pos ≤ p) × (p ≤ length buf)

module _ {ℓ} {A : Type ℓ} (buf : List ℕ) (message : IsMessage buf) (read_entry : Labels → Reader A)
    (entry : (qname : Labels) (pos : ℕ)
      → pos ≤ length buf
      → Ensures (λ _ p. Within buf pos p) (read_entry qname buf pos)) where
  read_entries-Ensures :
      (left : ℕ) (entries : List A) (pos : ℕ)
      → pos ≤ length buf
      → Ensures
          (λ r p. (length r ≡ length entries + left) × Within buf pos p)
          (read_entries read_entry left entries buf pos)
  unfolding read_entries
  read_entries-Ensures zero entries pos l = holds (omega arith, omega arith)
  read_entries-Ensures (suc left) entries pos l =
      Ensures-bind (read_labels-NameAt buf message pos) λ (qname, n) p₁ (at, c, l₁).
        Ensures-bind (entry qname p₁ l₁) λ e p₂ (a, b).
          Ensures-weaken
            (λ r p (n', w). (omega (arith, length-append entries (e ∷ [])), omega arith))
            (read_entries-Ensures left (entries ++ e ∷ []) p₂ b)

  pub read_section-Ensures :
      (count pos : ℕ)
      → pos ≤ length buf
      → Ensures
          (λ r p. (length r ≡ count) × Within buf pos p)
          (read_section count read_entry buf pos)
  unfolding read_section
  read_section-Ensures count pos l =
      Ensures-weaken (λ r p (n, w). (omega arith, w)) (read_entries-Ensures count [] pos l)

module _ ⦃B : ByteOrder⦄ (buf : List ℕ) (message : IsMessage buf) where
  pub read_query-Ensures :
      (qname : Labels) (pos : ℕ)
      → pos ≤ length buf
      → Ensures (λ _ p. Within buf pos p) (read_query qname buf pos)
  unfolding read_query
  read_query-Ensures qname pos l =
      Ensures-bind (read_u16-Moves buf message.bytes pos l) λ number p₁ (h₁, e₁, l₁).
        Ensures-bind (read_u16-Moves buf message.bytes p₁ l₁)
          λ class p₂ (h₂, e₂, l₂). holds (omega arith, l₂)

  pub read_answer-Ensures :
      (short : length buf + 255 ≤ u16_max) (qname : Labels) (pos : ℕ)
      → pos ≤ length buf
      → Ensures (λ _ p. Within buf pos p) (read_answer qname buf pos)
  unfolding read_answer
  read_answer-Ensures short qname pos l =
      Ensures-bind (read_u16-Moves buf message.bytes pos l) λ number p₁ (h₁, e₁, l₁).
        Ensures-branch (number == opt_type) _ _
          (λ _.
            Ensures-bind (read_opt-Ensures buf message p₁ l₁)
              λ opt p (e, l'). holds (omega arith, l'))
          λ _. Ensures-bind (read_u16-Moves buf message.bytes p₁ l₁) λ class p₂ (h₂, e₂, l₂).
            Ensures-bind (read_u32-Moves buf message.bytes p₂ l₂) λ ttl p₃ (h₃, e₃, l₃).
              Ensures-bind (read_u16-Moves buf message.bytes p₃ l₃) λ len p₄ (h₄, e₄, l₄).
                Ensures-bind
                  (record_from_bytes-Ensures buf message short p₄ l₄ len (type_from_u16 number))
                  λ r p (e, l'). holds (omega arith, l')
