-- ===== src/Dns/Records/Names/Bounds.antt =====
-- Each of these reads ends without a panic, in an error or with the cursor moved by exactly the
-- stated length, and the names in the record are those that stand in the message.
use dog.Prelude.{ℕ, ◌+◌, ◌≤◌, ◌<◌, ◌≡◌, List, length, arith}
use mathlib.Core.Path.{subst}
use dog.Dns.Outcome.{Ensures, Ensures-bind, Ensures-weaken, Ensures-add_u16, Ensures-check_length}
use dog.Dns.Cursor.{ByteOrder, IsMessage, IsU16}
use dog.Dns.Cursor.Bounds.{read_u16-Moves, read_u32-Moves}
use dog.Dns.Strings.Defs.{Labels}
use dog.Dns.Strings.Decodes.{Decodes, Decodes-bounds}
use dog.Dns.Strings.Read.{recursion_limit, read_labels}
use dog.Dns.Strings.Read.Bounds.{read_labels-Ensures}
use dog.Dns.Records.Names.{read_cname, read_ns, read_ptr, read_mx, read_srv, read_soa}

-- The cursor moved by `n` bytes and is within the buffer.
abbrev pub Consumes : List ℕ → ℕ → ℕ → ℕ → Type 0
Consumes buf pos n p = (p ≡ pos + n) × (p ≤ length buf)

-- The name stands at `pos`, and its own bytes end before `end`.
abbrev pub NameAt : List ℕ → ℕ → Labels → ℕ → Type 0
NameAt buf pos name end =
    (depth : ℕ) × Decodes buf depth pos name.segments end × (depth < recursion_limit)

module _ (buf : List ℕ) (message : IsMessage buf) where
  -- A name, with what follows for the position.
  pub read_labels-NameAt :
      (pos : ℕ)
      → Ensures
          (λ r p. NameAt buf pos r.0 p × (r.1 + pos ≡ p) × (p ≤ length buf))
          (read_labels buf pos)
  read_labels-NameAt pos =
      Ensures-weaken (λ r p (depth, d, l, c). ((depth, d, l), c, (Decodes-bounds d).1))
        (read_labels-Ensures buf message pos)

  module _ (pos : ℕ) where
    pub read_cname-Ensures :
        (stated_length : ℕ)
        → Ensures
            (λ r p. Consumes buf pos stated_length p × NameAt buf pos r.domain p)
            (read_cname stated_length buf pos)
    unfolding read_cname
    read_cname-Ensures stated =
        Ensures-bind (read_labels-NameAt pos) λ (name, n) p (at, c, l).
          Ensures-check_length stated n _ buf p λ e. ((omega arith, l), at)

    pub read_ns-Ensures :
        (stated_length : ℕ)
        → Ensures
            (λ r p. Consumes buf pos stated_length p × NameAt buf pos r.nameserver p)
            (read_ns stated_length buf pos)
    unfolding read_ns
    read_ns-Ensures stated =
        Ensures-bind (read_labels-NameAt pos) λ (name, n) p (at, c, l).
          Ensures-check_length stated n _ buf p λ e. ((omega arith, l), at)

    pub read_ptr-Ensures :
        (stated_length : ℕ)
        → Ensures
            (λ r p. Consumes buf pos stated_length p × NameAt buf pos r.cname p)
            (read_ptr stated_length buf pos)
    unfolding read_ptr
    read_ptr-Ensures stated =
        Ensures-bind (read_labels-NameAt pos) λ (name, n) p (at, c, l).
          Ensures-check_length stated n _ buf p λ e. ((omega arith, l), at)

module _ ⦃B : ByteOrder⦄ (buf : List ℕ) (message : IsMessage buf) (pos : ℕ)
    (inside : pos ≤ length buf) where
  -- Reading an MX record from a position inside a message does not panic. If it returns one,
  -- the cursor has moved by the stated length and is inside the message, the preference fits 16
  -- bits, and the exchange is the name that stands two bytes behind the start, and ends at the
  -- cursor.
  pub read_mx-Ensures :
      (stated_length : ℕ)
      → Ensures
          (λ r p.
            Consumes buf pos stated_length p
            × IsU16 r.preference
            × NameAt buf (pos + 2) r.exchange p)
          (read_mx stated_length buf pos)
  unfolding read_mx
  read_mx-Ensures stated =
      Ensures-bind (read_u16-Moves buf message.bytes pos inside) λ preference p₁ (h, e₁, l₁).
        Ensures-bind (read_labels-NameAt buf message p₁) λ (name, n) p (at, c, l).
          Ensures-add_u16 2 n _ (omega (arith, message.fits)) (
            Ensures-check_length stated (2 + n) _ buf p
              λ e. ((omega arith, l), h, subst (λ q. NameAt buf q name p) e₁ at))

  pub read_srv-Ensures :
      (stated_length : ℕ)
      → Ensures
          (λ r p. Consumes buf pos stated_length p × NameAt buf (pos + 6) r.target p)
          (read_srv stated_length buf pos)
  unfolding read_srv
  read_srv-Ensures stated =
      Ensures-bind (read_u16-Moves buf message.bytes pos inside) λ priority p₁ (h₁, e₁, l₁).
        Ensures-bind (read_u16-Moves buf message.bytes p₁ l₁) λ weight p₂ (h₂, e₂, l₂).
          Ensures-bind (read_u16-Moves buf message.bytes p₂ l₂) λ port p₃ (h₃, e₃, l₃).
            Ensures-bind (read_labels-NameAt buf message p₃) λ (name, n) p (at, c, l).
              Ensures-add_u16 6 n _ (omega (arith, message.fits)) (
                Ensures-check_length stated (6 + n) _ buf p
                  λ e. ((omega arith, l), subst (λ q. NameAt buf q name p) (omega arith) at))

  -- Reading an SOA record from a position inside a message does not panic. If it returns one,
  -- the cursor has moved by the stated length and is inside the message, the second name stands
  -- where the first one ends, and the cursor is 20 bytes behind the end of the second.
  pub read_soa-Ensures :
      (stated_length : ℕ)
      → Ensures
          (λ r p.
            Consumes buf pos stated_length p
            × ((middle end : ℕ) × NameAt buf pos r.mname middle
                × NameAt buf middle r.rname end
                × (p ≡ end + 20)))
          (read_soa stated_length buf pos)
  unfolding read_soa
  read_soa-Ensures stated =
      Ensures-bind (read_labels-NameAt buf message pos) λ (mname, m) p₁ (at₁, c₁, l₁).
        Ensures-bind (read_labels-NameAt buf message p₁) λ (rname, n) p₂ (at₂, c₂, l₂).
          Ensures-bind (read_u32-Moves buf message.bytes p₂ l₂) λ serial p₃ (h₃, e₃, l₃).
            Ensures-bind (read_u32-Moves buf message.bytes p₃ l₃) λ refresh p₄ (h₄, e₄, l₄).
              Ensures-bind (read_u32-Moves buf message.bytes p₄ l₄) λ retry p₅ (h₅, e₅, l₅).
                Ensures-bind (read_u32-Moves buf message.bytes p₅ l₅) λ expire p₆ (h₆, e₆, l₆).
                  Ensures-bind (read_u32-Moves buf message.bytes p₆ l₆) λ minimum p (h₇, e₇, l₇).
                    Ensures-add_u16 20 m _ (omega (arith, message.fits)) (
                      Ensures-add_u16 (20 + m) n _ (omega (arith, message.fits)) (
                        Ensures-check_length stated (20 + m + n) _ buf p
                          λ e. ((omega arith, l₇), (p₁, p₂, at₁, at₂, omega arith))))
