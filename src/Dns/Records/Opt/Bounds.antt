-- ===== src/Dns/Records/Opt/Bounds.antt =====
-- Reading an OPT record ends without a panic, and what was written is read back.
use dog.Prelude.{ℕ, ◌+◌, ◌≤◌, List, length, arith}
use dog.Dns.Outcome.{Ensures, holds, Ensures-bind}
use dog.Dns.Cursor.{ByteOrder, IsMessage}
use dog.Dns.Cursor.Bounds.{read_u8-Moves, read_exact-Moves, read_u16-Moves}
use dog.Dns.Records.Names.Bounds.{Consumes}
use dog.Dns.Records.Opt.{read_opt}

module _ ⦃B : ByteOrder⦄ (buf : List ℕ) (message : IsMessage buf) (pos : ℕ)
    (inside : pos ≤ length buf) where
  -- Reading an OPT record from a position inside a message does not panic. If it returns one,
  -- the cursor has moved by eight bytes and the length of the data, and is inside the message.
  pub read_opt-Ensures :
      Ensures (λ opt p. Consumes buf pos (8 + length opt.payload) p) (read_opt buf pos)
  unfolding read_opt
  read_opt-Ensures =
      Ensures-bind (read_u16-Moves buf message.bytes pos inside) λ size p₁ (h₁, e₁, l₁).
        Ensures-bind (read_u8-Moves buf message.bytes p₁) λ higher p₂ (h₂, e₂, l₂).
          Ensures-bind (read_u8-Moves buf message.bytes p₂) λ version p₃ (h₃, e₃, l₃).
            Ensures-bind (read_u16-Moves buf message.bytes p₃ l₃) λ flags p₄ (h₄, e₄, l₄).
              Ensures-bind (read_u16-Moves buf message.bytes p₄ l₄) λ n p₅ (h₅, e₅, l₅).
                Ensures-bind (read_exact-Moves buf message.bytes p₅ n l₅)
                  λ payload p (h, e, l). holds (omega (arith, h.1), l)
