-- ===== src/Dns/Records/Loc/Bounds.antt =====
-- Reading a LOC record ends without a panic, in an error or with 16 bytes taken.
use dog.Prelude.{unnegated_lem, ℕ, not, List, ◌==◌, ==→eq, arith}
use dog.Dns.Outcome.{Ensures, holds, failed, Ensures-bind, Ensures-branch}
use dog.Dns.Cursor.{ByteOrder, IsMessage}
use dog.Dns.Cursor.Bounds.{read_u8-Moves, read_u32-Moves}
use dog.Dns.Records.Names.Bounds.{Consumes}
use dog.Dns.Records.Loc.{read_loc}

module _ ⦃B : ByteOrder⦄ (buf : List ℕ) (message : IsMessage buf) (pos stated_length : ℕ) where
  pub read_loc-Ensures :
      Ensures (λ _ p. Consumes buf pos stated_length p) (read_loc stated_length buf pos)
  unfolding read_loc
  read_loc-Ensures = Ensures-bind (read_u8-Moves buf message.bytes pos) λ version p₁ (h₁, e₁, l₁).
      Ensures-branch (not (version == 0)) _ _ (λ _. failed)
        λ _.
          Ensures-branch (not (stated_length == 16)) _ _ (λ _. failed)
            λ sixteen.
              let n = ==→eq stated_length 16 (unnegated_lem _ sixteen) in
              Ensures-bind (read_u8-Moves buf message.bytes p₁) λ size p₂ (h₂, e₂, l₂).
                Ensures-bind (read_u8-Moves buf message.bytes p₂) λ horizontal p₃ (h₃, e₃, l₃).
                  Ensures-bind (read_u8-Moves buf message.bytes p₃) λ vertical p₄ (h₄, e₄, l₄).
                    Ensures-bind (read_u32-Moves buf message.bytes p₄ l₄)
                      λ latitude p₅ (h₅, e₅, l₅).
                        Ensures-bind (read_u32-Moves buf message.bytes p₅ l₅)
                          λ longitude p₆ (h₆, e₆, l₆).
                            Ensures-bind (read_u32-Moves buf message.bytes p₆ l₆)
                              λ altitude p₇ (h₇, e₇, l₇). holds (omega arith, l₇)
