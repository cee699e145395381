-- ===== src/Dns/Records/Fixed/Bounds.antt =====
-- The reads of a fixed length end in an error or with exactly that many bytes taken.
use dog.Prelude.{unnegated_lem, ℕ, ◌≤◌, List, length, not, ◌==◌, arith, ==→eq}
use dog.Dns.Outcome.{Ensures, holds, failed, Ensures-bind, Ensures-branch}
use dog.Dns.Cursor.{IsMessage}
use dog.Dns.Cursor.Bounds.{HasLength, read_exact-Moves}
use dog.Dns.Records.Names.Bounds.{Consumes}
use dog.Dns.Records.Fixed.{read_a, read_aaaa, read_eui48, read_eui64}

module _ (buf : List ℕ) (message : IsMessage buf) (pos : ℕ) (inside : pos ≤ length buf)
    (stated_length : ℕ) where
  pub read_a-Ensures :
      Ensures
        (λ r p. Consumes buf pos stated_length p × HasLength 4 r.address)
        (read_a stated_length buf pos)
  unfolding read_a
  read_a-Ensures =
      Ensures-branch (not (stated_length == 4)) _ _ (λ _. failed)
        λ e.
          let n = ==→eq stated_length 4 (unnegated_lem _ e) in
          Ensures-bind (read_exact-Moves buf message.bytes pos 4 inside)
            λ octets p (h, e, l). holds ((omega arith, l), h)

  pub read_aaaa-Ensures :
      Ensures
        (λ r p. Consumes buf pos stated_length p × HasLength 16 r.address)
        (read_aaaa stated_length buf pos)
  unfolding read_aaaa
  read_aaaa-Ensures =
      Ensures-branch (not (stated_length == 16)) _ _ (λ _. failed)
        λ e.
          let n = ==→eq stated_length 16 (unnegated_lem _ e) in
          Ensures-bind (read_exact-Moves buf message.bytes pos 16 inside)
            λ octets p (h, e, l). holds ((omega arith, l), h)

  pub read_eui48-Ensures :
      Ensures
        (λ r p. Consumes buf pos stated_length p × HasLength 6 r.octets)
        (read_eui48 stated_length buf pos)
  unfolding read_eui48
  read_eui48-Ensures =
      Ensures-branch (not (stated_length == 6)) _ _ (λ _. failed)
        λ e.
          let n = ==→eq stated_length 6 (unnegated_lem _ e) in
          Ensures-bind (read_exact-Moves buf message.bytes pos 6 inside)
            λ octets p (h, e, l). holds ((omega arith, l), h)

  pub read_eui64-Ensures :
      Ensures
        (λ r p. Consumes buf pos stated_length p × HasLength 8 r.octets)
        (read_eui64 stated_length buf pos)
  unfolding read_eui64
  read_eui64-Ensures =
      Ensures-branch (not (stated_length == 8)) _ _ (λ _. failed)
        λ e.
          let n = ==→eq stated_length 8 (unnegated_lem _ e) in
          Ensures-bind (read_exact-Moves buf message.bytes pos 8 inside)
            λ octets p (h, e, l). holds ((omega arith, l), h)
