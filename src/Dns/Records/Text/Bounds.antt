-- ===== src/Dns/Records/Text/Bounds.antt =====
-- How far the reads of strings move the cursor, and that they end without a panic. The total of a
-- TXT record is added up before the bytes are read, so its read wants 255 bytes less in a message.
use dog.Prelude.{
  ℕ, zero, suc, ◌+◌, ◌-◌, ◌≤◌, ◌<◌, ◌≡◌, List, [], ◌∷◌, ◌++◌, length, leb, ltb, arith, leb→gt,
}
use dog.Dns.Outcome.{
  Ensures, holds, failed, Ensures-bind, Ensures-branch, Ensures-weaken, Ensures-add_u16,
  Ensures-sub_u16, Ensures-check_length, u16_max, saturating_add, saturating_add_lem,
}
use dog.Dns.Cursor.{ByteOrder, IsMessage}
use dog.Dns.Cursor.Bounds.{read_u8-Moves, read_exact-Moves, read_u16-Moves}
use dog.Dns.Records.Names.Bounds.{Consumes, NameAt, read_labels-NameAt}
use dog.Dns.Records.Text.{
  read_character_string, read_hinfo, read_caa, read_uri, read_naptr, push_bytes, read_message,
  read_messages, read_txt,
}

module _ (buf : List ℕ) (message : IsMessage buf) where
  read_character_string-Ensures :
      (pos : ℕ)
      → Ensures
          (λ r p. (r.1 + pos ≡ p) × (r.1 ≤ 256) × (p ≤ length buf))
          (read_character_string buf pos)
  unfolding read_character_string
  read_character_string-Ensures pos =
      Ensures-bind (read_u8-Moves buf message.bytes pos) λ n p₁ (h₁, e₁, l₁).
        Ensures-bind (read_exact-Moves buf message.bytes p₁ n l₁) λ bytes p₂ (h₂, e₂, l₂).
          Ensures-add_u16 1 n _ (omega arith) (holds (omega arith, omega arith, l₂))

  -- Reading an HINFO record from a message does not panic. If it returns one, the cursor has
  -- moved by the stated length and is inside the message, and that length is two bytes more
  -- than the CPU and the OS have together.
  pub read_hinfo-Ensures :
      (pos stated_length : ℕ)
      → Ensures
          (λ r p.
            Consumes buf pos stated_length p × (stated_length ≡ length r.cpu + length r.os + 2))
          (read_hinfo stated_length buf pos)
  unfolding read_hinfo
  read_hinfo-Ensures pos stated =
      Ensures-bind (read_u8-Moves buf message.bytes pos) λ m p₁ (h₁, e₁, l₁).
        Ensures-bind (read_exact-Moves buf message.bytes p₁ m l₁) λ cpu p₂ (h₂, e₂, l₂).
          Ensures-bind (read_u8-Moves buf message.bytes p₂) λ n p₃ (h₃, e₃, l₃).
            Ensures-bind (read_exact-Moves buf message.bytes p₃ n l₃) λ os p₄ (h₄, e₄, l₄).
              Ensures-add_u16 1 m _ (omega arith) (
                Ensures-add_u16 (1 + m) 1 _ (omega arith) (
                  Ensures-add_u16 (1 + m + 1) n _ (omega arith) (
                    Ensures-check_length stated (1 + m + 1 + n) _ buf p₄
                      λ e. ((omega arith, l₄), omega arith))))

  -- Reading a CAA record from a message does not panic. If it returns one, the cursor has moved
  -- by two bytes, the tag and what is left of the stated length, which is nothing if the tag is
  -- too long for it.
  pub read_caa-Ensures :
      (pos stated_length : ℕ)
      → Ensures
          (λ r p. Consumes buf pos (length r.tag + 2 + (stated_length - length r.tag - 2)) p)
          (read_caa stated_length buf pos)
  unfolding read_caa
  read_caa-Ensures pos stated =
      Ensures-bind (read_u8-Moves buf message.bytes pos) λ flags p₁ (h₁, e₁, l₁).
        Ensures-bind (read_u8-Moves buf message.bytes p₁) λ n p₂ (h₂, e₂, l₂).
          Ensures-bind (read_exact-Moves buf message.bytes p₂ n l₂) λ tag p₃ (h₃, e₃, l₃).
            Ensures-bind (read_exact-Moves buf message.bytes p₃ (stated - n - 2) l₃)
              λ value p₄ (h₄, e₄, l₄). holds (omega (arith, h₃.1), l₄)

  push_bytes-Ensures :
      (more : ℕ) (name : List ℕ) (pos : ℕ)
      → pos ≤ length buf
      → Ensures (λ _ p. Consumes buf pos more p) (push_bytes more name buf pos)
  unfolding push_bytes
  push_bytes-Ensures zero name pos l = holds (omega arith, l)
  push_bytes-Ensures (suc more) name pos l =
      Ensures-bind (read_u8-Moves buf message.bytes pos) λ c p₁ (hc, e₁, l₁).
        Ensures-weaken (λ _ p h. (omega arith, h.1))
          (push_bytes-Ensures more (name ++ c ∷ []) p₁ l₁)

  module _ (short : length buf + 255 ≤ u16_max) (stated_length : ℕ) where
    read_message-Ensures :
        (fuel total_length : ℕ) (name : List ℕ) (pos : ℕ)
        → length buf < fuel + pos
        → pos ≤ length buf
        → total_length ≤ pos
        → Ensures
            (λ r p. (pos < p) × (p ≤ length buf) × (r.1 + pos ≡ total_length + p))
            (read_message fuel stated_length total_length name buf pos)
    unfolding read_message
    read_message-Ensures zero total name pos f l t = absurd (omega arith)
    read_message-Ensures (suc fuel) total name pos f l t =
        Ensures-bind (read_u8-Moves buf message.bytes pos) λ n p₁ (h₁, e₁, l₁).
          Ensures-add_u16 n 1 _ (omega arith) (
            Ensures-add_u16 total (n + 1) _ (omega arith) (
              Ensures-bind (push_bytes-Ensures n name p₁ l₁) λ chunk p₂ (e₂, l₂).
                Ensures-branch (ltb n 255) _ _ (λ _. holds (omega arith, l₂, omega arith))
                  λ _.
                    Ensures-branch (leb stated_length (total + (n + 1))) _ _
                      (λ _. holds (omega arith, l₂, omega arith))
                      λ _.
                        Ensures-weaken (λ r p (a, b, c). (omega arith, b, omega arith))
                          (read_message-Ensures fuel (total + (n + 1)) chunk p₂ (omega arith) l₂
                            (omega arith))))

    read_messages-Ensures :
        (fuel total_length : ℕ) (messages : List (List ℕ)) (pos : ℕ)
        → length buf < fuel + pos
        → pos ≤ length buf
        → total_length ≤ pos
        → Ensures
            (λ r p. (pos < p) × (p ≤ length buf) × (r.1 + pos ≡ total_length + p))
            (read_messages fuel stated_length total_length messages buf pos)
    unfolding read_messages
    read_messages-Ensures zero total messages pos f l t = absurd (omega arith)
    read_messages-Ensures (suc fuel) total messages pos f l t =
        Ensures-bind (read_message-Ensures (suc (length buf)) total [] pos (omega arith) l t)
          λ (text, total') p₁ (a₁, b₁, c₁).
            Ensures-branch (leb stated_length total') _ _ (λ _. holds (a₁, b₁, c₁))
              λ _.
                Ensures-weaken (λ r p (a, b, c). (omega arith, b, omega arith))
                  (read_messages-Ensures fuel total' (messages ++ text ∷ []) p₁ (omega arith) b₁
                    (omega arith))

    -- Reading a TXT record from a position inside a message of at most 65,280 bytes neither
    -- panics nor runs out of fuel, and if it returns one, the cursor has moved by the stated
    -- length and is inside the message.
    pub read_txt-Ensures :
        (pos : ℕ)
        → pos ≤ length buf
        → Ensures (λ r p. Consumes buf pos stated_length p) (read_txt stated_length buf pos)
    unfolding read_txt
    read_txt-Ensures pos l =
        Ensures-bind
          (read_messages-Ensures (suc (length buf)) 0 [] pos (omega arith) l (omega arith))
          λ (messages, total) p (a, b, c).
            Ensures-check_length stated_length total _ buf p λ e. (omega arith, b)

module _ ⦃B : ByteOrder⦄ (buf : List ℕ) (message : IsMessage buf) (pos : ℕ)
    (inside : pos ≤ length buf) (stated_length : ℕ) where
  pub read_uri-Ensures :
      Ensures
        (λ r p. Consumes buf pos stated_length p × (stated_length ≡ length r.target + 4))
        (read_uri stated_length buf pos)
  unfolding read_uri
  read_uri-Ensures =
      Ensures-bind (read_u16-Moves buf message.bytes pos inside) λ priority p₁ (h₁, e₁, l₁).
        Ensures-bind (read_u16-Moves buf message.bytes p₁ l₁) λ weight p₂ (h₂, e₂, l₂).
          Ensures-branch (leb stated_length 4) _ _ (λ _. failed)
            λ more.
              let enough = leb→gt stated_length 4 more in
              Ensures-sub_u16 stated_length 4 _ (omega arith) (
                Ensures-bind (read_exact-Moves buf message.bytes p₂ (stated_length - 4) l₂)
                  λ target p₃ (h₃, e₃, l₃). holds ((omega arith, l₃), omega (arith, h₃.1)))

  -- Reading a NAPTR record from a position inside a message does not panic. If it returns one,
  -- the cursor has moved by the stated length and is inside the message, and the replacement is
  -- a name that stands in the message.
  pub read_naptr-Ensures :
      Ensures
        (λ r p. Consumes buf pos stated_length p × ((start : ℕ) × NameAt buf start r.replacement p))
        (read_naptr stated_length buf pos)
  unfolding read_naptr
  read_naptr-Ensures =
      Ensures-bind (read_u16-Moves buf message.bytes pos inside) λ order p₁ (h₁, e₁, l₁).
        Ensures-bind (read_u16-Moves buf message.bytes p₁ l₁) λ preference p₂ (h₂, e₂, l₂).
          Ensures-bind (read_character_string-Ensures buf message p₂) λ (flags, f) p₃ (e₃, b₃, l₃).
            Ensures-bind (read_character_string-Ensures buf message p₃)
              λ (service, s) p₄ (e₄, b₄, l₄).
                Ensures-bind (read_character_string-Ensures buf message p₄)
                  λ (regex, r) p₅ (e₅, b₅, l₅).
                    Ensures-bind (read_labels-NameAt buf message p₅) λ (name, n) p (at, c, l).
                      Ensures-add_u16 4 f _ (omega arith) (
                        Ensures-add_u16 (4 + f) s _ (omega arith) (
                          Ensures-add_u16 (4 + f + s) r _ (omega arith) (
                            Ensures-check_length stated_length (saturating_add (4 + f + s + r) n) _
                              buf p
                              λ e. (
                                (
                                  omega (
                                    arith,
                                    saturating_add_lem (4 + f + s + r) n
                                        (omega (arith, message.fits)),
                                  ),
                                  l,
                                ),
                                (p₅, at),
                              ))))
