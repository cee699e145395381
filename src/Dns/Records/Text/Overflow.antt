-- ===== src/Dns/Records/Text/Overflow.antt =====
-- The total of a TXT record is added up before the bytes that it counts are read: a length byte at
-- the end of a long record overflows it, although no such bytes are there.
use dog.Prelude.{ℕ, zero, suc, ◌+◌, ◌≤◌, ◌<◌, ◌≡◌, ◌∙◌, sym, ap, List, [], ◌∷◌, ◌++◌, arith}
use dog.Prelude.{
  length, length-append, drop, drop-append, drop-drop, drop-suc, drop-length, append_assoc,
  append-nil, lt→ltb, All, le→leb, gt→leb,
}
use dog.Dns.Outcome.{ok, panic, u16_max}
use dog.Dns.Cursor.Exact.{read_u8_at}
use dog.Dns.Records.Text.{push_bytes, read_message, read_messages, read_txt}
use native.Mathlib.Numerals.{add-one}

-- Strings as they stand in a TXT record, each behind its length.
abbrev pub strings_wire : List (List ℕ) → List ℕ
strings_wire [] = []
strings_wire (s ∷ rest) = length s ∷ (s ++ strings_wire rest)

abbrev pub IsWhole : List ℕ → Type 0
IsWhole s = length s < 255

module _ (buf : List ℕ) where
  push_bytes_at :
      (bytes name : List ℕ) (pos : ℕ) (rest : List ℕ)
      → drop pos buf ≡ bytes ++ rest
      → push_bytes (length bytes) name buf pos ≡ ok (name ++ bytes, pos + length bytes)
  unfolding push_bytes
  push_bytes_at [] name pos rest e = let here : pos ≡ pos + 0 = omega arith in cc (append-nil name)
  push_bytes_at (b ∷ bytes) name pos rest e =
      let behind : drop (pos + 1) buf ≡ bytes ++ rest =
        ap (λ q. drop q buf) (add-one pos) ∙ drop-suc pos buf e in
      let end : pos + 1 + length bytes ≡ pos + suc (length bytes) = omega arith in
      rw (read_u8_at buf pos e) (
        push_bytes_at bytes (name ++ b ∷ []) (pos + 1) rest behind
        ∙ cc (append_assoc name (b ∷ []) bytes))

  module _ (stated_length : ℕ) where
    -- A string shorter than 255 bytes is one message.
    read_message_at :
        (fuel total pos : ℕ) (s rest : List ℕ)
        → IsWhole s
        → total + length s + 1 ≤ u16_max
        → drop pos buf ≡ length s ∷ (s ++ rest)
        → read_message (suc fuel) stated_length total [] buf pos
          ≡ ok ((s, total + (length s + 1)), pos + 1 + length s)
    unfolding read_message
    read_message_at fuel total pos s rest h f e =
        let behind : drop (pos + 1) buf ≡ s ++ rest =
          ap (λ q. drop q buf) (add-one pos) ∙ drop-suc pos buf e in
        rw (
          read_u8_at buf pos e,
          le→leb (length s + 1) u16_max (omega arith),
          le→leb (total + (length s + 1)) u16_max (omega arith),
          push_bytes_at s [] (pos + 1) rest behind,
          lt→ltb (length s) 255 h,
        )

    read_message_panics :
        (fuel total pos n : ℕ) (rest : List ℕ)
        → u16_max < total + n + 1
        → drop pos buf ≡ n ∷ rest
        → n + 1 ≤ u16_max
        → read_message (suc fuel) stated_length total [] buf pos ≡ panic
    unfolding read_message
    read_message_panics fuel total pos n rest h e f = rw (
      read_u8_at buf pos e,
      le→leb (n + 1) u16_max f,
      gt→leb (total + (n + 1)) u16_max (omega arith),
    )

    read_messages_panics :
        (fuel total pos : ℕ) (strings messages : List (List ℕ)) (n : ℕ) (rest : List ℕ)
        → length strings < fuel
        → All IsWhole strings
        → drop pos buf ≡ strings_wire strings ++ n ∷ rest
        → total + length (strings_wire strings) ≤ u16_max
        → total + length (strings_wire strings) < stated_length
        → u16_max < total + length (strings_wire strings) + n + 1
        → n + 1 ≤ u16_max
        → read_messages fuel stated_length total messages buf pos ≡ panic
    unfolding read_messages
    read_messages_panics zero total pos strings messages n rest f w e a b c d = absurd (omega arith)
    read_messages_panics (suc fuel) total pos [] messages n rest f w e a b c d =
        rw (read_message_panics (length buf) total pos n rest (omega arith) e d)
    read_messages_panics (suc fuel) total pos (s ∷ strings) messages n rest f (h, w) e a b c d =
        let long = length-append s (strings_wire strings) in
        let total' = total + (length s + 1) in
        let at : drop pos buf ≡ length s ∷ (s ++ (strings_wire strings ++ n ∷ rest)) =
          e ∙ ap (λ t. length s ∷ t) (append_assoc s (strings_wire strings) (n ∷ rest)) in
        let next : drop (pos + 1 + length s) buf ≡ strings_wire strings ++ n ∷ rest =
          sym (drop-drop (length s) (pos + 1) buf)
          ∙ ap (drop (length s)) (ap (λ q. drop q buf) (add-one pos) ∙ drop-suc pos buf at)
          ∙ drop-append s (strings_wire strings ++ n ∷ rest) in
        rw
          (
            read_message_at (length buf) total pos s (strings_wire strings ++ n ∷ rest) h
                (omega arith) at,
            gt→leb stated_length total' (omega arith),
          )
          (read_messages_panics fuel total' (pos + 1 + length s) strings (messages ++ s ∷ []) n rest
            (omega arith) w next (omega arith) (omega arith) (omega arith) d)

    strings-le : (strings : List (List ℕ)) → length strings ≤ length (strings_wire strings)
    strings-le [] = omega arith
    strings-le (s ∷ strings) =
        omega (arith, strings-le strings, length-append s (strings_wire strings))

    -- Reading a TXT record panics if whole strings of less than 255 bytes, which take fewer
    -- bytes than is stated and at most 65,535, are followed by a length byte that takes the
    -- total past 65,535, whether or not the bytes it counts are there.
    pub read_txt_panics :
        (pos : ℕ) (strings : List (List ℕ)) (n : ℕ) (rest : List ℕ)
        → All IsWhole strings
        → drop pos buf ≡ strings_wire strings ++ n ∷ rest
        → length (strings_wire strings) ≤ u16_max
        → length (strings_wire strings) < stated_length
        → u16_max < length (strings_wire strings) + n + 1
        → n + 1 ≤ u16_max
        → read_txt stated_length buf pos ≡ panic
    unfolding read_txt
    read_txt_panics pos strings n rest w e a b c d = rw (
        read_messages_panics (suc (length buf)) 0 pos strings [] n rest
          (omega (
            arith,
            strings-le strings,
            ap length e,
            length-append (strings_wire strings) (n ∷ rest),
            drop-length pos buf,
          ))
          w e (omega arith) (omega arith) (omega arith) d)
