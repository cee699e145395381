-- ===== src/Dns/Strings/Display.antt =====
-- `Display` of `Labels` in dns/src/strings.rs: a name as text, in code points.
pub mod Injective
use dog.Prelude.{ℕ, ◌+◌, ◌/◌, ◌%◌, ◌≤◌, ◌||◌, ◌&&◌, List, [], ◌∷◌, ◌++◌, arith, if◌then◌else◌}
use dog.Prelude.{◌==◌, leb, All, All-append}
use dog.Dns.Cursor.{IsByte}
use dog.Dns.Strings.Defs.{Segments, Labels}

unfoldable pub write_name_byte : ℕ → List ℕ
write_name_byte byte =
    if byte == b'.' || byte == b'\\' || byte == b'"'
    then b'\\' ∷ byte ∷ []
    else if leb 0x21 byte && leb byte 0x7e
    then byte ∷ []
    else b'\\' ∷ (b'0' + byte / 100) ∷ (b'0' + byte / 10 % 10) ∷ (b'0' + byte % 10) ∷ []

unfoldable pub write_segment : List ℕ → List ℕ
write_segment [] = []
write_segment (byte ∷ bytes) = write_name_byte byte ++ write_segment bytes

unfoldable pub write_name : Segments → List ℕ
write_name [] = []
write_name (segment ∷ rest) = write_segment segment ++ (b'.' ∷ write_name rest)

-- The root is a lone dot.
unfoldable pub display_segments : Segments → List ℕ
display_segments [] = b'.' ∷ []
display_segments (segment ∷ rest) = write_name (segment ∷ rest)

abbrev pub display : Labels → List ℕ
display labels = display_segments labels.segments

-- A character of printable ASCII that is not a space.
abbrev pub IsPrintable : ℕ → Type 0
IsPrintable c = (0x21 ≤ c) × (c ≤ 0x7e)

write_name_byte-IsPrintable : (byte : ℕ) → IsByte byte → All IsPrintable (write_name_byte byte)
unfolding write_name_byte
write_name_byte-IsPrintable byte h = ground arith

write_segment-IsPrintable :
    (segment : List ℕ) → All IsByte segment → All IsPrintable (write_segment segment)
unfolding write_segment
write_segment-IsPrintable [] h = tt
write_segment-IsPrintable (byte ∷ bytes) (h, hs) =
    All-append IsPrintable (write_name_byte byte) _ (write_name_byte-IsPrintable byte h)
      (write_segment-IsPrintable bytes hs)

write_name-IsPrintable :
    (segments : Segments) → All (All IsByte) segments → All IsPrintable (write_name segments)
unfolding write_name
write_name-IsPrintable [] h = tt
write_name-IsPrintable (segment ∷ rest) (h, hs) =
    All-append IsPrintable (write_segment segment) _ (write_segment-IsPrintable segment h)
      (omega arith, write_name-IsPrintable rest hs)

display_segments-IsPrintable :
    (segments : Segments) → All (All IsByte) segments → All IsPrintable (display_segments segments)
unfolding display_segments
display_segments-IsPrintable [] h = omega arith
display_segments-IsPrintable (segment ∷ rest) h = write_name-IsPrintable (segment ∷ rest) h

-- A name of any bytes is displayed in printable ASCII without spaces: no control character and
-- no byte above 0x7e gets through.
pub display-IsPrintable :
    (labels : Labels) → All (All IsByte) labels.segments → All IsPrintable (display labels)
display-IsPrintable labels h = display_segments-IsPrintable labels.segments h
