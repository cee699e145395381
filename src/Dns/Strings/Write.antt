-- ===== src/Dns/Strings/Write.antt =====
-- `write_labels` of dns/src/strings.rs, onto a vector of bytes.
pub mod RoundTrip
use dog.Prelude.{ℕ, ◌≡◌, ◌++◌, Option, none, some, List, [], ◌∷◌, leb, if◌then◌else◌, length}
use dog.Dns.Strings.Defs.{Segments, Labels}

-- `none` is the error of the kind `InvalidInput`: a label that is too long for its length byte.
unfoldable pub write_segments : List ℕ → Segments → Option (List ℕ)
write_segments out [] = some (out ++ 0 ∷ [])
write_segments out (label ∷ rest) =
    if leb (length label) 255 then write_segments (out ++ length label ∷ label) rest else none

unfoldable pub write_labels : List ℕ → Labels → Option (List ℕ)
write_labels out input = write_segments out input.segments
