-- ===== src/Dns/Strings/Write/RoundTrip.antt =====
-- A name that was written is read back, wherever it stands in a message.
use dog.Prelude.{
  ℕ, ◌+◌, ◌-◌, ◌≤◌, ◌≡◌, refl, sym, ap, ◌∙◌, some, List, [], ◌∷◌, ◌++◌, arith, le→leb,
}
use dog.Prelude.{
  length, length-append, All, append_assoc, drop, take, drop-append, take-append, drop-drop,
  get_elem?-drop, drop-suc, drop-length,
}
use dog.Dns.Outcome.{ok, u16_max}
use dog.Dns.Strings.Defs.{Segments, Labels, segments_length, wire_length}
use dog.Dns.Strings.Decodes.{Decodes, IsLabel, finish_at, label_at}
use dog.Dns.Strings.Read.{read_labels}
use dog.Dns.Strings.Read.Complete.{read_labels_at}
use dog.Dns.Strings.Write.{write_segments, write_labels}
use mathlib.Core.Path.{subst}
use native.Mathlib.Numerals.{add-one}

-- The bytes of a name: each label behind its length, and a zero.
abbrev pub wire : Segments → List ℕ
wire [] = 0 ∷ []
wire (segment ∷ rest) = length segment ∷ (segment ++ wire rest)

pub length-wire : (segments : Segments) → length (wire segments) ≡ segments_length segments + 1
unfolding segments_length
length-wire [] = omega arith
length-wire (segment ∷ rest) = omega (arith, length-append segment (wire rest), length-wire rest)

abbrev FitsByte : List ℕ → Type 0
FitsByte segment = length segment ≤ 255

pub write_segments_lem :
    (out : List ℕ) (segments : Segments)
    → All FitsByte segments
    → write_segments out segments ≡ some (out ++ wire segments)
unfolding write_segments
write_segments_lem out [] h = refl
write_segments_lem out (segment ∷ rest) h = rw (le→leb (length segment) 255 h.0) (
    write_segments_lem (out ++ length segment ∷ segment) rest h.1
    ∙ ap some (append_assoc out (length segment ∷ segment) (wire rest)))

pub IsLabel-fits : (segments : Segments) → All IsLabel segments → All FitsByte segments
IsLabel-fits [] h = tt
IsLabel-fits (segment ∷ rest) (h, hs) = (omega arith, IsLabel-fits rest hs)

-- Where the bytes of a name stand, the name stands, with no pointer.
pub Decodes-wire :
    (buf : List ℕ) (pos : ℕ) (segments : Segments) (rest : List ℕ)
    → All IsLabel segments
    → drop pos buf ≡ wire segments ++ rest
    → Decodes buf 0 pos segments (pos + segments_length segments + 1)
unfolding segments_length
Decodes-wire buf pos [] rest h e = finish_at (get_elem?-drop buf pos e) refl (omega arith)
Decodes-wire buf pos (segment ∷ more) rest (h, hs) e =
    let n = length segment in
    let behind : drop (pos + 1) buf ≡ segment ++ (wire more ++ rest) =
      ap (λ q. drop q buf) (add-one pos)
      ∙ drop-suc pos buf e
      ∙ append_assoc segment (wire more) rest in
    let next : drop (pos + 1 + n) buf ≡ wire more ++ rest =
      sym (drop-drop n (pos + 1) buf)
      ∙ ap (drop n) behind
      ∙ drop-append segment (wire more ++ rest) in
    let room : pos + 1 + n ≤ length buf = omega (
      arith,
      drop-length pos buf,
      ap length e,
      length-append (length segment ∷ (segment ++ wire more)) rest,
      length-append segment (wire more),
    ) in
    let end : pos + 1 + n + segments_length more + 1 ≡ pos + (n + 1 + segments_length more) + 1 =
      omega arith in
    subst (λ q. Decodes buf 0 pos (segment ∷ more) q) end
      (label_at (get_elem?-drop buf pos e) (omega arith) (omega arith) refl room
        (sym (ap (take n) behind ∙ take-append segment (wire more ++ rest)))
        (Decodes-wire buf (pos + 1 + n) more rest hs next))

-- A name whose bytes stand at a position is read there.
pub read_labels-wire :
    (buf : List ℕ) (fits : length buf ≤ u16_max) (pos : ℕ) (segments : Segments) (rest : List ℕ)
    → All IsLabel segments
    → drop pos buf ≡ wire segments ++ rest
    → read_labels buf pos
      ≡ ok ((record { segments = segments }, length (wire segments)), pos + length (wire segments))
read_labels-wire buf fits pos segments rest h e =
    let total = length-wire segments in
    let end : pos + segments_length segments + 1 ≡ pos + length (wire segments) = omega arith in
    let count : pos + segments_length segments + 1 - pos ≡ length (wire segments) = omega arith in
    read_labels_at buf fits (Decodes-wire buf pos segments rest h e) (omega arith) ∙ cc

-- For labels of 1 to 191 bytes, `write_labels` appends a name, and `read_labels` reads it back
-- from where it was written, whatever stands before and after it, if all of it fits in 65,535
-- bytes; the count is the `wire_length`, and the cursor is left right behind the name.
pub read_labels-write_labels :
    (out rest : List ℕ) (labels : Labels)
    → All IsLabel labels.segments
    → length out + wire_length labels + length rest ≤ u16_max
    → (bytes : List ℕ) × (write_labels out labels ≡ some bytes)
      × (read_labels (bytes ++ rest) (length out) ≡ ok ((labels, wire_length labels), length bytes))
unfolding write_labels wire_length
read_labels-write_labels out rest labels h fits =
    let bytes = out ++ wire labels.segments in
    let total = length-append out (wire labels.segments) in
    let inner = length-wire labels.segments in
    let behind : drop (length out) (bytes ++ rest) ≡ wire labels.segments ++ rest =
      ap (drop (length out)) (append_assoc out (wire labels.segments) rest) ∙ drop-append out _ in
    let reads =
      read_labels-wire (bytes ++ rest) (omega (arith, length-append bytes rest)) (length out)
        labels.segments rest h behind in
    let end : length out + length (wire labels.segments) ≡ length bytes = omega arith in
    (bytes, write_segments_lem out labels.segments (IsLabel-fits _ h), reads ∙ cc)
