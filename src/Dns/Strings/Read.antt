-- ===== src/Dns/Strings/Read.antt =====
-- `read_labels` and `read_string_recursive` of dns/src/strings.rs.
--
-- The function calls itself at each pointer, and loops over the labels between pointers. `depth`
-- bounds the calls: `RECURSION_LIMIT` lets seven of them through. `fuel` bounds the rounds of one
-- loop: each takes a byte at least, so one more than the buffer has bytes is enough. `Bounds` proves
-- that neither runs out.
pub mod Bounds
pub mod Complete
use dog.Prelude.{◌≡◌, refl, ℕ, zero, suc, ◌+◌, ◌-◌, Bool, true, false, ◌||◌, List, [], ◌∷◌, ◌++◌}
use dog.Prelude.{◌==◌, leb, if◌then◌else◌, length}
use dog.Dns.Outcome.{Reader, ok, out_of_fuel, too_much_recursion, ◌>>=◌, ◌>>◌, pure, raise, add_u16}
use dog.Dns.Cursor.{read_u8, from_be_bytes}
use dog.Dns.Strings.Defs.{Segments, Labels}

abbrev pub recursion_limit : ℕ
recursion_limit = 8

unfoldable pub contains : List ℕ → ℕ → Bool
contains [] offset = false
contains (x ∷ xs) offset = x == offset || contains xs offset

abbrev pub position : Reader ℕ
position buf pos = ok (pos, pos)

abbrev pub set_position : ℕ → Reader (Unit {0})
set_position new buf pos = ok (tt, new)

-- `for _ in 0 .. byte { name_buf.push(c.read_u8()?); bytes_read += 1 }`
unfoldable pub read_name : ℕ → ℕ → List ℕ → Reader (List ℕ × ℕ)
read_name zero bytes_read name_buf = pure (name_buf, bytes_read)
read_name (suc more) bytes_read name_buf = do
  c ← read_u8
  bytes_read' ← add_u16 bytes_read 1
  read_name more bytes_read' (name_buf ++ c ∷ [])

-- The branch for a pointer, whose first byte is 0xc0 + `name_one`. `jump` is the recursive call.
unfoldable pub backtrack :
    (Segments → List ℕ → Reader (Segments × ℕ)) → Segments → List ℕ → ℕ → ℕ → Reader (Segments × ℕ)
backtrack jump segments recursions bytes_read name_one = do
  name_two ← read_u8
  bytes_read' ← add_u16 bytes_read 1
  let offset = from_be_bytes name_one name_two
  if contains recursions offset then raise (too_much_recursion recursions) else do
    let recursions' = recursions ++ offset ∷ []
    if leb recursion_limit (length recursions') then raise (too_much_recursion recursions') else do
      new_pos ← position
      set_position offset
      (segments', _) ← jump segments recursions'
      set_position new_pos
      pure (segments', bytes_read')

-- One round of the loop; `again` is the rest of the loop.
unfoldable pub read_round :
    (Segments → List ℕ → Reader (Segments × ℕ))
    → (Segments → ℕ → Reader (Segments × ℕ))
    → Segments
    → List ℕ
    → ℕ
    → Reader (Segments × ℕ)
read_round jump again segments recursions bytes_read = do
  byte ← read_u8
  bytes_read' ← add_u16 bytes_read 1
  if byte == 0
      then pure (segments, bytes_read')
      else if leb 0xc0 byte
      then backtrack jump segments recursions bytes_read' (byte - 0xc0)
      else do
        (name_buf, bytes_read'') ← read_name byte bytes_read' []
        again (segments ++ name_buf ∷ []) bytes_read''

unfoldable pub read_string : ℕ → ℕ → Segments → List ℕ → ℕ → Reader (Segments × ℕ)
read_string depth zero segments recursions bytes_read = λ buf pos. out_of_fuel
read_string zero (suc fuel) segments recursions bytes_read =
    read_round (λ segments' recursions' buf pos. out_of_fuel)
      (λ segments' bytes_read'. read_string zero fuel segments' recursions bytes_read') segments
      recursions bytes_read
read_string (suc depth) (suc fuel) segments recursions bytes_read =
    read_round
      (λ segments' recursions' buf.
        read_string depth (suc (length buf)) segments' recursions' 0 buf)
      (λ segments' bytes_read'. read_string (suc depth) fuel segments' recursions bytes_read')
      segments recursions bytes_read

unfoldable pub read_labels : Reader (Labels × ℕ)
read_labels buf =
    (do
      (segments, bytes_read) ← read_string 7 (suc (length buf)) [] [] 0
      pure (record { segments = segments }, bytes_read))
      buf

two_labels :
    read_labels (3 ∷ b'o' ∷ b'n' ∷ b'e' ∷ 0xc0 ∷ 6 ∷ 3 ∷ b't' ∷ b'w' ∷ b'o' ∷ 0 ∷ []) 0
    ≡ ok ((record { segments = (b'o' ∷ b'n' ∷ b'e' ∷ []) ∷ (b't' ∷ b'w' ∷ b'o' ∷ []) ∷ [] }, 6), 6)
unfolding read_labels read_string read_round backtrack read_name contains read_u8
two_labels = refl
