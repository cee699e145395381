-- ===== src/Dns/Records/Text.antt =====
-- The record types that hold strings: hinfo.rs, caa.rs, uri.rs, naptr.rs and txt.rs of
-- dns/src/record, and `read_character_string` of dns/src/wire.rs.
pub mod Bounds
pub mod Overflow
use Prim.Native.Nat.{bit_and}
use dog.Prelude.{
  ℕ, zero, suc, ◌+◌, ◌-◌, Bool, List, [], ◌∷◌, ◌++◌, ◌==◌, leb, ltb, if◌then◌else◌, length,
}
use dog.Dns.Outcome.{
  Reader, ok, out_of_fuel, ◌>>=◌, pure, raise, wrong_record_length, at_least, add_u16, sub_u16,
  saturating_add, check_length,
}
use dog.Dns.Cursor.{ByteOrder, read_u8, read_exact, read_u16}
use dog.Dns.Strings.Defs.{Labels}
use dog.Dns.Strings.Read.{read_labels}

pub record Hinfo : Type 0 where
  pub cpu : List ℕ
  pub os : List ℕ

pub record Caa : Type 0 where
  pub critical : Bool
  pub tag : List ℕ
  pub value : List ℕ

pub record Uri : Type 0 where
  pub priority : ℕ
  pub weight : ℕ
  pub target : List ℕ

pub record Naptr : Type 0 where
  pub order : ℕ
  pub preference : ℕ
  pub flags : List ℕ
  pub service : List ℕ
  pub regex : List ℕ
  pub replacement : Labels

pub record Txt : Type 0 where
  pub messages : List (List ℕ)

-- The string, and the number of bytes that it takes with its length byte.
unfoldable pub read_character_string : Reader (List ℕ × ℕ)
read_character_string = do
  length ← read_u8
  bytes ← read_exact length
  total ← add_u16 1 length
  pure (bytes, total)

unfoldable pub read_hinfo : ℕ → Reader Hinfo
read_hinfo stated_length = do
  cpu_length ← read_u8
  cpu ← read_exact cpu_length
  os_length ← read_u8
  os ← read_exact os_length
  with_cpu ← add_u16 1 cpu_length
  with_byte ← add_u16 with_cpu 1
  length_after_labels ← add_u16 with_byte os_length
  check_length stated_length length_after_labels (record { cpu = cpu; os = os })

-- The two `saturating_sub` are the subtraction that stops at 0.
unfoldable pub read_caa : ℕ → Reader Caa
read_caa stated_length = do
  flags ← read_u8
  let critical = bit_and flags 0b1000_0000 == 0b1000_0000
  tag_length ← read_u8
  tag ← read_exact tag_length
  let remaining_length = stated_length - tag_length - 2
  value ← read_exact remaining_length
  pure (record { critical = critical; tag = tag; value = value })

-- `for _ in 0 .. next_length { buf.push(c.read_u8()?) }`
unfoldable pub push_bytes : ℕ → List ℕ → Reader (List ℕ)
push_bytes zero buf = pure buf
push_bytes (suc more) buf = do byte ← read_u8; push_bytes more (buf ++ byte ∷ [])

-- What an inner loop of `TXT::read` leaves: the bytes of one message, and the total so far.
-- Fuel: each round takes a byte at least, so one more than the buffer has bytes is enough.
unfoldable pub read_message : ℕ → ℕ → ℕ → List ℕ → Reader (List ℕ × ℕ)
read_message zero stated_length total_length buf = λ bytes pos. out_of_fuel
read_message (suc fuel) stated_length total_length buf = do
  next_length ← read_u8
  step ← add_u16 next_length 1
  total_length' ← add_u16 total_length step
  buf' ← push_bytes next_length buf
  if ltb next_length 255
      then pure (buf', total_length')
      else if leb stated_length total_length'
      then pure (buf', total_length')
      else read_message fuel stated_length total_length' buf'

-- The outer loop, on fuel too.
unfoldable pub read_messages : ℕ → ℕ → ℕ → List (List ℕ) → Reader (List (List ℕ) × ℕ)
read_messages zero stated_length total_length messages = λ bytes pos. out_of_fuel
read_messages (suc fuel) stated_length total_length messages = do
  inner ← λ bytes pos. ok (suc (length bytes), pos)
  (message, total_length') ← read_message inner stated_length total_length []
  let messages' = messages ++ message ∷ []
  if leb stated_length total_length'
      then pure (messages', total_length')
      else read_messages fuel stated_length total_length' messages'

unfoldable pub read_txt : ℕ → Reader Txt
read_txt stated_length = do
  outer ← λ bytes pos. ok (suc (length bytes), pos)
  (messages, total_length) ← read_messages outer stated_length 0 []
  check_length stated_length total_length (record { messages = messages })

module _ ⦃B : ByteOrder⦄ where
  unfoldable pub read_uri : ℕ → Reader Uri
  read_uri stated_length = do
    priority ← read_u16
    weight ← read_u16
    if leb stated_length 4 then raise (wrong_record_length stated_length (at_least 5)) else do
      remaining_length ← sub_u16 stated_length 4
      target ← read_exact remaining_length
      pure (record { priority = priority; weight = weight; target = target })

  unfoldable pub read_naptr : ℕ → Reader Naptr
  read_naptr stated_length = do
    order ← read_u16
    preference ← read_u16
    (flags, flags_length) ← read_character_string
    (service, service_length) ← read_character_string
    (regex, regex_length) ← read_character_string
    (replacement, replacement_length) ← read_labels
    with_flags ← add_u16 (2 + 2) flags_length
    with_service ← add_u16 with_flags service_length
    with_regex ← add_u16 with_service regex_length
    let length_after_labels = saturating_add with_regex replacement_length
    check_length stated_length length_after_labels (record {
      order = order;
      preference = preference;
      flags = flags;
      service = service;
      regex = regex;
      replacement = replacement;
    })
