-- ===== src/Dns/Records/Loc.antt =====
-- loc.rs of dns/src/record: positions on Earth.
pub mod Bounds
pub mod Angles
pub mod Heights
use Prim.Native.Nat.{bit_and}
use dog.Prelude.{ℕ, ◌+◌, ◌-◌, ◌*◌, ◌/◌, ◌%◌, ◌^◌, Bool, true, false, ◌||◌, not, Option, none, some}
use dog.Prelude.{◌==◌, leb, ltb, if◌then◌else◌}
use dog.Prelude.Int.{ℤ, sub_ℕ, div_trunc, mod_trunc}
use dog.Dns.Outcome.{Reader, ◌>>=◌, pure, raise, wrong_version, wrong_record_length, exactly}
use dog.Dns.Cursor.{ByteOrder, read_u8, read_u32}

pub record Size : Type 0 where
  pub base : ℕ
  pub power_of_ten : ℕ

pub data Direction : Type 0 where
  north east south west : Direction

pub record Position : Type 0 where
  pub degrees : ℕ
  pub arcminutes : ℕ
  pub arcseconds : ℕ
  pub milliarcseconds : ℕ
  pub direction : Direction

pub record Altitude : Type 0 where
  pub metres : ℤ
  pub centimetres : ℤ

pub record Loc : Type 0 where
  pub size : Size
  pub horizontal_precision : Size
  pub vertical_precision : Size
  pub latitude : Option Position
  pub longitude : Option Position
  pub altitude : Altitude

-- `Size::from_u8`
unfoldable pub size_from_u8 : ℕ → Size
size_from_u8 input = record { base = input / 16; power_of_ten = bit_and input 0b1111 }

-- `Size::centimetres`
unfoldable pub size_centimetres : Size → ℕ
size_centimetres size = size.base * 10 ^ size.power_of_ten

-- 2^31 is the equator or the prime meridian.
abbrev pub middle : ℕ
middle = 0x8000_0000

abbrev pub position_limit : Bool → ℕ
position_limit vertical = 1000 * 60 * 60 * (if vertical then 90 else 180)

-- `let mut pos = ...?; pos.direction = direction; Some(pos)`
unfoldable pub turn : Option Position → Direction → Option Position
turn none direction = none
turn (some position) direction = some (record position { direction = direction })

-- The body of `Position::from_u32`; `again` is its call of itself.
unfoldable pub position_body : (ℕ → Bool → Option Position) → ℕ → Bool → Option Position
position_body again input vertical =
    let limit = position_limit vertical in
    if ltb input (middle - limit) || ltb (middle + limit) input
    then none
    else if leb middle input
    then (let input' = input - middle in
        let total_arcseconds = input' / 1000 in
        let total_arcminutes = total_arcseconds / 60 in
        some (record {
          degrees = total_arcminutes / 60;
          arcminutes = total_arcminutes % 60;
          arcseconds = total_arcseconds % 60;
          milliarcseconds = input' % 1000;
          direction = if vertical then north else east;
        }))
    else turn (again (input + (middle - input) * 2) vertical) (if vertical then south else west)

-- The call that the body makes is for a number that is not below the middle, so it makes no other.
unfoldable pub position_from_u32 : ℕ → Bool → Option Position
position_from_u32 = position_body (position_body (λ input vertical. none))

-- `Altitude::from_u32`; the base is 100,000 metres below the spheroid.
unfoldable pub altitude_from_u32 : ℕ → Altitude
altitude_from_u32 input =
    let input' = sub_ℕ input 10_000_000 in
    record { metres = div_trunc input' 100; centimetres = mod_trunc input' 100 }

module _ ⦃B : ByteOrder⦄ where
  unfoldable pub read_loc : ℕ → Reader Loc
  read_loc stated_length = do
    version ← read_u8
    if not (version == 0)
        then raise (wrong_version version 0)
        else if not (stated_length == 16)
        then raise (wrong_record_length stated_length (exactly 16))
        else do
          size_bits ← read_u8
          horizontal_bits ← read_u8
          vertical_bits ← read_u8
          latitude_num ← read_u32
          longitude_num ← read_u32
          altitude_num ← read_u32
          pure (record {
            size = size_from_u8 size_bits;
            horizontal_precision = size_from_u8 horizontal_bits;
            vertical_precision = size_from_u8 vertical_bits;
            latitude = position_from_u32 latitude_num true;
            longitude = position_from_u32 longitude_num false;
            altitude = altitude_from_u32 altitude_num;
          })
