-- ===== src/Dns/Records/Loc/Angles.antt =====
-- What the numbers of a LOC record stand for.
use dog.Prelude.{
  ℕ, ◌+◌, ◌-◌, ◌*◌, ◌/◌, ◌%◌, ◌≤◌, ◌<◌, ◌≡◌, refl, ap, ◌∙◌, ◌⊎◌, inl, inr, Bool-cases, leb→le,
  leb→gt, Bool, true, false, Option, none, some, arith, if◌then◌else◌, leb,
}
use dog.Dns.Records.Loc.{
  Position, Direction, north, east, south, west, middle, position_limit, position_body,
  position_from_u32, turn,
}

abbrev pub distance : ℕ → ℕ
distance input = (input - middle) + (middle - input)

-- The position at a distance from the middle, in thousandths of an arcsecond.
abbrev pub IsAt : ℕ → Direction → Position → Type 0
IsAt d direction p =
    (((p.degrees * 60 + p.arcminutes) * 60 + p.arcseconds) * 1000 + p.milliarcseconds ≡ d)
    × (p.arcminutes < 60)
    × (p.arcseconds < 60)
    × (p.milliarcseconds < 1000)
    × (p.direction ≡ direction)

abbrev pub toward : ℕ → Bool → Direction
toward input vertical =
    if leb middle input
    then (if vertical then north else east)
    else (if vertical then south else west)

abbrev apart : ℕ → Direction → Position
apart d direction = record {
  degrees = d / 1000 / 60 / 60;
  arcminutes = d / 1000 / 60 % 60;
  arcseconds = d / 1000 % 60;
  milliarcseconds = d % 1000;
  direction = direction;
}

apart-IsAt : (d : ℕ) (direction : Direction) → IsAt d direction (apart d direction)
apart-IsAt d direction = (omega arith, omega arith, omega arith, omega arith, refl)

module _ (again : ℕ → Bool → Option Position) where
  body_above :
      (input : ℕ) (vertical : Bool)
      → middle ≤ input
      → input - middle ≤ position_limit vertical
      → position_body again input vertical
        ≡ some (apart (input - middle) (if vertical then north else east))
  unfolding position_body
  body_above input true h l = ground arith
  body_above input false h l = ground arith

  body_below :
      (input : ℕ) (vertical : Bool)
      → input < middle
      → middle - input ≤ position_limit vertical
      → position_body again input vertical
        ≡ turn (again (input + (middle - input) * 2) vertical) (if vertical then south else west)
  unfolding position_body
  body_below input true h l = ground arith
  body_below input false h l = ground arith

  body_far :
      (input : ℕ) (vertical : Bool)
      → position_limit vertical < distance input
      → position_body again input vertical ≡ none
  unfolding position_body
  body_far input true h = ground arith
  body_far input false h = ground arith

found :
    (input : ℕ) (vertical : Bool)
    → distance input ≤ position_limit vertical
    → position_from_u32 input vertical ≡ some (apart (distance input) (toward input vertical))
unfolding position_from_u32 turn
found input vertical near = elim (Bool-cases (leb middle input)) [
  | inl above ↦
      let h = leb→le middle input above in
      let d : input - middle ≡ distance input = omega arith in
      rw above (
        body_above _ input vertical h (omega arith)
        ∙ ap (λ k. some (apart k (if vertical then north else east))) d)
  | inr below ↦
      let h = leb→gt middle input below in
      let reflected = input + (middle - input) * 2 in
      let d : reflected - middle ≡ distance input = omega arith in
      rw below (
        body_below _ input vertical h (omega arith)
        ∙ rw (body_above (λ i v. none) reflected vertical (omega arith) (omega arith), d))
]

-- A latitude at most 90 degrees, or a longitude at most 180 degrees, from the middle is taken
-- apart into degrees, minutes, seconds and thousandths that add up to that distance, each below
-- its bound, with the direction of the side of the middle. Any number further off gives no
-- position.
pub position_from_u32_lem :
    (input : ℕ) (vertical : Bool)
    → ((distance input ≤ position_limit vertical)
        × ((p : Position) × (position_from_u32 input vertical ≡ some p)
            × IsAt (distance input) (toward input vertical) p))
      ⊎ ((position_limit vertical < distance input) × (position_from_u32 input vertical ≡ none))
unfolding position_from_u32
position_from_u32_lem input vertical =
    elim (Bool-cases (leb (distance input) (position_limit vertical))) [
      | inl near ↦ inl (
        leb→le (distance input) _ near,
        (
          apart (distance input) (toward input vertical),
          found input vertical (leb→le (distance input) _ near),
          apart-IsAt _ _,
        ),
      )
      | inr far ↦ inr (leb→gt _ _ far, body_far _ input vertical (leb→gt _ _ far))
    ]
