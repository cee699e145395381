-- ===== src/Dns/Records/Loc/Heights.antt =====
-- What the altitude of a LOC record stands for.
use dog.Prelude.{
  ℕ, zero, suc, ◌+◌, ◌-◌, ◌*◌, ◌/◌, ◌%◌, ◌<◌, ◌≡◌, Bool-cases, inl, inr, arith, leb, leb→le, leb→gt,
}
use dog.Prelude.Int.{neg, pos_part, neg_part}
use dog.Dns.Records.Loc.{Altitude, altitude_from_u32}

-- The whole, in centimetres, above and below.
abbrev pub above : Altitude → ℕ
above a = pos_part a.metres * 100 + pos_part a.centimetres

abbrev pub below : Altitude → ℕ
below a = neg_part a.metres * 100 + neg_part a.centimetres

pos_part-neg : (n : ℕ) → (pos_part (neg n) ≡ 0) × (neg_part (neg n) ≡ n)
pos_part-neg zero = omega arith
pos_part-neg (suc n) = omega arith

-- The metres and centimetres of an altitude add up, in centimetres, to the number less ten
-- million: their parts above zero to how far it is above, and their parts below zero to how far
-- it is below. Fewer than 100 centimetres are left either way.
pub altitude_from_u32_lem :
    (input : ℕ)
    → (above (altitude_from_u32 input) ≡ input - 10000000)
      × (below (altitude_from_u32 input) ≡ 10000000 - input)
      × (pos_part (altitude_from_u32 input).centimetres < 100)
      × (neg_part (altitude_from_u32 input).centimetres < 100)
unfolding altitude_from_u32
altitude_from_u32_lem input = elim (Bool-cases (leb 10000000 input)) [
  | inl up ↦ let h = leb→le 10000000 input up in rw up (omega arith)
  | inr down ↦
      let h = leb→gt 10000000 input down in
      let n = 10000000 - input in
      let metres = pos_part-neg (suc (n - 1) / 100) in
      let rest = pos_part-neg (suc (n - 1) % 100) in rw down (omega arith)
]
