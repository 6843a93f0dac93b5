-- ===== src/Model/DateTime.antt =====
-- Python's `datetime`, naive or aware, and its `==`.
use snapshot_fs.Prelude.{
  ℕ, zero, suc, ◌+◌, ◌-◌, ◌*◌, ◌/◌, ◌%◌, ◌≡◌, Bool, true, false, not, ◌&&◌, ◌||◌, Option, none,
  some, ℤ, pos, negsuc, int_eq, Text, text_eq, text_eq_refl, ◌==◌, if◌then◌else◌, arith,
}

-- An aware value carries the key of its zone and the UTC offsets in seconds that the zone gives
-- for it, with its own `fold` and with the other one.
pub record Zoned : Type 0 where
  pub key : Text
  pub offset : ℤ
  pub other_offset : ℤ

pub record DateTime : Type 0 where
  pub year : ℕ
  pub month : ℕ
  pub day : ℕ
  pub hour : ℕ
  pub minute : ℕ
  pub second : ℕ
  pub microsecond : ℕ
  pub zone : Option Zoned

pub is_leap : ℕ → Bool
is_leap y = y % 4 == 0 && (not (y % 100 == 0) || y % 400 == 0)

unfoldable pub days_in_month : ℕ → ℕ → ℕ
unfolding is_leap
days_in_month y m =
    if m == 2
    then (if is_leap y then 29 else 28)
    else if (m == 4 || m == 6) || (m == 9 || m == 11)
    then 30
    else 31

-- The days of the `n` months from month `m` on.
days_of_months : ℕ → ℕ → ℕ → ℕ
days_of_months y m zero = 0
days_of_months y m (suc n) = days_in_month y m + days_of_months y (suc m) n

to_ordinal : DateTime → ℕ
unfolding days_of_months
to_ordinal t =
    let y = t.year - 1 in
    y * 365 + y / 4 - y / 100 + y / 400 + days_of_months t.year 1 (t.month - 1) + t.day

-- Wall-clock seconds since the first day.
wall_seconds : DateTime → ℕ
unfolding to_ordinal
wall_seconds t = to_ordinal t * 86400 + t.hour * 3600 + t.minute * 60 + t.second

abbrev east : ℤ → ℕ
east (pos n) = n
east (negsuc n) = 0

abbrev west : ℤ → ℕ
west (pos n) = 0
west (negsuc n) = suc n

unfoldable pub same_fields : DateTime → DateTime → Bool
same_fields a b =
    ((a.year == b.year && a.month == b.month) && (a.day == b.day && a.hour == b.hour))
    && ((a.minute == b.minute && a.second == b.second) && a.microsecond == b.microsecond)

same_instant : DateTime → ℤ → DateTime → ℤ → Bool
unfolding wall_seconds
same_instant a oa b ob =
    wall_seconds a + west oa + east ob == wall_seconds b + west ob + east oa
    && a.microsecond == b.microsecond

-- `datetime.__eq__`: within one zone the fields are compared; between zones the instants are, and
-- a value whose offset depends on `fold` equals none of another zone.
same_zoned : DateTime → DateTime → Option Zoned → Option Zoned → Bool
unfolding same_fields same_instant
same_zoned a b none none = same_fields a b
same_zoned a b none (some y) = false
same_zoned a b (some x) none = false
same_zoned a b (some x) (some y) =
    if text_eq x.key y.key
    then same_fields a b
    else (int_eq x.offset x.other_offset && int_eq y.offset y.other_offset)
      && same_instant a x.offset b y.offset

unfoldable pub same_time : DateTime → DateTime → Bool
unfolding same_zoned
same_time a b = same_zoned a b a.zone b.zone

same_fields_refl : (a : DateTime) → same_fields a a ≡ true
unfolding same_fields
same_fields_refl a = ground arith

same_zoned_refl : (a : DateTime) (z : Option Zoned) → same_zoned a a z z ≡ true
unfolding same_zoned
same_zoned_refl a none = same_fields_refl a
same_zoned_refl a (some x) = rw (text_eq_refl x.key) (same_fields_refl a)

pub same_time_refl : (a : DateTime) → same_time a a ≡ true
unfolding same_time
same_time_refl a = same_zoned_refl a a.zone
