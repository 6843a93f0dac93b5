-- ===== src/Parser/Timestamps.antt =====
-- timestamps.py: `localize`. The zone database is outside: a zone is what it answers.
use snapshot_fs.Prelude.{
  Bool, true, false, not, Option, none, some, [], ◌∷◌, ℤ, pos, negsuc, int_eq, Text, Result, ok,
  err, ◌>>=◌, if◌then◌else◌, ltb,
}
use snapshot_fs.Model.Message.{lit, str, time, says, Error, value_error, overflow_error}
use snapshot_fs.Model.DateTime.{DateTime, same_fields}

-- `ZoneInfo`: the offset of a wall-clock time at a `fold`, the instant it denotes in seconds
-- (`astimezone(UTC)`), and the wall-clock time of an instant (`astimezone(zone)`). A conversion
-- that leaves the years from 1 to 9999 is `none`: it raises `OverflowError`.
pub record ZoneInfo : Type 0 where
  pub key : Text
  pub offset : DateTime → Bool → ℤ
  pub instant : DateTime → Bool → Option ℤ
  pub local : ℤ → Option DateTime

pub data Ambiguous : Type 0 where
  reject earlier later : Ambiguous

int_lt : ℤ → ℤ → Bool
int_lt (pos a) (pos b) = ltb a b
int_lt (pos a) (negsuc b) = false
int_lt (negsuc a) (pos b) = true
int_lt (negsuc a) (negsuc b) = ltb b a

-- `value.replace(tzinfo=zone, fold=fold)`
unfoldable pub candidate : ZoneInfo → DateTime → Bool → DateTime
candidate zone value fold = record value {
  zone = some (record {
    key = zone.key;
    offset = zone.offset value fold;
    other_offset = zone.offset value (not fold);
  });
}

abbrev pub in_range : {A : Type 0} → Option A → Result Error A
in_range (some x) = ok x
in_range none = err (overflow_error (says "date value out of range"))

-- The loop's body for one fold: the instant, if it converts back to the value.
unfoldable pub round_trip : ZoneInfo → DateTime → Bool → Result Error (Option ℤ)
unfolding same_fields
round_trip zone value fold = do
  instant ← in_range (zone.instant value fold)
  local ← in_range (zone.local instant)
  ok (if same_fields local value then some instant else none)

-- `second` tells whether the candidate of fold 1 is the earlier one.
choose : ZoneInfo → DateTime → (second : Bool) → Ambiguous → Result Error DateTime
unfolding candidate
choose zone value second Ambiguous.reject = err (
    value_error (
      lit "ambiguous local time "
      ∷ time value
      ∷ lit " in "
      ∷ str zone.key
      ∷ lit "; select --ambiguous-time earlier or later"
      ∷ []))
choose zone value second Ambiguous.earlier = ok (candidate zone value second)
choose zone value second Ambiguous.later = ok (candidate zone value (not second))

-- What follows the loop, with the instants of the folds that round-trip; when both denote one
-- instant the first is kept.
unfoldable pub pick : ZoneInfo → DateTime → Ambiguous → Option ℤ → Option ℤ → Result Error DateTime
unfolding candidate choose int_lt
pick zone value ambiguous none none = err (
    value_error (
      lit "nonexistent local time "
      ∷ time value
      ∷ lit " in "
      ∷ str zone.key
      ∷ lit "; check the source timezone and listing"
      ∷ []))
pick zone value ambiguous (some a) none = ok (candidate zone value false)
pick zone value ambiguous none (some b) = ok (candidate zone value true)
pick zone value ambiguous (some a) (some b) =
    if int_eq a b then ok (candidate zone value false) else choose zone value (int_lt b a) ambiguous

-- The value is naive.
unfoldable pub localize : DateTime → ZoneInfo → Ambiguous → Result Error DateTime
unfolding round_trip pick
localize value zone ambiguous = do
  first ← round_trip zone value false
  second ← round_trip zone value true
  pick zone value ambiguous first second
