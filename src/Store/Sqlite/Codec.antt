-- ===== src/Store/Sqlite/Codec.antt =====
-- store/sqlite/codec.py. A text column holds a value in the form that `isoformat` or
-- `json.dumps` wrote, or text that another program wrote. It is represented by what reading it
-- back gives. Nesting beyond the recursion limit and integers of more than 4300 digits are left
-- out.
pub mod Sorting
pub mod RoundTrip
pub mod Keeping
use snapshot_fs.Prelude.{
  Bool, true, false, ◌≡◌, refl, ap, Option, none, some, List, [], ◌∷◌, ℤ, pos, negsuc, Text, Result,
  ok, err, ◌>>=◌, if◌then◌else◌,
}
use snapshot_fs.Model.Message.{Error, says, lit, exception, type_error, value_error}
use snapshot_fs.Model.DateTime.{DateTime, Zoned}
use snapshot_fs.Model.Metadata.{
  Float, Value, null, bool, int, float, str, list, frozen_list, dict, proxy, other, Items, nil,
  cons, Fields, end, field, Metadata, thaw_metadata,
}
use snapshot_fs.Store.Memory.Store.{bytes_le}

-- The zone of a time that was read from text: a fixed offset, under a key that no named zone has.
abbrev fixed_key : ℤ → Text
fixed_key (pos n) = 0x2B ∷ n ∷ []
fixed_key (negsuc n) = 0x2D ∷ n ∷ []

abbrev pub fixed_zone : Zoned → Zoned
fixed_zone z = record { key = fixed_key z.offset; offset = z.offset; other_offset = z.offset }

-- The time that the text of a time stands for.
unfoldable pub fixed : DateTime → DateTime
fixed t = record t { zone = elim t.zone [ none ↦ none | some z ↦ some (fixed_zone z) ] }

pub data IsoText : Type 0 where
  iso : DateTime → IsoText
  malformed : Text → IsoText

unfoldable pub encode_datetime : Option DateTime → Option IsoText
unfolding fixed
encode_datetime none = none
encode_datetime (some t) = some (iso (fixed t))

unfoldable pub decode_datetime : Option IsoText → Result Error (Option DateTime)
decode_datetime none = ok none
decode_datetime (some (iso t)) = ok (some t)
decode_datetime (some (malformed text)) =
    err (value_error (exception "Invalid isoformat string" ∷ []))

-- `compact v` is what `json.dumps` with the options of `encode_metadata` writes for `v`;
-- `spelled` is other text that reads as `v`.
pub data JsonText : Type 0 where
  compact : Value → JsonText
  spelled : Text → Value → JsonText
  malformed : Text → JsonText

unfoldable pub key_le : Value → Value → Bool
unfolding bytes_le
key_le (str a) (str b) = bytes_le a b
key_le a b = true

unfoldable pub insert_field : Value → Value → Fields → Fields
unfolding key_le
insert_field key item end = field key item end
insert_field key item (field k i rest) =
    if key_le key k then field key item (field k i rest) else field k i (insert_field key item rest)

-- `sort_keys=True`
unfoldable mutual
  unfolding insert_field

  pub sort_value : Value → Value
  sort_value (dict fields) = dict (sort_fields fields)
  sort_value (list items) = list (sort_items items)
  sort_value v = v

  pub sort_items : Items → Items
  sort_items nil = nil
  sort_items (cons v vs) = cons (sort_value v) (sort_items vs)

  pub sort_fields : Fields → Fields
  sort_fields end = end
  sort_fields (field key item rest) = insert_field key (sort_value item) (sort_fields rest)

unfoldable pub string_keys : Fields → Bool
string_keys end = true
string_keys (field (str key) item rest) = string_keys rest
string_keys (field key item rest) = false

unfoldable mutual
  unfolding string_keys

  pub validate_json : Value → Result Error (Unit {0})
  validate_json null = ok tt
  validate_json (bool b) = ok tt
  validate_json (int n) = ok tt
  validate_json (str text) = ok tt
  validate_json (float (Float.finite bits)) = ok tt
  validate_json (float x) = err (value_error (says "metadata contains a non-finite number"))
  validate_json (list items) = validate_items items
  validate_json (dict fields) =
      let rest = validate_fields fields in
      if string_keys fields
      then rest
      else err (type_error (says "metadata object keys must be strings"))
  validate_json (frozen_list items) = err (type_error (says "unsupported metadata value tuple"))
  validate_json (proxy fields) = err (type_error (says "unsupported metadata value mappingproxy"))
  validate_json (other name) = err (type_error (lit "unsupported metadata value " ∷ lit name ∷ []))

  pub validate_items : Items → Result Error (Unit {0})
  validate_items nil = ok tt
  validate_items (cons v vs) = do _ ← validate_json v; validate_items vs

  pub validate_fields : Fields → Result Error (Unit {0})
  validate_fields end = ok tt
  validate_fields (field key item rest) = do _ ← validate_json item; validate_fields rest

unfoldable pub encode_metadata : Metadata → Result Error JsonText
unfolding thaw_metadata validate_json sort_value
encode_metadata metadata =
    let value = dict (thaw_metadata metadata) in
    do _ ← validate_json value; ok (compact (sort_value value))

unfoldable pub object_of : Value → Result Error Metadata
unfolding string_keys
object_of (dict fields) =
    if string_keys fields
    then ok fields
    else err (value_error (says "metadata must be a JSON object with string keys"))
object_of v = err (value_error (says "metadata must be a JSON object with string keys"))

unfoldable pub decode_metadata : JsonText → Result Error Metadata
unfolding object_of
decode_metadata (JsonText.compact v) = object_of v
decode_metadata (JsonText.spelled text v) = object_of v
decode_metadata (JsonText.malformed text) = err (value_error (exception "JSONDecodeError" ∷ []))
