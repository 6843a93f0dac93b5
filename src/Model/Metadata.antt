-- ===== src/Model/Metadata.antt =====
-- model/metadata.py
pub mod Freezing
use snapshot_fs.Prelude.{ℕ, Bool, ℤ, String, Text, Result, ok, err, ◌>>=◌, if◌then◌else◌, ◌∷◌, []}
use snapshot_fs.Utf8.{encodable}
use snapshot_fs.Model.Message.{lit, says, Error, type_error, value_error}

-- A float by its bits, unless it is infinite or not a number.
pub data Float : Type 0 where
  finite : ℕ → Float
  infinite : Bool → Float
  not_a_number : Float

-- What can stand in a metadata mapping. `dict` and `proxy` are the mutable and the read-only
-- mapping, `list` and `frozen_list` the two sequences, and `other` any type that is not
-- supported.
mutual
  pub data Value : Type 0 where
    null : Value
    bool : Bool → Value
    int : ℤ → Value
    float : Float → Value
    str : Text → Value
    list frozen_list : Items → Value
    dict proxy : Fields → Value
    other : String → Value

  pub data Items : Type 0 where
    nil : Items
    cons : Value → Items → Items

  pub data Fields : Type 0 where
    end : Fields
    field : Value → Value → Fields → Fields

abbrev pub Metadata : Type 0
Metadata = Fields

unfoldable pub require_unicode : Text → String → Result Error (Unit {0})
require_unicode value description =
    if encodable value
    then ok tt
    else err (value_error (lit description ∷ lit " is not valid Unicode" ∷ []))

unfoldable pub require_key : Value → Result Error (Unit {0})
unfolding require_unicode
require_key (str key) = require_unicode key "metadata object key"
require_key _ = err (type_error (says "metadata object keys must be strings"))

unfoldable pub require_finite : Float → Result Error (Unit {0})
require_finite (finite bits) = ok tt
require_finite _ = err (value_error (says "metadata contains a non-finite number"))

unfoldable mutual
  unfolding require_unicode require_key require_finite

  pub freeze_value : Value → Result Error Value
  freeze_value (dict fields) = do frozen ← freeze_mapping fields; ok (proxy frozen)
  freeze_value (proxy fields) = do frozen ← freeze_mapping fields; ok (proxy frozen)
  freeze_value (frozen_list items) = ok (frozen_list items)
  freeze_value (list items) = do frozen ← freeze_items items; ok (frozen_list frozen)
  freeze_value (str text) = do _ ← require_unicode text "metadata string"; ok (str text)
  freeze_value null = ok null
  freeze_value (bool b) = ok (bool b)
  freeze_value (int n) = ok (int n)
  freeze_value (float x) = do _ ← require_finite x; ok (float x)
  freeze_value (other name) = err (type_error (lit "unsupported metadata value " ∷ lit name ∷ []))

  pub freeze_items : Items → Result Error Items
  freeze_items nil = ok nil
  freeze_items (cons v vs) = do v' ← freeze_value v; vs' ← freeze_items vs; ok (cons v' vs')

  pub freeze_mapping : Fields → Result Error Fields
  freeze_mapping end = ok end
  freeze_mapping (field key item rest) = do
    _ ← require_key key
    item' ← freeze_value item
    rest' ← freeze_mapping rest
    ok (field key item' rest')

unfoldable pub freeze_metadata : Metadata → Result Error Metadata
unfolding freeze_mapping freeze_value freeze_items
freeze_metadata = freeze_mapping

unfoldable mutual
  pub thaw_value : Value → Value
  thaw_value (dict fields) = dict (thaw_mapping fields)
  thaw_value (proxy fields) = dict (thaw_mapping fields)
  thaw_value (frozen_list items) = list (thaw_items items)
  thaw_value v = v

  pub thaw_items : Items → Items
  thaw_items nil = nil
  thaw_items (cons v vs) = cons (thaw_value v) (thaw_items vs)

  pub thaw_mapping : Fields → Fields
  thaw_mapping end = end
  thaw_mapping (field key item rest) = field key (thaw_value item) (thaw_mapping rest)

unfoldable pub thaw_metadata : Metadata → Metadata
unfolding thaw_mapping thaw_value thaw_items
thaw_metadata = thaw_mapping
