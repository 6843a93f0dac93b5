-- ===== src/Store/Sqlite/Codec/Keeping.antt =====
-- What is read back of metadata that were frozen and written.
use snapshot_fs.Prelude.{◌≡◌, ◌∙◌, sym, subst, ap, ok, Bool, true, false, if◌then◌else◌}
use snapshot_fs.Model.Metadata.{
  Value, Items, Fields, null, bool, int, float, str, list, frozen_list, dict, proxy, other, nil,
  cons, end, field, Metadata, freeze_metadata,
}
use snapshot_fs.Model.Metadata.Freezing.{ArePlain, thaw-freeze_metadata}
use snapshot_fs.Store.Sqlite.Codec.{
  JsonText, key_le, insert_field, sort_value, sort_items, sort_fields, encode_metadata,
  decode_metadata,
}
use snapshot_fs.Store.Sqlite.Codec.RoundTrip.{encode-decode_metadata, decode_written}

-- The fields of the third mapping are those of the second and one more, at any place.
pub data Inserted (key item : Value) : Fields → Fields → Type 0 where
  here : {rest : Fields} → Inserted key item rest (field key item rest)
  further :
      {k i : Value} {rest all : Fields}
      → Inserted key item rest all
      → Inserted key item (field k i rest) (field k i all)

-- Two values that differ in the order of the fields of their mappings, at any depth, and in
-- nothing else.
mutual
  pub data SameValue : Value → Value → Type 0 where
    same : {v : Value} → SameValue v v
    lists : {a b : Items} → SameItems a b → SameValue (list a) (list b)
    dicts : {a b : Fields} → SameFields a b → SameValue (dict a) (dict b)

  pub data SameItems : Items → Items → Type 0 where
    nothing : SameItems nil nil
    both :
        {v w : Value} {vs ws : Items}
        → SameValue v w
        → SameItems vs ws
        → SameItems (cons v vs) (cons w ws)

  pub data SameFields : Fields → Fields → Type 0 where
    empty : SameFields end end
    moved :
        {key v w : Value} {fs gs all : Fields}
        → SameValue v w
        → SameFields fs gs
        → Inserted key w gs all
        → SameFields (field key v fs) all

if-Inserted :
    (b : Bool) {key item : Value} {fs x y : Fields}
    → Inserted key item fs x
    → Inserted key item fs y
    → Inserted key item fs (if b then x else y)
if-Inserted true h k = h
if-Inserted false h k = k

insert_field-Inserted :
    (key item : Value) (fs : Fields) → Inserted key item fs (insert_field key item fs)
unfolding insert_field
insert_field-Inserted key item end = here
insert_field-Inserted key item (field k i rest) =
    if-Inserted (key_le key k) here (further (insert_field-Inserted key item rest))

mutual
  unfolding sort_value

  sort_value-SameValue : (v : Value) → SameValue v (sort_value v)
  sort_value-SameValue (dict fields) = dicts (sort_fields-SameFields fields)
  sort_value-SameValue (list items) = lists (sort_items-SameItems items)
  sort_value-SameValue null = same
  sort_value-SameValue (bool b) = same
  sort_value-SameValue (int n) = same
  sort_value-SameValue (float x) = same
  sort_value-SameValue (str text) = same
  sort_value-SameValue (frozen_list items) = same
  sort_value-SameValue (proxy fields) = same
  sort_value-SameValue (other name) = same

  sort_items-SameItems : (vs : Items) → SameItems vs (sort_items vs)
  sort_items-SameItems nil = nothing
  sort_items-SameItems (cons v vs) = both (sort_value-SameValue v) (sort_items-SameItems vs)

  sort_fields-SameFields : (fs : Fields) → SameFields fs (sort_fields fs)
  sort_fields-SameFields end = empty
  sort_fields-SameFields (field key item rest) =
      moved (sort_value-SameValue item) (sort_fields-SameFields rest)
        (insert_field-Inserted key (sort_value item) (sort_fields rest))

-- If plain metadata freeze to a value that `encode_metadata` writes, then `decode_metadata`
-- reads what was written as metadata that differ from the plain ones in the order of keys
-- and in nothing else, and `encode_metadata` writes these in the same way.
pub frozen_read_back :
    (m frozen : Metadata) (text : JsonText)
    → ArePlain m
    → freeze_metadata m ≡ ok frozen
    → encode_metadata frozen ≡ ok text
    → (read : Metadata) × (decode_metadata text ≡ ok read)
      × (SameFields m read × (encode_metadata read ≡ ok text))
frozen_read_back m frozen text plain froze wrote =
    let (read, decoded, again) = encode-decode_metadata frozen text wrote in
    let sorted : read ≡ sort_fields m =
      decode_written frozen read text wrote decoded
      ∙ ap sort_fields (thaw-freeze_metadata m frozen plain froze) in
    (read, decoded, (subst (SameFields m) (sym sorted) (sort_fields-SameFields m), again))
