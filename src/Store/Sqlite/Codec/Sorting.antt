-- ===== src/Store/Sqlite/Codec/Sorting.antt =====
-- The keys that `json.dumps` sorts: sorting once more, thawing and validation leave the value
-- alone.
use snapshot_fs.Prelude.{
  Bool, true, false, ◌&&◌, ok≢err, ◌≡◌, refl, sym, ◌∙◌, ap, ap₂, subst, inl, inr, Bool-cases, [],
  ◌∷◌, Bytes, ok, arith, >>=-eq-ok,
}
use snapshot_fs.Model.Metadata.{
  Value, str, list, frozen_list, dict, proxy, Items, nil, cons, Fields, end, field, thaw_value,
  thaw_items, thaw_mapping,
}
use snapshot_fs.Store.Memory.Store.{bytes_le}
use snapshot_fs.Store.Sqlite.Codec.{
  key_le, insert_field, sort_value, sort_items, sort_fields, string_keys, validate_json,
  validate_items, validate_fields,
}

bytes_le_total : (a b : Bytes) → bytes_le a b ≡ false → bytes_le b a ≡ true
unfolding bytes_le
bytes_le_total [] b h = cc
bytes_le_total (a ∷ as') [] h = refl
bytes_le_total (a ∷ as') (b ∷ bs) h = ground (arith, bytes_le_total as' bs)

key_le_total : (a b : Value) → key_le a b ≡ false → key_le b a ≡ true
unfolding key_le
key_le_total (str a) (str b) h = bytes_le_total a b h
key_le_total a b h = ground arith

-- Each key stands before the next one.
abbrev Before : Value → Fields → Type 0
Before key end = Unit {0}
Before key (field k i rest) = key_le key k ≡ true

abbrev Sorted : Fields → Type 0
Sorted end = Unit {0}
Sorted (field key item rest) = Before key rest × Sorted rest

insert_field-le :
    (key item k i : Value) (rest : Fields)
    → key_le key k ≡ true
    → insert_field key item (field k i rest) ≡ field key item (field k i rest)
unfolding insert_field
insert_field-le key item k i rest h = rw h refl

insert_field-gt :
    (key item k i : Value) (rest : Fields)
    → key_le key k ≡ false
    → insert_field key item (field k i rest) ≡ field k i (insert_field key item rest)
unfolding insert_field
insert_field-gt key item k i rest h = rw h refl

insert_field-Before :
    (key item : Value) (rest : Fields)
    → Before key rest
    → insert_field key item rest ≡ field key item rest
unfolding insert_field
insert_field-Before key item end b = refl
insert_field-Before key item (field k i rest) b = insert_field-le key item k i rest b

Before-insert_field :
    (k key item : Value) (rest : Fields)
    → key_le k key ≡ true
    → Before k rest
    → Before k (insert_field key item rest)
unfolding insert_field
Before-insert_field k key item end h b = h
Before-insert_field k key item (field j i rest) h b = elim (Bool-cases (key_le key j)) [
  | inl le ↦ subst (Before k) (sym (insert_field-le key item j i rest le)) h
  | inr gt ↦ subst (Before k) (sym (insert_field-gt key item j i rest gt)) b
]

insert_field-Sorted :
    (key item : Value) (rest : Fields) → Sorted rest → Sorted (insert_field key item rest)
unfolding insert_field
insert_field-Sorted key item end s = (tt, tt)
insert_field-Sorted key item (field k i rest) s = elim (Bool-cases (key_le key k)) [
  | inl le ↦ subst Sorted (sym (insert_field-le key item k i rest le)) (le, s)
  | inr gt ↦ subst Sorted (sym (insert_field-gt key item k i rest gt)) (
    Before-insert_field k key item rest (key_le_total key k gt) s.0,
    insert_field-Sorted key item rest s.1,
  )
]

pub sort_fields-Sorted : (fields : Fields) → Sorted (sort_fields fields)
unfolding sort_fields
sort_fields-Sorted end = tt
sort_fields-Sorted (field key item rest) =
    insert_field-Sorted key (sort_value item) (sort_fields rest) (sort_fields-Sorted rest)

-- Values that sorting leaves as they are.
abbrev Still : Fields → Type 0
Still end = Unit {0}
Still (field key item rest) = (sort_value item ≡ item) × Still rest

insert_field-Still :
    (key item : Value) (rest : Fields)
    → sort_value item ≡ item
    → Still rest
    → Still (insert_field key item rest)
unfolding insert_field
insert_field-Still key item end h s = (h, tt)
insert_field-Still key item (field k i rest) h s = elim (Bool-cases (key_le key k)) [
  | inl le ↦ subst Still (sym (insert_field-le key item k i rest le)) (h, s)
  | inr gt ↦
      subst Still (sym (insert_field-gt key item k i rest gt))
        (s.0, insert_field-Still key item rest h s.1)
]

pub Still-Sorted : (fields : Fields) → Sorted fields → Still fields → sort_fields fields ≡ fields
unfolding sort_fields
Still-Sorted end s still = refl
Still-Sorted (field key item rest) s still =
    ap₂ (insert_field key) still.0 (Still-Sorted rest s.1 still.1)
    ∙ insert_field-Before key item rest s.0

mutual
  unfolding sort_value sort_items sort_fields

  sort_value_still : (v : Value) → sort_value (sort_value v) ≡ sort_value v
  sort_value_still (dict fields) =
      ap dict
        (Still-Sorted (sort_fields fields) (sort_fields-Sorted fields) (sort_fields-Still fields))
  sort_value_still (list items) = ap list (sort_items_still items)
  sort_value_still v = refl

  sort_items_still : (vs : Items) → sort_items (sort_items vs) ≡ sort_items vs
  sort_items_still nil = refl
  sort_items_still (cons v vs) = ap₂ cons (sort_value_still v) (sort_items_still vs)

  pub sort_fields-Still : (fields : Fields) → Still (sort_fields fields)
  sort_fields-Still end = tt
  sort_fields-Still (field key item rest) =
      insert_field-Still key (sort_value item) (sort_fields rest) (sort_value_still item)
        (sort_fields-Still rest)

thaw-insert_field :
    (key item : Value) (rest : Fields)
    → thaw_mapping (insert_field key item rest)
      ≡ insert_field key (thaw_value item) (thaw_mapping rest)
unfolding thaw_mapping insert_field
thaw-insert_field key item end = refl
thaw-insert_field key item (field k i rest) = elim (Bool-cases (key_le key k)) [
  | inl le ↦ rw le refl
  | inr gt ↦ rw gt (ap (field k (thaw_value i)) (thaw-insert_field key item rest))
]

abbrev is_str : Value → Bool
is_str (str text) = true
is_str v = false

string_keys-field :
    (key item : Value) (rest : Fields)
    → string_keys (field key item rest) ≡ (is_str key && string_keys rest)
unfolding string_keys
string_keys-field (str text) item rest = refl
string_keys-field key item rest = ground arith

string_keys-insert_field :
    (key item : Value) (rest : Fields)
    → string_keys (insert_field key item rest) ≡ (is_str key && string_keys rest)
unfolding insert_field
string_keys-insert_field key item end = string_keys-field key item end
string_keys-insert_field key item (field k i rest) = elim (Bool-cases (key_le key k)) [
  | inl le ↦
      ap string_keys (insert_field-le key item k i rest le)
      ∙ string_keys-field key item (field k i rest)
  | inr gt ↦
      ap string_keys (insert_field-gt key item k i rest gt)
      ∙ string_keys-field k i (insert_field key item rest)
      ∙ (rw (string_keys-insert_field key item rest, string_keys-field k i rest) (ground arith))
]

validate_fields-insert_field :
    (key item : Value) (rest : Fields)
    → validate_json item ≡ ok tt
    → validate_fields rest ≡ ok tt
    → validate_fields (insert_field key item rest) ≡ ok tt
unfolding validate_fields insert_field
validate_fields-insert_field key item end one more = rw one refl
validate_fields-insert_field key item (field k i rest) one more =
    let (_, first, others) = >>=-eq-ok (validate_json i) (λ _. validate_fields rest) more in
    elim (Bool-cases (key_le key k)) [
      | inl le ↦ rw (le, one) more
      | inr gt ↦ rw (gt, first) (validate_fields-insert_field key item rest one others)
    ]

mutual
  unfolding sort_value sort_items sort_fields thaw_value thaw_items thaw_mapping

  thaw-sort_value : (v : Value) → thaw_value (sort_value (thaw_value v)) ≡ sort_value (thaw_value v)
  thaw-sort_value (dict fields) = ap dict (thaw-sort_fields fields)
  thaw-sort_value (proxy fields) = ap dict (thaw-sort_fields fields)
  thaw-sort_value (frozen_list items) = refl
  thaw-sort_value (list items) = refl
  thaw-sort_value v = refl

  pub thaw-sort_fields :
      (m : Fields) → thaw_mapping (sort_fields (thaw_mapping m)) ≡ sort_fields (thaw_mapping m)
  thaw-sort_fields end = refl
  thaw-sort_fields (field key item rest) =
      thaw-insert_field key (sort_value (thaw_value item)) (sort_fields (thaw_mapping rest))
      ∙ ap₂ (insert_field key) (thaw-sort_value item) (thaw-sort_fields rest)

-- Values that `json.dumps` accepts stay so when their keys are sorted.
pub string_keys-sort_fields : (m : Fields) → string_keys (sort_fields m) ≡ string_keys m
unfolding sort_fields
string_keys-sort_fields end = refl
string_keys-sort_fields (field key item rest) =
    string_keys-insert_field key (sort_value item) (sort_fields rest)
    ∙ ap (λ b. is_str key && b) (string_keys-sort_fields rest)
    ∙ sym (string_keys-field key item rest)

pub dict-valid :
    (fields : Fields)
    → validate_json (dict fields) ≡ ok tt
    → (string_keys fields ≡ true) × (validate_fields fields ≡ ok tt)
unfolding validate_json
dict-valid fields h = elim (Bool-cases (string_keys fields)) [
  | inl strings ↦ (strings, rw strings at h)
  | inr mixed ↦ absurd (ok≢err (rw mixed at h))
]

valid-dict :
    (fields : Fields)
    → string_keys fields ≡ true
    → validate_fields fields ≡ ok tt
    → validate_json (dict fields) ≡ ok tt
unfolding validate_json
valid-dict fields strings items = rw (strings, items) refl

mutual
  unfolding sort_value sort_items sort_fields validate_json validate_items validate_fields

  pub sort_value_valid :
      (v : Value) → validate_json v ≡ ok tt → validate_json (sort_value v) ≡ ok tt
  sort_value_valid (dict fields) h =
      let (strings, items) = dict-valid fields h in
      valid-dict (sort_fields fields) (string_keys-sort_fields fields ∙ strings)
        (sort_fields_valid fields items)
  sort_value_valid (list items) h = sort_items_valid items h
  sort_value_valid v h = h

  sort_items_valid :
      (vs : Items) → validate_items vs ≡ ok tt → validate_items (sort_items vs) ≡ ok tt
  sort_items_valid nil h = h
  sort_items_valid (cons v vs) h =
      let (_, first, others) = >>=-eq-ok (validate_json v) (λ _. validate_items vs) h in
      rw (sort_value_valid v first) (sort_items_valid vs others)

  sort_fields_valid :
      (m : Fields) → validate_fields m ≡ ok tt → validate_fields (sort_fields m) ≡ ok tt
  sort_fields_valid end h = h
  sort_fields_valid (field key item rest) h =
      let (_, first, others) = >>=-eq-ok (validate_json item) (λ _. validate_fields rest) h in
      validate_fields-insert_field key (sort_value item) (sort_fields rest)
        (sort_value_valid item first) (sort_fields_valid rest others)
