-- ===== src/Model/Metadata/Freezing.antt =====
-- Freezing a mapping: what is frozen stays as it is, and thawing gives a plain mapping back.
use snapshot_fs.Prelude.{◌≡◌, refl, ap, ap₂, Result, ok, err, ◌>>=◌, subst, Text}
use snapshot_fs.Model.Message.{Error}
use snapshot_fs.Model.Metadata.{
  Float, Value, null, bool, int, float, str, list, frozen_list, dict, proxy, other, Items, nil,
  cons, Fields, end, field, Metadata, require_unicode, require_key, require_finite, freeze_value,
  freeze_items, freeze_mapping, freeze_metadata, thaw_value, thaw_items, thaw_mapping,
  thaw_metadata,
}

-- A mapping as JSON has it: of plain mappings and lists, with keys that are strings.
unfoldable mutual
  pub IsPlain : Value → Type 0
  IsPlain (dict fields) = ArePlain fields
  IsPlain (list items) = ItemsPlain items
  IsPlain (proxy fields) = ⊥
  IsPlain (frozen_list items) = ⊥
  IsPlain v = Unit {0}

  pub ItemsPlain : Items → Type 0
  ItemsPlain nil = Unit {0}
  ItemsPlain (cons v vs) = IsPlain v × ItemsPlain vs

  pub ArePlain : Fields → Type 0
  ArePlain end = Unit {0}
  ArePlain (field key item rest) = IsPlain item × ArePlain rest

-- What holds of a result of freezing: it freezes to itself, and thaws to what it was.
abbrev FrozenValue : Value → Result Error Value → Type 0
FrozenValue v (ok w) = (freeze_value w ≡ ok w) × (IsPlain v → thaw_value w ≡ v)
FrozenValue v (err e) = Unit {0}

abbrev FrozenItems : Items → Result Error Items → Type 0
FrozenItems v (ok w) = (freeze_items w ≡ ok w) × (ItemsPlain v → thaw_items w ≡ v)
FrozenItems v (err e) = Unit {0}

abbrev FrozenMapping : Fields → Result Error Fields → Type 0
FrozenMapping v (ok w) = (freeze_mapping w ≡ ok w) × (ArePlain v → thaw_mapping w ≡ v)
FrozenMapping v (err e) = Unit {0}

dict_frozen :
    (fields : Fields) (r : Result Error Fields)
    → FrozenMapping fields r
    → FrozenValue (dict fields) (do frozen ← r; ok (proxy frozen))
unfolding freeze_value thaw_value IsPlain
dict_frozen fields (ok f) (still, back) = (rw still, λ plain. ap dict (back plain))
dict_frozen fields (err e) h = tt

proxy_frozen :
    (fields : Fields) (r : Result Error Fields)
    → FrozenMapping fields r
    → FrozenValue (proxy fields) (do frozen ← r; ok (proxy frozen))
unfolding freeze_value thaw_value IsPlain
proxy_frozen fields (ok f) (still, back) = (rw still, λ plain. absurd plain)
proxy_frozen fields (err e) h = tt

list_frozen :
    (items : Items) (r : Result Error Items)
    → FrozenItems items r
    → FrozenValue (list items) (do frozen ← r; ok (frozen_list frozen))
unfolding freeze_value thaw_value IsPlain
list_frozen items (ok f) (still, back) = (refl, λ plain. ap list (back plain))
list_frozen items (err e) h = tt

str_frozen :
    (text : Text) (r : Result Error (Unit {0}))
    → require_unicode text "metadata string" ≡ r
    → FrozenValue (str text) (do _ ← r; ok (str text))
unfolding freeze_value thaw_value
str_frozen text (ok u) h = (rw h, λ plain. refl)
str_frozen text (err e) h = tt

float_frozen :
    (x : Float) (r : Result Error (Unit {0}))
    → require_finite x ≡ r
    → FrozenValue (float x) (do _ ← r; ok (float x))
unfolding freeze_value thaw_value
float_frozen x (ok u) h = (rw h, λ plain. refl)
float_frozen x (err e) h = tt

cons_frozen :
    (v : Value) (vs : Items) (r : Result Error Value) (rs : Result Error Items)
    → FrozenValue v r
    → FrozenItems vs rs
    → FrozenItems (cons v vs) (do v' ← r; vs' ← rs; ok (cons v' vs'))
unfolding freeze_items thaw_items ItemsPlain
cons_frozen v vs (ok w) (ok ws) h hs =
    (rw (h.0, hs.0), λ plain. ap₂ cons (h.1 plain.0) (hs.1 plain.1))
cons_frozen v vs (ok w) (err e) h hs = tt
cons_frozen v vs (err e) rs h hs = tt

field_frozen :
    (key item : Value) (rest : Fields) (k : Result Error (Unit {0})) (r : Result Error Value)
    (rs : Result Error Fields)
    → require_key key ≡ k
    → FrozenValue item r
    → FrozenMapping rest rs
    → FrozenMapping
        (field key item rest)
        (do _ ← k; item' ← r; rest' ← rs; ok (field key item' rest'))
unfolding freeze_mapping thaw_mapping ArePlain
field_frozen key item rest (ok u) (ok w) (ok ws) e h hs =
    (rw (e, h.0, hs.0), λ plain. ap₂ (field key) (h.1 plain.0) (hs.1 plain.1))
field_frozen key item rest (ok u) (ok w) (err x) e h hs = tt
field_frozen key item rest (ok u) (err x) rs e h hs = tt
field_frozen key item rest (err x) r rs e h hs = tt

mutual
  unfolding freeze_value freeze_items freeze_mapping thaw_value thaw_items thaw_mapping IsPlain

  frozen_value : (v : Value) → FrozenValue v (freeze_value v)
  frozen_value (dict fields) = dict_frozen fields (freeze_mapping fields) (frozen_mapping fields)
  frozen_value (proxy fields) = proxy_frozen fields (freeze_mapping fields) (frozen_mapping fields)
  frozen_value (frozen_list items) = (refl, λ plain. absurd plain)
  frozen_value (list items) = list_frozen items (freeze_items items) (frozen_items items)
  frozen_value (str text) = str_frozen text (require_unicode text "metadata string") refl
  frozen_value null = (refl, λ plain. refl)
  frozen_value (bool b) = (refl, λ plain. refl)
  frozen_value (int n) = (refl, λ plain. refl)
  frozen_value (float x) = float_frozen x (require_finite x) refl
  frozen_value (other name) = tt

  frozen_items : (vs : Items) → FrozenItems vs (freeze_items vs)
  frozen_items nil = (refl, λ plain. refl)
  frozen_items (cons v vs) =
      cons_frozen v vs (freeze_value v) (freeze_items vs) (frozen_value v) (frozen_items vs)

  frozen_mapping : (m : Fields) → FrozenMapping m (freeze_mapping m)
  frozen_mapping end = (refl, λ plain. refl)
  frozen_mapping (field key item rest) =
      field_frozen key item rest (require_key key) (freeze_value item) (freeze_mapping rest) refl
        (frozen_value item) (frozen_mapping rest)

frozen_metadata : (m f : Metadata) → freeze_metadata m ≡ ok f → FrozenMapping m (ok f)
unfolding freeze_metadata
frozen_metadata m f h = subst (FrozenMapping m) h (frozen_mapping m)

-- If freezing metadata returns, then freezing the result returns the result.
pub freeze_metadata-idempotent :
    (m f : Metadata) → freeze_metadata m ≡ ok f → freeze_metadata f ≡ ok f
unfolding freeze_metadata
freeze_metadata-idempotent m f h = (frozen_metadata m f h).0

-- If metadata consist of plain mappings and lists and freezing returns, then thawing the
-- result gives the metadata back.
pub thaw-freeze_metadata :
    (m f : Metadata) → ArePlain m → freeze_metadata m ≡ ok f → thaw_metadata f ≡ m
unfolding thaw_metadata
thaw-freeze_metadata m f plain h = (frozen_metadata m f h).1 plain
