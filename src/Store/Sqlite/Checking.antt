-- ===== src/Store/Sqlite/Checking.antt =====
-- store/sqlite/validation.py and store/sqlite/store.py: names and serialized values, and the
-- checks of `_validate` that read the tables.
pub mod Unending
use snapshot_fs.Prelude.{
  ℕ, zero, suc, Bool, true, false, not, ◌&&◌, ◌||◌, Option, none, some, List, [], ◌∷◌, ◌++◌, String,
  Text, Bytes, codes, Result, ok, err, ◌>>=◌, if◌then◌else◌, ltb, leb, ◌==◌, length, any, text_eq,
  option_eq, is_none, is_some,
}
use snapshot_fs.Utf8.{encode}
use snapshot_fs.Dict.{Dict, get, values, nat_key}
use snapshot_fs.Model.Enums.{NodeKind}
use snapshot_fs.Model.Message.{Error, says}
use snapshot_fs.Model.Metadata.{Value, dict, end}
use snapshot_fs.Store.Errors.{StoreError}
use snapshot_fs.Store.Building.{
  Exception, store_error, max_mounted_name_bytes, empty_or_reserved, nul_or_slash,
}
use snapshot_fs.Store.Sqlite.Codec.{IsoText, JsonText, decode_datetime, decode_metadata}
use snapshot_fs.Store.Sqlite.Tables.{SnapshotRow, NodeRow, Tables, kind_value}
use snapshot_fs.Store.Sqlite.Reading.{or_schema_error}
use snapshot_fs.Store.Sqlite.Validation.{
  fail, require, require_ranges_and_domain_values, require_graph,
}

-- The bytes that may follow: the ranges of the continuation bytes that are still due.
abbrev continuations : ℕ → Option (List (ℕ × ℕ))
continuations b =
    if ltb b 0x80
    then some []
    else if ltb b 0xC2
    then none
    else if ltb b 0xE0
    then some ((0x80, 0xBF) ∷ [])
    else if b == 0xE0
    then some ((0xA0, 0xBF) ∷ (0x80, 0xBF) ∷ [])
    else if b == 0xED
    then some ((0x80, 0x9F) ∷ (0x80, 0xBF) ∷ [])
    else if ltb b 0xF0
    then some ((0x80, 0xBF) ∷ (0x80, 0xBF) ∷ [])
    else if b == 0xF0
    then some ((0x90, 0xBF) ∷ (0x80, 0xBF) ∷ (0x80, 0xBF) ∷ [])
    else if ltb b 0xF4
    then some ((0x80, 0xBF) ∷ (0x80, 0xBF) ∷ (0x80, 0xBF) ∷ [])
    else if b == 0xF4
    then some ((0x80, 0x8F) ∷ (0x80, 0xBF) ∷ (0x80, 0xBF) ∷ [])
    else none

-- `raw_name.decode("utf-8")` returns.
unfoldable pub decodes : List (ℕ × ℕ) → Bytes → Bool
decodes [] [] = true
decodes (range ∷ due) [] = false
decodes [] (b ∷ bs) = elim (continuations b) [ none ↦ false | some due ↦ decodes due bs ]
decodes ((low, high) ∷ due) (b ∷ bs) = (leb low b && leb b high) && decodes due bs

-- The text "{}".
abbrev is_empty_json : JsonText → Bool
is_empty_json (JsonText.compact (dict end)) = true
is_empty_json text = false

abbrev is_virtual_root : NodeRow → Bool
is_virtual_root row =
    (is_none row.original_path && is_none row.modified_at)
    && (is_none row.source_line && (is_none row.observation && is_empty_json row.metadata_json))

module _ (path : Text) where
  unfoldable pub decode_values : Option IsoText → JsonText → Result Exception (Unit {0})
  unfolding decode_datetime decode_metadata
  decode_values timestamp metadata_json =
      or_schema_error path "has invalid serialized data: "
        (do _ ← decode_datetime timestamp; _ ← decode_metadata metadata_json; ok tt)

  unfoldable pub check_name : NodeRow → Result Exception (Unit {0})
  unfolding decodes empty_or_reserved nul_or_slash decode_values
  check_name row = do
    _ ← require path (not (decodes [] row.mounted_name)) "mounted name is not valid UTF-8"
    _ ←
        (if row.id == 1
          then require path (not (text_eq row.mounted_name [])) "inode 1 has an invalid root name"
          else require path (empty_or_reserved row.mounted_name || nul_or_slash row.mounted_name)
              "has an invalid mounted name")
    decode_values row.modified_at row.metadata_json

  unfoldable pub check_names : List NodeRow → Result Exception (Unit {0})
  unfolding check_name
  check_names [] = ok tt
  check_names (row ∷ rows) = do _ ← check_name row; check_names rows

  unfoldable pub root_values : Option NodeRow → Result Exception (Unit {0})
  root_values none = ok tt
  root_values (some row) =
      require path (not (is_virtual_root row)) "inode 1 has invalid virtual-root metadata"

-- One step of the recursive query `paths`: the children of a node with their relative paths.
unfoldable pub child_paths : ℕ → Bytes → Dict ℕ NodeRow → List (ℕ × Bytes)
child_paths parent_id relative [] = []
child_paths parent_id relative ((id, row) ∷ rows) =
    let rest = child_paths parent_id relative rows in
    if option_eq ◌==◌ row.parent_id (some parent_id)
    then (
      id,
      if text_eq relative [] then row.mounted_name else relative ++ (0x2F ∷ row.mounted_name),
    )
      ∷ rest
    else rest

unfoldable pub next_paths : Dict ℕ NodeRow → List (ℕ × Bytes) → List (ℕ × Bytes)
unfolding child_paths
next_paths rows [] = []
next_paths rows ((id, relative) ∷ level) = child_paths id relative rows ++ next_paths rows level

-- `nodes.original_path IS NULL OR nodes.original_path != paths.relative_path`: text is compared
-- by its encoding.
abbrev wrong_path : Dict ℕ NodeRow → ℕ × Bytes → Bool
unfolding get encode
wrong_path rows (id, relative) = elim (get id rows) [
  | none ↦ false
  | some row ↦ not (id == 1) && (elim row.original_path [
    | none ↦ true
    | some original ↦ not (option_eq text_eq (encode original) (some relative))
  ])
]

-- Whether the query finds a row, or none while it has not ended after so many levels.
unfoldable pub invalid_path : Dict ℕ NodeRow → ℕ → List (ℕ × Bytes) → Option Bool
unfolding next_paths wrong_path
invalid_path rows zero level = none
invalid_path rows (suc fuel) [] = some false
invalid_path rows (suc fuel) (pair ∷ level) =
    elim (invalid_path rows fuel (next_paths rows (pair ∷ level))) [
      | none ↦ none
      | some below ↦ some (any (λ x. wrong_path rows x) (pair ∷ level) || below)
    ]

-- Checks in a row, of which the second may not return.
abbrev pub before :
    Result Exception (Unit {0})
    → Option (Result Exception (Unit {0}))
    → Option (Result Exception (Unit {0}))
before (err e) next = some (err e)
before (ok done) next = next

abbrev pub and_then :
    Option (Result Exception (Unit {0}))
    → Option (Result Exception (Unit {0}))
    → Option (Result Exception (Unit {0}))
and_then none next = none
and_then (some r) next = before r next

unfoldable pub top_level_count : List NodeRow → ℕ
top_level_count [] = 0
top_level_count (row ∷ rows) =
    let rest = top_level_count rows in if is_none row.parent_id then suc rest else rest

module _ (path : Text) (fuel : ℕ) (t : Tables) where
  unfoldable pub check_paths : Option (Result Exception (Unit {0}))
  unfolding invalid_path
  check_paths = elim (invalid_path t.nodes fuel ((1, []) ∷ [])) [
    | none ↦ none
    | some wrong ↦ some (require path wrong "node has an invalid derived relative path")
  ]

  unfoldable pub snapshot_values : List SnapshotRow → Result Exception (Unit {0})
  unfolding decode_values
  snapshot_values [] = ok tt
  snapshot_values (row ∷ rows) = decode_values path (some row.imported_at) row.metadata_json

  -- `_validate_names_and_serialized_values`
  unfoldable pub validate_names : Option (Result Exception (Unit {0}))
  unfolding root_values check_names check_paths snapshot_values values get
  validate_names =
      before
        (do
          _ ← root_values path (get 1 t.nodes)
          _ ←
              require path
                (any (λ row. ltb max_mounted_name_bytes (length row.mounted_name)) (values t.nodes))
                "mounted name exceeds the FUSE-compatible 255-byte limit"
          check_names path (values t.nodes))
        (and_then check_paths (some (snapshot_values t.snapshot)))

  unfoldable pub validate_records : Option (Result Exception (Unit {0}))
  unfolding require_ranges_and_domain_values require_graph validate_names
  validate_records =
      before (require_ranges_and_domain_values path t)
        (and_then (require_graph path fuel t) validate_names)

-- The foreign keys of a row: its snapshot and its parent.
unfoldable pub breaks_key : Tables → NodeRow → Bool
unfolding get
breaks_key t row =
    not (any (λ s. text_eq s.id row.snapshot_id) t.snapshot)
    || (elim row.parent_id [ none ↦ false | some parent_id ↦ is_none (get parent_id t.nodes) ])

module _ (path : Text) (t : Tables) where
  unfoldable pub one_root : Result Exception (Unit {0})
  unfolding top_level_count values get
  one_root =
      require path
        (not (length t.snapshot == 1)
          || (is_none (get 1 t.nodes) || not (top_level_count (values t.nodes) == 1)))
        "artifact must contain one snapshot and root"

  unfoldable pub root_directory : Option NodeRow → Result Exception (Unit {0})
  root_directory none = ok tt
  root_directory (some row) =
      require path (is_some row.parent_id || not (text_eq row.kind (kind_value NodeKind.directory)))
        "inode 1 is not a valid root directory"

  unfoldable pub enough_counted : List SnapshotRow → Result Exception (Unit {0})
  enough_counted [] = ok tt
  enough_counted (row ∷ rows) =
      require path (ltb row.diagnostic_count (length t.diagnostics))
        "diagnostic count is smaller than retained diagnostics"

module _ (path : Text) (fuel : ℕ) (t : Tables) where
  -- `_validate`, from the check of the foreign keys on
  unfoldable pub validate : Option (Result Exception (Unit {0}))
  unfolding breaks_key one_root validate_records root_directory enough_counted values get
  validate =
      before
        (do
          _ ←
              require path (any (λ row. breaks_key t row) (values t.nodes))
                "artifact has invalid foreign keys"
          one_root path t)
        (and_then (validate_records path fuel t)
          (some (do _ ← root_directory path t (get 1 t.nodes); enough_counted path t t.snapshot)))
