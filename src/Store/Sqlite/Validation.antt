-- ===== src/Store/Sqlite/Validation.antt =====
-- store/sqlite/validation.py. The types of the columns are what `_require_storage_classes` asks
-- for.
pub mod Graph
use snapshot_fs.Prelude.{
  ℕ, zero, suc, ◌+◌, ◌-◌, Bool, true, false, not, ◌&&◌, ◌||◌, Option, none, some, List, [], ◌∷◌,
  ◌++◌, ℤ, pos, negative, positive, int_eq, String, Text, Bytes, codes, Result, ok, err, ◌>>=◌,
  if◌then◌else◌, ltb, leb, ◌==◌, length, any, text_eq, option_eq, is_none, is_some,
}
use snapshot_fs.Utf8.{encode}
use snapshot_fs.Dict.{Dict, get, values, nat_key}
use snapshot_fs.Model.Enums.{NodeKind, ContentStatus, status_value}
use snapshot_fs.Model.Message.{Error, says}
use snapshot_fs.Store.Errors.{StoreError}
use snapshot_fs.Store.Building.{Exception, store_error, max_mounted_name_bytes}
use snapshot_fs.Store.Sqlite.Codec.{IsoText, JsonText, decode_datetime, decode_metadata}
use snapshot_fs.Store.Sqlite.Tables.{
  SnapshotRow, NodeRow, DiagnosticRow, Tables, kind_value, kind_of, observation_of,
}
use snapshot_fs.Store.Sqlite.Reading.{status_named, severity_of}

-- `_fail`
abbrev pub fail : Text → String → Result Exception (Unit {0})
fail path message = err (store_error StoreError.schema path (says message))

-- A query that selects the rows that are wrong.
abbrev pub require : Text → Bool → String → Result Exception (Unit {0})
require path wrong message = if wrong then fail path message else ok tt

abbrev not_positive : Option ℤ → Bool
not_positive none = false
not_positive (some n) = not (positive n)

abbrev below_zero : Option ℤ → Bool
below_zero none = false
below_zero (some n) = negative n

abbrev unknown_value : Option Text → Bool
unfolding observation_of
unknown_value none = false
unknown_value (some value) = is_none (observation_of value)

unfoldable pub bad_node : NodeRow → Bool
unfolding kind_of status_named unknown_value
bad_node row =
    ((row.id == 0 || option_eq ◌==◌ row.parent_id (some 0))
      || (below_zero row.size || not_positive row.source_line))
    || (is_none (kind_of row.kind)
        || (is_none (status_named row.content_status) || unknown_value row.observation))

unfoldable pub bad_diagnostic : DiagnosticRow → Bool
unfolding severity_of
bad_diagnostic row = not_positive row.line_number || is_none (severity_of row.severity)

-- MIN(position), MAX(position) of a table that has a row
unfoldable pub min_position : ℕ → List DiagnosticRow → ℕ
min_position m [] = m
min_position m (row ∷ rows) = min_position (if ltb row.position m then row.position else m) rows

unfoldable pub max_position : ℕ → List DiagnosticRow → ℕ
max_position m [] = m
max_position m (row ∷ rows) = max_position (if ltb m row.position then row.position else m) rows

unfoldable pub not_contiguous : List DiagnosticRow → Bool
unfolding min_position max_position
not_contiguous [] = false
not_contiguous (row ∷ rows) =
    not (min_position row.position rows == 0) || not (max_position row.position rows == length rows)

-- The columns of a row, tested as the query of `_require_content_invariants` does.
abbrev has_status : NodeRow → ContentStatus → Bool
has_status row status = text_eq row.content_status (status_value status)

abbrev other_length : Bytes → Option ℤ → Bool
other_length content none = true
other_length content (some size) = not (int_eq (pos (length content)) size)

abbrev no_length : Option Bytes → Bool
no_length none = true
no_length (some content) = not (length content == 0)

abbrev empty_reference : Option Text → Bool
empty_reference none = true
empty_reference (some ref) = text_eq ref []

unfoldable pub bad_directory : NodeRow → Bool
bad_directory row =
    (is_some row.size || is_some row.content)
    || (is_some row.content_ref || not (has_status row ContentStatus.not_applicable))

-- A file's content or its absence.
unfoldable pub bad_content : NodeRow → Option Bytes → Bool
bad_content row (some content) =
    other_length content row.size
    || (not (has_status row ContentStatus.present) || is_some row.content_ref)
bad_content row none =
    if has_status row ContentStatus.present || has_status row ContentStatus.remote
    then empty_reference row.content_ref
    else is_some row.content_ref

unfoldable pub bad_file : NodeRow → Bool
unfolding bad_content
bad_file row =
    has_status row ContentStatus.not_applicable
    || ((option_eq int_eq row.size (some (pos 0))
          && (no_length row.content
              || (not (has_status row ContentStatus.present) || is_some row.content_ref)))
        || bad_content row row.content)

unfoldable pub breaks_content : NodeRow → Bool
unfolding bad_directory bad_file
breaks_content row =
    (text_eq row.kind (kind_value NodeKind.directory) && bad_directory row)
    || (text_eq row.kind (kind_value NodeKind.file) && bad_file row)

module _ (path : Text) where
  unfoldable pub require_content_invariants : Tables → Result Exception (Unit {0})
  unfolding breaks_content values
  require_content_invariants t =
      require path (any (λ row. breaks_content row) (values t.nodes))
        "nodes contain invalid content metadata"

  unfoldable pub require_ranges_and_domain_values : Tables → Result Exception (Unit {0})
  unfolding bad_node bad_diagnostic not_contiguous require_content_invariants values
  require_ranges_and_domain_values t = do
    _ ← require path (any (λ row. bad_node row) (values t.nodes)) "nodes contains an invalid value"
    _ ←
        require path (any (λ row. bad_diagnostic row) t.diagnostics)
          "diagnostics contains an invalid value"
    _ ← require path (not_contiguous t.diagnostics) "diagnostic positions are not contiguous"
    require_content_invariants t

-- `child JOIN parent … WHERE parent.kind != 'directory'`
unfoldable pub parent_is_no_directory : Dict ℕ NodeRow → NodeRow → Bool
unfolding get
parent_is_no_directory rows row = elim row.parent_id [
  | none ↦ false
  | some parent_id ↦ elim (get parent_id rows) [
    | none ↦ false
    | some parent ↦ not (text_eq parent.kind (kind_value NodeKind.directory))
  ]
]

-- SELECT nodes.id … ON nodes.parent_id = reachable.id, for one row of `reachable`
unfoldable pub child_ids : ℕ → Dict ℕ NodeRow → List ℕ
child_ids parent_id [] = []
child_ids parent_id ((id, row) ∷ rows) =
    let rest = child_ids parent_id rows in
    if option_eq ◌==◌ row.parent_id (some parent_id) then id ∷ rest else rest

unfoldable pub next_level : Dict ℕ NodeRow → List ℕ → List ℕ
unfolding child_ids
next_level rows [] = []
next_level rows (id ∷ level) = child_ids id rows ++ next_level rows level

-- The number of rows that the recursive query yields from a level on, or none while it has not
-- ended after so many levels.
unfoldable pub reach : Dict ℕ NodeRow → ℕ → List ℕ → Option ℕ
unfolding next_level
reach rows zero level = none
reach rows (suc fuel) [] = some 0
reach rows (suc fuel) (id ∷ level) = elim (reach rows fuel (next_level rows (id ∷ level))) [
  | none ↦ none
  | some count ↦ some (length (id ∷ level) + count)
]

-- `_require_graph`, for a query that may run over so many levels; none while it is running.
unfoldable pub require_graph : Text → ℕ → Tables → Option (Result Exception (Unit {0}))
unfolding parent_is_no_directory reach values
require_graph path fuel t =
    if any (λ row. parent_is_no_directory t.nodes row) (values t.nodes)
    then some (fail path "a node parent is not a directory")
    else elim (reach t.nodes fuel (1 ∷ [])) [
      | none ↦ none
      | some count ↦ some (
          require path (not (count == length t.nodes))
            "filesystem graph contains a cycle or disconnected node")
    ]
