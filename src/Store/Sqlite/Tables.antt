-- ===== src/Store/Sqlite/Tables.antt =====
-- store/sqlite/schema.py: the tables. They are STRICT, so the type of a column is the type of its
-- values. A table is keyed by its INTEGER PRIMARY KEY.
use snapshot_fs.Prelude.{
  ℕ, Bool, true, false, not, ◌&&◌, ◌||◌, Option, none, some, List, [], ◌∷◌, ℤ, pos, negsuc,
  negative, positive, String, Text, Bytes, codes, text_eq, option_eq, Result, ok, err,
  if◌then◌else◌, ltb, ◌==◌, is_some,
}
use snapshot_fs.Dict.{Dict, get, put, nat_key}
use snapshot_fs.Model.Enums.{NodeKind, Observation, Severity}
use snapshot_fs.Model.Message.{Message}
use snapshot_fs.Store.Sqlite.Codec.{IsoText, JsonText}

pub record SnapshotRow : Type 0 where
  pub id : Text
  pub source_uri : Text
  pub source_format : Text
  pub imported_at : IsoText
  pub metadata_json : JsonText
  pub diagnostic_count : ℕ

pub record NodeRow : Type 0 where
  pub id : ℕ
  pub snapshot_id : Text
  pub parent_id : Option ℕ
  pub mounted_name : Bytes
  pub original_path : Option Text
  pub kind : Text
  pub size : Option ℤ
  pub modified_at : Option IsoText
  pub content : Option Bytes
  pub content_status : Text
  pub content_ref : Option Text
  pub source_line : Option ℤ
  pub observation : Option Text
  pub metadata_json : JsonText

pub record DiagnosticRow : Type 0 where
  pub position : ℕ
  pub severity : Text
  pub code : String
  pub message : Message
  pub line_number : Option ℤ

pub record Tables : Type 0 where
  pub snapshot : List SnapshotRow
  pub nodes : Dict ℕ NodeRow
  pub diagnostics : List DiagnosticRow

abbrev pub no_tables : Tables
no_tables = record { snapshot = []; nodes = []; diagnostics = [] }

-- `kind.value` and `NodeKind(value)`
abbrev pub kind_value : NodeKind → Text
kind_value NodeKind.directory = codes "directory"
kind_value NodeKind.file = codes "file"
kind_value NodeKind.symlink = codes "symlink"
kind_value NodeKind.special = codes "special"
kind_value NodeKind.unknown = codes "unknown"

unfoldable pub kind_of : Text → Option NodeKind
kind_of t =
    if text_eq t (kind_value NodeKind.directory)
    then some NodeKind.directory
    else if text_eq t (kind_value NodeKind.file)
    then some NodeKind.file
    else if text_eq t (kind_value NodeKind.symlink)
    then some NodeKind.symlink
    else if text_eq t (kind_value NodeKind.special)
    then some NodeKind.special
    else if text_eq t (kind_value NodeKind.unknown)
    then some NodeKind.unknown
    else none

abbrev pub observation_value : Observation → Text
observation_value Observation.section_header = codes "section_header"
observation_value Observation.directory_entry = codes "directory_entry"
observation_value Observation.file_entry = codes "file_entry"

unfoldable pub observation_of : Text → Option Observation
observation_of t =
    if text_eq t (observation_value Observation.section_header)
    then some Observation.section_header
    else if text_eq t (observation_value Observation.directory_entry)
    then some Observation.directory_entry
    else if text_eq t (observation_value Observation.file_entry)
    then some Observation.file_entry
    else none

abbrev pub severity_value : Severity → Text
severity_value Severity.warning = codes "warning"
severity_value Severity.error = codes "error"

-- What fails in a statement: the value of a parameter does not fit into 64 bits, which is an
-- OverflowError, or a constraint, which is a `sqlite3.Error`.
pub data SqlError : Type 0 where
  overflow : SqlError
  integrity : String → SqlError

abbrev pub max_integer : ℕ
max_integer = 9223372036854775807

unfoldable pub bindable : Option ℤ → Bool
bindable none = true
bindable (some (pos n)) = not (ltb max_integer n)
bindable (some (negsuc n)) = not (ltb max_integer n)

-- `CHECK (size IS NULL OR size >= 0)`
unfoldable pub check_size : Option ℤ → Bool
check_size none = true
check_size (some n) = not (negative n)

-- `CHECK (source_line IS NULL OR source_line > 0)`
unfoldable pub check_source_line : Option ℤ → Bool
check_source_line none = true
check_source_line (some n) = positive n

-- The row's `parent_id = ? AND mounted_name = ?`; NULL equals nothing.
unfoldable pub is_child : ℕ → Bytes → NodeRow → Bool
is_child parent_id name row =
    option_eq ◌==◌ row.parent_id (some parent_id) && text_eq row.mounted_name name

unfoldable pub first_child : ℕ → Bytes → Dict ℕ NodeRow → Option NodeRow
unfolding is_child
first_child parent_id name [] = none
first_child parent_id name ((id, row) ∷ rows) =
    if is_child parent_id name row then some row else first_child parent_id name rows

-- `parent_id INTEGER REFERENCES nodes(id)`, checked by each statement; a row may refer to itself.
unfoldable pub has_parent : NodeRow → Dict ℕ NodeRow → Bool
unfolding get
has_parent row rows = elim row.parent_id [
  | none ↦ true
  | some parent_id ↦ parent_id == row.id || is_some (get parent_id rows)
]

-- `UNIQUE(parent_id, mounted_name)`
unfoldable pub is_taken : NodeRow → Dict ℕ NodeRow → Bool
unfolding first_child
is_taken row rows = elim row.parent_id [
  | none ↦ false
  | some parent_id ↦ is_some (first_child parent_id row.mounted_name rows)
]

-- `INSERT INTO nodes VALUES (…)`
unfoldable pub insert_row : NodeRow → Dict ℕ NodeRow → Result SqlError (Dict ℕ NodeRow)
unfolding bindable check_size check_source_line is_taken has_parent get put
insert_row row rows =
    if not (bindable row.size && bindable row.source_line)
    then err SqlError.overflow
    else if not (check_size row.size && check_source_line row.source_line)
    then err (SqlError.integrity "CHECK constraint failed")
    else if row.id == 0 || (is_some (get row.id rows) || is_taken row rows)
    then err (SqlError.integrity "UNIQUE constraint failed")
    else if has_parent row rows
    then ok (put row.id row rows)
    else err (SqlError.integrity "FOREIGN KEY constraint failed")

-- The columns that `_update_node` sets, from a row that has them.
abbrev pub set_columns : NodeRow → NodeRow → NodeRow
set_columns given old = record old {
  original_path = given.original_path;
  size = given.size;
  modified_at = given.modified_at;
  content = given.content;
  source_line = given.source_line;
  observation = given.observation;
  metadata_json = given.metadata_json;
}

-- `UPDATE nodes SET original_path=?, … WHERE id=?`
unfoldable pub update_row : NodeRow → Dict ℕ NodeRow → Result SqlError (Dict ℕ NodeRow)
unfolding bindable check_size check_source_line get put
update_row given rows =
    if not (bindable given.size && bindable given.source_line)
    then err SqlError.overflow
    else elim (get given.id rows) [
      | none ↦ ok rows
      | some old ↦
          if check_size given.size && check_source_line given.source_line
          then ok (put given.id (set_columns given old) rows)
          else err (SqlError.integrity "CHECK constraint failed")
    ]
