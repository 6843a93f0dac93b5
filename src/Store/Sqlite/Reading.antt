-- ===== src/Store/Sqlite/Reading.antt =====
-- store/sqlite/store.py: the records that the rows of the tables stand for.
use snapshot_fs.Prelude.{
  Option, none, some, [], ◌∷◌, Text, Result, ok, err, ◌>>=◌, if◌then◌else◌, text_eq, String,
}
use snapshot_fs.Model.Enums.{ContentStatus, Severity, status_value}
use snapshot_fs.Model.Message.{Error, exception, lit, value_error}
use snapshot_fs.Model.Node.{Node, node}
use snapshot_fs.Model.Snapshot.{Snapshot, snapshot}
use snapshot_fs.Diagnostics.{ImportDiagnostic, import_diagnostic}
use snapshot_fs.Store.Errors.{StoreError}
use snapshot_fs.Store.Building.{Exception, store_error}
use snapshot_fs.Store.Sqlite.Codec.{decode_datetime, decode_metadata}
use snapshot_fs.Store.Sqlite.Tables.{SnapshotRow, NodeRow, DiagnosticRow, kind_of, severity_value}

-- `except (ValueError, TypeError, …) as exc: raise SQLiteSchemaError(…)`
abbrev pub or_schema_error {ℓ} : {A : Type ℓ} → Text → String → Result Error A → Result Exception A
or_schema_error path what (ok a) = ok a
or_schema_error path what (err e) =
    err (store_error StoreError.schema path (lit what ∷ exception "exc" ∷ []))

-- `ContentStatus(value)`
unfoldable pub status_named : Text → Option ContentStatus
status_named t =
    if text_eq t (status_value ContentStatus.not_applicable)
    then some ContentStatus.not_applicable
    else if text_eq t (status_value ContentStatus.missing)
    then some ContentStatus.missing
    else if text_eq t (status_value ContentStatus.present)
    then some ContentStatus.present
    else if text_eq t (status_value ContentStatus.remote)
    then some ContentStatus.remote
    else if text_eq t (status_value ContentStatus.failed)
    then some ContentStatus.failed
    else if text_eq t (status_value ContentStatus.redacted)
    then some ContentStatus.redacted
    else none

-- `Severity(value)`
unfoldable pub severity_of : Text → Option Severity
severity_of t =
    if text_eq t (severity_value Severity.warning)
    then some Severity.warning
    else if text_eq t (severity_value Severity.error)
    then some Severity.error
    else none

-- A member of an enumeration by its value, or the ValueError.
abbrev pub member {ℓ} : {A : Type ℓ} → Option A → Result Error A
member none = err (value_error (exception "is not a valid value" ∷ []))
member (some a) = ok a

unfoldable pub node_of_row : Text → NodeRow → Result Exception Node
unfolding kind_of status_named decode_datetime decode_metadata node
node_of_row path row = or_schema_error path "invalid node record: " (do
  metadata ← decode_metadata row.metadata_json
  kind ← member (kind_of row.kind)
  modified_at ← decode_datetime row.modified_at
  status ← member (status_named row.content_status)
  node (record {
    id = row.id;
    snapshot_id = row.snapshot_id;
    parent_id = row.parent_id;
    mounted_name = row.mounted_name;
    original_path = row.original_path;
    kind = kind;
    size = row.size;
    modified_at = modified_at;
    content = row.content;
    content_status = status;
    content_ref = row.content_ref;
    source_line = row.source_line;
    source_metadata = metadata;
  }))

-- The column `imported_at` is NOT NULL.
unfoldable pub snapshot_of_row : Text → SnapshotRow → Result Exception Snapshot
unfolding decode_datetime decode_metadata snapshot
snapshot_of_row path row = or_schema_error path "invalid snapshot record: " (do
  read ← decode_datetime (some row.imported_at)
  imported_at ← member read
  metadata ← decode_metadata row.metadata_json
  snapshot (record {
    id = row.id;
    source_uri = row.source_uri;
    source_format = row.source_format;
    imported_at = imported_at;
    source_metadata = metadata;
  }))

unfoldable pub diagnostic_of_row : Text → DiagnosticRow → Result Exception ImportDiagnostic
unfolding severity_of import_diagnostic
diagnostic_of_row path row = or_schema_error path "invalid diagnostic record: " (do
  severity ← member (severity_of row.severity)
  import_diagnostic (record {
    severity = severity;
    code = row.code;
    message = row.message;
    line_number = row.line_number;
  }))
