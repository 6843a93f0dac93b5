-- ===== src/Store/Sqlite/Finishing.antt =====
-- store/sqlite/builder.py: `finish`, and the constructor of store/sqlite/store.py, which it
-- calls. Each is none while the validation of the artifact runs, after so many levels of its
-- recursive queries.
pub mod Contents
pub mod Safety
use snapshot_fs.Prelude.{
  ℕ, suc, Bool, true, false, not, ◌&&◌, ◌||◌, Option, none, some, List, [], ◌∷◌, pos, Text, Bytes,
  codes, Result, ok, err, ◌>>=◌, if◌then◌else◌, any, text_eq, option_eq, int_eq, is_none, is_some,
  ◌==◌,
}
use snapshot_fs.Dict.{Dict, get, put, values, nat_key, text_key}
use snapshot_fs.Model.Enums.{NodeKind, ContentStatus, status_value}
use snapshot_fs.Model.Message.{Error, Message, lit, exception, says, overflow_error}
use snapshot_fs.Diagnostics.{ImportDiagnostic}
use snapshot_fs.Store.Errors.{StoreError}
use snapshot_fs.Store.Building.{Exception, raised, store_error}
use snapshot_fs.Store.Memory.Builder.{finished_error, count_or}
use snapshot_fs.Store.Sqlite.Tables.{
  SnapshotRow, NodeRow, DiagnosticRow, Tables, SqlError, overflow, integrity, kind_value,
  severity_value, bindable, check_source_line,
}
use snapshot_fs.Store.Sqlite.Artifact.{Host, Files, publish}
use snapshot_fs.Store.Sqlite.Builder.{Content, empty, artifact, foreign, SqliteBuilder, is_active}
use snapshot_fs.Store.Sqlite.Opening.{abort}
use snapshot_fs.Store.Sqlite.Store.{SqliteStore}
use snapshot_fs.Store.Sqlite.Checking.{breaks_key, validate}

-- The store of a file whose validation has this outcome.
abbrev pub opened :
    Text → Tables → Option (Result Exception (Unit {0})) → Option (Result Exception SqliteStore)
opened path tables none = none
opened path tables (some (ok done)) =
    some (ok (record { path = path; tables = tables; connected = true }))
opened path tables (some (err e)) = some (err e)

-- Only a file that the builder wrote has the pragmas and the schema.
unfoldable pub open_content : ℕ → Text → Option Content → Option (Result Exception SqliteStore)
unfolding validate
open_content fuel path none =
    some (err (store_error StoreError.store path (says "snapshot artifact does not exist")))
open_content fuel path (some (artifact tables)) = opened path tables (validate path fuel tables)
open_content fuel path (some empty) =
    some (err (store_error StoreError.schema path (says "file is not a SnapshotFS artifact")))
open_content fuel path (some (foreign bytes)) = some (
    err
      (store_error StoreError.schema path (lit "invalid SQLite artifact: " ∷ exception "exc" ∷ [])))

-- `SQLiteSnapshotStore(path)`
unfoldable pub open_store : ℕ → Text → Files Content → Option (Result Exception SqliteStore)
unfolding get open_content
open_store fuel path files = open_content fuel path (get path files)

-- `UPDATE nodes SET content = X'' WHERE kind = 'file' AND size = 0 AND content IS NULL`
unfoldable pub fill_content : NodeRow → NodeRow
fill_content row =
    if text_eq row.kind (kind_value NodeKind.file)
      && (option_eq int_eq row.size (some (pos 0)) && is_none row.content)
    then record row { content = some [] }
    else row

-- `UPDATE nodes SET content_status = CASE … END`
unfoldable pub set_status : NodeRow → NodeRow
set_status row = record row {
  content_status =
      if text_eq row.kind (kind_value NodeKind.directory)
      then status_value ContentStatus.not_applicable
      else if text_eq row.kind (kind_value NodeKind.file) && is_some row.content
      then status_value ContentStatus.present
      else status_value ContentStatus.missing;
}

unfoldable pub finish_rows : Dict ℕ NodeRow → Dict ℕ NodeRow
unfolding fill_content set_status
finish_rows [] = []
finish_rows ((id, row) ∷ rows) = (id, set_status (fill_content row)) ∷ finish_rows rows

-- `executemany`, from the position of the first item on
unfoldable pub insert_diagnostics : ℕ → List ImportDiagnostic → Result SqlError (List DiagnosticRow)
unfolding bindable check_source_line
insert_diagnostics index [] = ok []
insert_diagnostics index (item ∷ items) =
    let rest = insert_diagnostics (suc index) items in
    if not (bindable item.line_number)
    then err overflow
    else if not (check_source_line item.line_number)
    then err (integrity "CHECK constraint failed")
    else (do
      rows ← rest
      ok (
          record {
            position = index;
            severity = severity_value item.severity;
            code = item.code;
            message = item.message;
            line_number = item.line_number;
          }
          ∷ rows))

-- `UPDATE snapshot SET diagnostic_count = ?`
unfoldable pub count_diagnostics : ℕ → List SnapshotRow → List SnapshotRow
count_diagnostics count [] = []
count_diagnostics count (row ∷ rows) =
    record row { diagnostic_count = count } ∷ count_diagnostics count rows

module _ (host : Host) (fuel : ℕ) (s : SqliteBuilder) where
  abbrev Finished : Type 0
  Finished = Option (Result Exception SqliteStore × SqliteBuilder)

  -- The handlers: the builder is aborted, and an error of the schema is raised for the
  -- destination.
  unfoldable pub handled : Exception → Exception
  handled (store_error StoreError.schema path detail) =
      store_error StoreError.schema s.destination
        (lit "built artifact failed validation: " ∷ detail)
  handled e = e

  unfoldable pub failing : Exception → SqliteBuilder → Finished
  unfolding handled abort
  failing e left = some (err (handled e), abort host left)

  -- `return SQLiteSnapshotStore(self.destination)`
  abbrev pub returning : SqliteBuilder → Option (Result Exception SqliteStore) → Finished
  unfolding failing
  returning published none = none
  returning published (some (ok store)) = some (ok store, published)
  returning published (some (err e)) = failing e published

  -- What follows `publish`
  abbrev pub concluded : SqliteBuilder → Result Exception (Unit {0}) × Files Content → Finished
  unfolding open_store failing returning
  concluded left (err e, files) = failing e (record left { files = files })
  concluded left (ok done, files) =
      returning (record left { files = files; temporary = none; finished = true })
        (open_store fuel left.destination files)

  unfoldable pub publish_artifact : Text → SqliteBuilder → Finished
  unfolding publish concluded
  publish_artifact temporary left =
      concluded left (publish host left.overwrite temporary left.destination left.files)

  -- What follows the validation of the temporary file
  abbrev pub committed : Text → SqliteBuilder → Option (Result Exception SqliteStore) → Finished
  unfolding failing publish_artifact
  committed temporary left none = none
  committed temporary left (some (err e)) = failing e left
  committed temporary left (some (ok store)) = publish_artifact temporary left

  -- `commit` and closing the connection
  abbrev pub written : Text → Tables → SqliteBuilder
  unfolding put
  written temporary tables = record s {
    connected = false;
    files = put temporary (artifact tables) s.files;
    snapshots = tables.snapshot;
    nodes = tables.nodes;
    diagnostics = tables.diagnostics;
  }

  unfoldable pub commit : Text → Tables → Finished
  unfolding open_store written committed
  commit temporary tables =
      let left = written temporary tables in
      committed temporary left (open_store fuel temporary left.files)

  abbrev pub key_failure : Exception
  key_failure =
      store_error StoreError.persistence s.destination
        (says "artifact failed foreign-key validation")

  -- The tables once their rows are inserted and updated
  unfoldable pub finish_tables : Text → Tables → Finished
  unfolding breaks_key values failing commit
  finish_tables temporary tables =
      if any (λ row. breaks_key tables row) (values tables.nodes)
      then failing key_failure s
      else commit temporary tables

  abbrev pub finish_failure : SqlError → Exception
  finish_failure overflow =
      raised (overflow_error (exception "Python int too large to convert to SQLite INTEGER" ∷ []))
  finish_failure (integrity constraint) =
      store_error StoreError.persistence s.destination
        (lit "cannot finalize artifact: " ∷ exception constraint ∷ [])

  abbrev pub inserted : Text → ℕ → Result SqlError (List DiagnosticRow) → Finished
  unfolding finish_rows count_diagnostics failing finish_tables
  inserted temporary count (err e) = failing (finish_failure e) s
  inserted temporary count (ok rows) = finish_tables temporary (record {
    snapshot = count_diagnostics count s.snapshots;
    nodes = finish_rows s.nodes;
    diagnostics = rows;
  })

  -- The builder has a temporary file as long as it is active.
  abbrev pub from_temporary : List ImportDiagnostic → ℕ → Option Text → Finished
  unfolding insert_diagnostics inserted
  from_temporary items count none = some (err finished_error, s)
  from_temporary items count (some temporary) =
      inserted temporary count (insert_diagnostics 0 items)

  unfoldable pub finish : List ImportDiagnostic → Option ℕ → Finished
  unfolding is_active from_temporary
  finish items diagnostic_count =
      if is_active s
      then from_temporary items (count_or diagnostic_count items) s.temporary
      else some (err finished_error, s)
