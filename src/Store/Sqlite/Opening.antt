-- ===== src/Store/Sqlite/Opening.antt =====
-- store/sqlite/builder.py: the constructor and `abort`.
pub mod Mirrored
use snapshot_fs.Prelude.{
  ℕ, Bool, true, false, not, ◌&&◌, Option, none, some, List, [], ◌∷◌, Text, Result, ok, err,
  if◌then◌else◌, is_some,
}
use snapshot_fs.Dict.{get, nat_key, text_key}
use snapshot_fs.Model.Enums.{NodeKind}
use snapshot_fs.Model.Message.{exception, says, lit}
use snapshot_fs.Model.Snapshot.{Snapshot}
use snapshot_fs.Store.Errors.{StoreError}
use snapshot_fs.Store.Building.{Exception, store_error}
use snapshot_fs.Store.Memory.Builder.{fresh_node}
use snapshot_fs.Store.Sqlite.Codec.{IsoText, JsonText, fixed, encode_metadata}
use snapshot_fs.Store.Sqlite.Tables.{SnapshotRow, NodeRow, SqlError, insert_row}
use snapshot_fs.Store.Sqlite.Artifact.{Host, Files, create_temporary, cleanup}
use snapshot_fs.Store.Sqlite.Builder.{Content, empty, SqliteBuilder, node_row, empty_json}

-- `_insert_snapshot`, once its metadata are encoded
unfoldable pub snapshot_row : Snapshot → JsonText → SnapshotRow
unfolding fixed
snapshot_row s metadata_json = record {
  id = s.id;
  source_uri = s.source_uri;
  source_format = s.source_format;
  imported_at = IsoText.iso (fixed s.imported_at);
  metadata_json = metadata_json;
  diagnostic_count = 0;
}

module _ (host : Host) where
  unfoldable pub abort : SqliteBuilder → SqliteBuilder
  unfolding cleanup
  abort s = record s {
    connected = false;
    files = cleanup host s.temporary s.files;
    temporary = none;
    finished = true;
  }

  module _ (given : Snapshot) (destination : Text) (overwrite : Bool) where
    -- The body of the `try` and its handlers, on the new temporary file.
    unfoldable pub initialize :
        Text → Files Content → Result Exception SqliteBuilder × Files Content
    unfolding encode_metadata snapshot_row node_row insert_row cleanup
    initialize temporary files = elim (encode_metadata given.source_metadata) [
      | err e ↦ (
        err (
            store_error StoreError.persistence destination
              (says "snapshot metadata is not JSON serializable: ")),
        cleanup host (some temporary) files,
      )
      | ok metadata_json ↦
          elim (insert_row
            (node_row given.id empty_json (fresh_node 1 none [] none NodeKind.directory)) []) [
              | err e ↦ (
                err (
                    store_error StoreError.persistence destination
                      (lit "cannot initialize artifact: " ∷ exception "sqlite3.Error" ∷ [])),
                cleanup host (some temporary) files,
              )
              | ok rows ↦ (
                ok (record {
                  snapshot = given;
                  destination = destination;
                  overwrite = overwrite;
                  temporary = some temporary;
                  connected = true;
                  finished = false;
                  next_inode = 2;
                  snapshots = snapshot_row given metadata_json ∷ [];
                  nodes = rows;
                  diagnostics = [];
                  files = files;
                }),
                files,
              )
            ]
    ]

    unfoldable pub open_builder : Files Content → Result Exception SqliteBuilder × Files Content
    unfolding get create_temporary initialize
    open_builder files =
        if is_some (get destination files) && not overwrite
        then (
          err (
              store_error StoreError.destination_exists destination
                (says "destination already exists (use overwrite=True)")),
          files,
        )
        else if not host.parent_is_directory
        then (
          err (
              store_error StoreError.persistence destination
                (says "parent directory does not exist")),
          files,
        )
        else (let (created, files') = create_temporary host destination empty files in
            elim created [ ok temporary ↦ initialize temporary files' | err e ↦ (err e, files') ])
