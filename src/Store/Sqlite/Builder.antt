-- ===== src/Store/Sqlite/Builder.antt =====
-- store/sqlite/builder.py: the constructor, `add` and `abort`. A statement fails only by its
-- constraints and by values that do not fit; a method returns its outcome beside the builder
-- that it leaves.
pub mod Rereading
pub mod Mirroring
pub mod Settling
pub mod Inserting
pub mod Entering
pub mod Refining
use snapshot_fs.Prelude.{
  ℕ, ◌+◌, Bool, true, false, not, ◌&&◌, Option, none, some, List, [], ◌∷◌, String, Text, Bytes,
  Result, ok, err, ◌>>=◌, if◌then◌else◌, take, codes,
}
use snapshot_fs.Dict.{Dict, get, nat_key, text_key}
use snapshot_fs.Model.Enums.{NodeKind, ContentStatus, Observation, kind_is, status_value}
use snapshot_fs.Model.Message.{
  Error, Message, lit, exception, says, runtime_error, overflow_error, value_error,
}
use snapshot_fs.Model.Metadata.{dict, end, Metadata}
use snapshot_fs.Model.Entry.{ParsedEntry}
use snapshot_fs.Model.Snapshot.{Snapshot}
use snapshot_fs.Store.Errors.{StoreError}
use snapshot_fs.Store.Building.{
  Exception, raised, store_error, MutableNode, components, join, conflict, merge, entry_location,
}
use snapshot_fs.Store.Memory.Builder.{fresh_node, is_last, finished_error}
use snapshot_fs.Store.Sqlite.Codec.{
  IsoText, JsonText, encode_datetime, decode_datetime, encode_metadata, decode_metadata,
}
use snapshot_fs.Store.Sqlite.Artifact.{Files}
use snapshot_fs.Store.Sqlite.Tables.{
  SnapshotRow, NodeRow, DiagnosticRow, Tables, no_tables, SqlError, overflow, integrity, kind_value,
  kind_of, observation_value, observation_of, first_child, insert_row, update_row,
}

-- A file is empty, an artifact with its tables, or anything else.
pub data Content : Type 0 where
  empty : Content
  artifact : Tables → Content
  foreign : Bytes → Content

-- The connection is the flag `connected` with the tables that it works on.
pub record SqliteBuilder : Type 0 where
  pub snapshot : Snapshot
  pub destination : Text
  pub overwrite : Bool
  pub temporary : Option Text
  pub connected : Bool
  pub finished : Bool
  pub next_inode : ℕ
  pub snapshots : List SnapshotRow
  pub nodes : Dict ℕ NodeRow
  pub diagnostics : List DiagnosticRow
  pub files : Files Content

-- `_active`
unfoldable pub is_active : SqliteBuilder → Bool
is_active s = not s.finished && s.connected

-- The row that `_insert_node` writes.
unfoldable pub node_row : Text → JsonText → MutableNode → NodeRow
unfolding encode_datetime
node_row snapshot_id metadata_json n = record {
  id = n.id;
  snapshot_id = snapshot_id;
  parent_id = n.parent_id;
  mounted_name = n.mounted_name;
  original_path = n.original_path;
  kind = kind_value n.kind;
  size = n.size;
  modified_at = encode_datetime n.modified_at;
  content = n.content;
  content_status = status_value ContentStatus.not_applicable;
  content_ref = none;
  source_line = n.source_line;
  observation = elim n.observation [ none ↦ none | some seen ↦ some (observation_value seen) ];
  metadata_json = metadata_json;
}

-- The text "{}".
abbrev pub empty_json : JsonText
empty_json = JsonText.compact (dict end)

-- `NodeKind(row["kind"])`
unfoldable pub decode_kind : Text → Result Exception NodeKind
unfolding kind_of
decode_kind value = elim (kind_of value) [
  | none ↦ err (raised (value_error (exception "is not a valid NodeKind" ∷ [])))
  | some kind ↦ ok kind
]

unfoldable pub decode_observation : Option Text → Result Exception (Option Observation)
unfolding observation_of
decode_observation none = ok none
decode_observation (some value) = elim (observation_of value) [
  | none ↦ err (raised (value_error (exception "is not a valid Observation" ∷ [])))
  | some seen ↦ ok (some seen)
]

-- A call of the codec: what it raises passes through.
abbrev pub raising {ℓ} : {A : Type ℓ} → Result Error A → Result Exception A
raising (ok a) = ok a
raising (err e) = err (raised e)

unfoldable pub mutable : NodeRow → Result Exception MutableNode
unfolding decode_kind decode_datetime decode_observation decode_metadata
mutable row = do
  kind ← decode_kind row.kind
  modified_at ← raising (decode_datetime row.modified_at)
  observation ← decode_observation row.observation
  source_metadata ← raising (decode_metadata row.metadata_json)
  ok (record {
    id = row.id;
    parent_id = row.parent_id;
    mounted_name = row.mounted_name;
    original_path = row.original_path;
    kind = kind;
    size = row.size;
    modified_at = modified_at;
    content = row.content;
    source_line = row.source_line;
    observation = observation;
    source_metadata = source_metadata;
  })

module _ (entry : ParsedEntry) where
  -- `except sqlite3.Error`: an OverflowError is none.
  unfoldable pub persist_failure : SqliteBuilder → SqlError → Exception
  unfolding entry_location
  persist_failure s overflow =
      raised (overflow_error (exception "Python int too large to convert to SQLite INTEGER" ∷ []))
  persist_failure s (integrity constraint) =
      store_error StoreError.persistence s.destination
        (lit "cannot persist entry at " ∷ entry_location entry entry.source_line)

  -- `_update_node(node, encode_metadata(node.source_metadata))`
  unfoldable pub update_node : MutableNode → SqliteBuilder → Result Exception ℕ × SqliteBuilder
  unfolding encode_metadata node_row update_row persist_failure
  update_node n s = elim (encode_metadata n.source_metadata) [
    | err e ↦ (err (raised e), s)
    | ok metadata_json ↦ elim (update_row (node_row s.snapshot.id metadata_json n) s.nodes) [
      | ok rows ↦ (ok n.id, record s { nodes = rows })
      | err e ↦ (err (persist_failure s e), s)
    ]
  ]

  unfoldable pub settle_row :
      Bool → MutableNode → SqliteBuilder → Result Exception ℕ × SqliteBuilder
  unfolding merge update_node
  settle_row final n s =
      if final
      then elim (merge n entry) [ err e ↦ (err e, s) | ok n' ↦ update_node n' s ]
      else (ok n.id, s)

  -- The branch `row is None`.
  unfoldable pub insert_node :
      ℕ → Bool → NodeKind → Bytes → ℕ → SqliteBuilder → Result Exception ℕ × SqliteBuilder
  unfolding join node_row insert_row settle_row persist_failure
  insert_node index final kind name parent_id s =
      let n =
        fresh_node s.next_inode (some parent_id) name (some (join (take (index + 1) entry.path)))
          kind in
      let s' : SqliteBuilder = record s { next_inode = s.next_inode + 1 } in
      elim (insert_row (node_row s.snapshot.id empty_json n) s.nodes) [
        | ok rows ↦ settle_row final n (record s' { nodes = rows })
        | err e ↦ (err (persist_failure s e), s')
      ]

  -- The other branch.
  unfoldable pub reuse_row :
      Bool → NodeKind → NodeRow → SqliteBuilder → Result Exception ℕ × SqliteBuilder
  unfolding mutable conflict settle_row
  reuse_row final kind row s = elim (mutable row) [
    | err e ↦ (err e, s)
    | ok n ↦
        if kind_is n.kind kind
        then settle_row final n s
        else (err (conflict n entry "file/directory type conflict"), s)
  ]

  -- The body of the loop over the components: the next `parent_id`.
  unfoldable pub visit_row :
      ℕ → Bool → Bytes → ℕ → SqliteBuilder → Result Exception ℕ × SqliteBuilder
  unfolding first_child insert_node reuse_row
  visit_row index final name parent_id s =
      let kind = if final then entry.kind else NodeKind.directory in
      elim (first_child parent_id name s.nodes) [
        | none ↦ insert_node index final kind name parent_id s
        | some row ↦ reuse_row final kind row s
      ]

  unfoldable pub add_rows :
      ℕ → List Bytes → ℕ → SqliteBuilder → Result Exception (Unit {0}) × SqliteBuilder
  unfolding visit_row
  add_rows index [] parent_id s = (ok tt, s)
  add_rows index (name ∷ rest) parent_id s =
      let (outcome, s') = visit_row index (is_last rest) name parent_id s in
      elim outcome [ ok node_id ↦ add_rows (index + 1) rest node_id s' | err e ↦ (err e, s') ]

  unfoldable pub add_entry : SqliteBuilder → Result Exception (Unit {0}) × SqliteBuilder
  unfolding components add_rows is_active
  add_entry s =
      if is_active s
      then elim (components entry entry.path) [
        | ok names ↦ add_rows 0 names 1 s
        | err e ↦ (err e, s)
      ]
      else (err finished_error, s)

  unfoldable pub add : SqliteBuilder → Result Exception (Unit {0}) × SqliteBuilder
  unfolding encode_metadata entry_location add_entry
  add s = elim (encode_metadata entry.source_metadata) [
    | ok text ↦ add_entry s
    | err e ↦ (
      err (
          store_error StoreError.persistence s.destination
            (lit "entry metadata at " ∷ entry_location entry entry.source_line)),
      s,
    )
  ]
