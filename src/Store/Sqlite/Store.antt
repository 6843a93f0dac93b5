-- ===== src/Store/Sqlite/Store.antt =====
-- store/sqlite/store.py: the methods of an open or closed store. Each raises the error of a
-- closed store before it reads; reading the tables does not fail otherwise.
use snapshot_fs.Prelude.{
  ℕ, ◌-◌, suc, Bool, false, Option, none, some, List, [], ◌∷◌, ℤ, pos, negsuc, Text, Bytes, Result,
  ok, err, ◌>>=◌, if◌then◌else◌, leb, ◌==◌, length, drop, text_eq, option_eq,
}
use snapshot_fs.Dict.{Dict, get, values, nat_key}
use snapshot_fs.Model.Message.{says}
use snapshot_fs.Model.Node.{Node}
use snapshot_fs.Model.Snapshot.{Snapshot}
use snapshot_fs.Diagnostics.{ImportDiagnostic}
use snapshot_fs.Store.Errors.{StoreError}
use snapshot_fs.Store.Building.{Exception, key_error, store_error}
use snapshot_fs.Store.Memory.Store.{bytes_le}
use snapshot_fs.Store.Sqlite.Tables.{SnapshotRow, NodeRow, DiagnosticRow, Tables, first_child}
use snapshot_fs.Store.Sqlite.Reading.{snapshot_of_row, node_of_row, diagnostic_of_row}

pub record SqliteStore : Type 0 where
  pub path : Text
  pub tables : Tables
  pub connected : Bool

-- ORDER BY mounted_name COLLATE BINARY
unfoldable pub insert_by_name : NodeRow → List NodeRow → List NodeRow
unfolding bytes_le
insert_by_name row [] = row ∷ []
insert_by_name row (r ∷ rows) =
    if bytes_le row.mounted_name r.mounted_name then row ∷ r ∷ rows else r ∷ insert_by_name row rows

unfoldable pub order_by_name : List NodeRow → List NodeRow
unfolding insert_by_name
order_by_name [] = []
order_by_name (row ∷ rows) = insert_by_name row (order_by_name rows)

-- ORDER BY id
unfoldable pub insert_by_id : NodeRow → List NodeRow → List NodeRow
insert_by_id row [] = row ∷ []
insert_by_id row (r ∷ rows) = if leb row.id r.id then row ∷ r ∷ rows else r ∷ insert_by_id row rows

unfoldable pub order_by_id : List NodeRow → List NodeRow
unfolding insert_by_id
order_by_id [] = []
order_by_id (row ∷ rows) = insert_by_id row (order_by_id rows)

-- WHERE parent_id = ?
unfoldable pub child_rows : ℕ → Dict ℕ NodeRow → List NodeRow
child_rows parent_id [] = []
child_rows parent_id ((id, row) ∷ rows) =
    let rest = child_rows parent_id rows in
    if option_eq ◌==◌ row.parent_id (some parent_id) then row ∷ rest else rest

-- SELECT … FROM snapshot WHERE id = ?
unfoldable pub snapshot_row : Text → List SnapshotRow → Option SnapshotRow
snapshot_row id [] = none
snapshot_row id (row ∷ rows) = if text_eq row.id id then some row else snapshot_row id rows

-- SELECT … FROM diagnostics ORDER BY position
unfoldable pub insert_by_position : DiagnosticRow → List DiagnosticRow → List DiagnosticRow
insert_by_position row [] = row ∷ []
insert_by_position row (r ∷ rows) =
    if leb row.position r.position then row ∷ r ∷ rows else r ∷ insert_by_position row rows

unfoldable pub order_by_position : List DiagnosticRow → List DiagnosticRow
unfolding insert_by_position
order_by_position [] = []
order_by_position (row ∷ rows) = insert_by_position row (order_by_position rows)

-- `tuple(… for row in rows)`: the first row that raises ends it.
unfoldable pub each_row {ℓ κ} :
    {R : Type ℓ} {A : Type κ} → (R → Result Exception A) → List R → Result Exception (List A)
each_row read [] = ok []
each_row read (row ∷ rows) = do a ← read row; as' ← each_row read rows; ok (a ∷ as')

module _ (s : SqliteStore) where
  unfoldable pub require_open : Result Exception (Unit {0})
  require_open =
      if s.connected
      then ok tt
      else err (store_error StoreError.closed s.path (says "snapshot store is closed"))

  unfoldable pub close : SqliteStore
  close = record s { connected = false }

  unfoldable pub diagnostics : Result Exception (List ImportDiagnostic)
  unfolding require_open order_by_position each_row
  diagnostics = do
    _ ← require_open
    each_row (diagnostic_of_row s.path) (order_by_position s.tables.diagnostics)

  unfoldable pub get_snapshot : Text → Result Exception Snapshot
  unfolding require_open snapshot_row
  get_snapshot snapshot_id = do
    _ ← require_open
    elim (snapshot_row snapshot_id s.tables.snapshot) [
      | none ↦ err key_error
      | some row ↦ snapshot_of_row s.path row
    ]

  unfoldable pub get_node : ℕ → Result Exception Node
  unfolding require_open get
  get_node inode = do
    _ ← require_open
    elim (get inode s.tables.nodes) [ none ↦ err key_error | some row ↦ node_of_row s.path row ]

  unfoldable pub get_root : Text → Result Exception Node
  unfolding get_snapshot get_node
  get_root snapshot_id = do _ ← get_snapshot snapshot_id; get_node 1

  abbrev pub some_node : Option NodeRow → Result Exception (Option Node)
  some_node none = ok none
  some_node (some row) = do n ← node_of_row s.path row; ok (some n)

  unfoldable pub lookup : ℕ → Bytes → Result Exception (Option Node)
  unfolding get_node require_open first_child
  lookup parent_inode name = do
    _ ← get_node parent_inode
    _ ← require_open
    some_node (first_child parent_inode name s.tables.nodes)

  -- The OFFSET, or none where the method returns `()` at once.
  unfoldable pub offset_of : ℤ → ℕ → Option ℕ
  offset_of (pos n) count = if leb count n then none else some n
  offset_of (negsuc n) count = some (count - suc n)

  -- The second query and the nodes of its rows.
  unfoldable pub from_offset : Option ℕ → List NodeRow → Result Exception (List Node)
  unfolding order_by_name each_row
  from_offset none rows = ok []
  from_offset (some n) rows = each_row (node_of_row s.path) (drop n (order_by_name rows))

  unfoldable pub iter_children : ℕ → ℤ → Result Exception (List Node)
  unfolding get_node require_open child_rows offset_of from_offset
  iter_children parent_inode offset = do
    _ ← get_node parent_inode
    _ ← require_open
    from_offset (offset_of offset (length (child_rows parent_inode s.tables.nodes)))
        (child_rows parent_inode s.tables.nodes)

  unfoldable pub iter_nodes : Result Exception (List Node)
  unfolding require_open order_by_id each_row values
  iter_nodes = do
    _ ← require_open
    each_row (node_of_row s.path) (order_by_id (values s.tables.nodes))
