-- ===== src/Store/Sqlite/Builder/Inserting.antt =====
-- A new node in SQLite and in memory.
use snapshot_fs.Prelude.{
  ℕ, ◌+◌, ◌≡◌, refl, sym, ◌∙◌, ap, ap₂, subst, Bool, true, false, ◌&&◌, none, some, Bytes, ok,
  arith, inl, inr, ◌==◌, take, Option-cases, is_some,
}
use snapshot_fs.Dict.{Dict, get, put, nat_key}
use snapshot_fs.Dict.Laws.{get-put_self}
use snapshot_fs.Dict.Unique.{Unique-put}
use snapshot_fs.Model.Enums.{NodeKind}
use snapshot_fs.Model.Metadata.{end}
use snapshot_fs.Model.Entry.{ParsedEntry}
use snapshot_fs.Store.Building.{MutableNode, join}
use snapshot_fs.Store.Memory.Builder.{Builder, fresh_node, created, create, settle}
use snapshot_fs.Store.Memory.Builder.Tree.{IsTree, IsDirectory}
use snapshot_fs.Store.Sqlite.Codec.{encode_metadata}
use snapshot_fs.Store.Sqlite.Tables.{
  NodeRow, bindable, check_size, check_source_line, insert_row, is_taken, has_parent, first_child,
}
use snapshot_fs.Store.Sqlite.Builder.{
  SqliteBuilder, is_active, node_row, empty_json, settle_row, insert_node,
}
use snapshot_fs.Store.Sqlite.Builder.Mirroring.{
  Stores, Mirror-none, Mirror-some, Mirror-put, Mirrors,
}
use snapshot_fs.Store.Sqlite.Builder.Settling.{IsPersistable, Agrees, settle-Agrees}

is_taken-eq :
    (row : NodeRow) (p : ℕ) (rows : Dict ℕ NodeRow)
    → row.parent_id ≡ some p
    → first_child p row.mounted_name rows ≡ none
    → is_taken row rows ≡ false
unfolding is_taken
is_taken-eq row p rows parent new = rw (parent, is_taken) (rw new refl)

has_parent-eq :
    (row : NodeRow) (p : ℕ) (rows : Dict ℕ NodeRow)
    → row.parent_id ≡ some p
    → is_some (get p rows) ≡ true
    → has_parent row rows ≡ true
unfolding has_parent
has_parent-eq row p rows parent below = rw (parent, has_parent) (rw below (ground arith))

-- A row that meets the constraints is inserted.
insert_row-eq :
    (row : NodeRow) (p : ℕ) (rows : Dict ℕ NodeRow)
    → row.parent_id ≡ some p
    → (bindable row.size && bindable row.source_line) ≡ true
    → (check_size row.size && check_source_line row.source_line) ≡ true
    → (row.id == 0) ≡ false
    → get row.id rows ≡ none
    → first_child p row.mounted_name rows ≡ none
    → is_some (get p rows) ≡ true
    → insert_row row rows ≡ ok (put row.id row rows)
unfolding insert_row
insert_row-eq row p rows parent fits checked positive free new below =
    rw
      (
        fits,
        checked,
        positive,
        free,
        is_taken-eq row p rows parent new,
        has_parent-eq row p rows parent below,
      )
      refl

-- The table with a new node, beside the builder with it.
module _ (entry : ParsedEntry) (index : ℕ) (kind : NodeKind) (name : Bytes) (p : ℕ) (b : Builder)
    (s : SqliteBuilder) (m : Mirrors b s) (t : IsTree b) (dir : IsDirectory b p)
    (query : first_child p name s.nodes ≡ none) where
  abbrev new_node : MutableNode
  new_node = created entry index kind name p b

  abbrev new_row : NodeRow
  new_row = node_row b.snapshot.id empty_json new_node

  abbrev inserted : SqliteBuilder
  inserted = record s { next_inode = s.next_inode + 1; nodes = put b.next_id new_row s.nodes }

  unused : get b.next_id b.nodes ≡ none
  unused = elim (Option-cases (get b.next_id b.nodes)) [
    | inl absent ↦ absent
    | inr (n, there) ↦ absurd (let below = t.bounded b.next_id n there in omega arith)
  ]

  below_row : is_some (get p s.nodes) ≡ true
  below_row =
      let (row, there, stores) =
        Mirror-some b.snapshot.id p dir.at b.nodes s.nodes m.rows dir.held in
      rw there refl

  Stores-new : Stores b.snapshot.id new_node new_row
  unfolding created bindable check_size check_source_line encode_metadata
  Stores-new = record {
    json = empty_json;
    encoded = refl;
    written = refl;
    fits = refl;
    checked = refl;
  }

  Mirrors-create : Mirrors (create p new_node b) inserted
  unfolding create created is_active
  Mirrors-create = record {
    snapshot = m.snapshot;
    next = ap (λ k. k + 1) m.next;
    active = m.active;
    unique = Unique-put b.next_id new_node b.nodes m.unique;
    rows = Mirror-put b.snapshot.id b.next_id new_node new_row b.nodes s.nodes Stores-new m.rows;
  }

  inserts : insert_row new_row s.nodes ≡ ok (put b.next_id new_row s.nodes)
  unfolding created node_row bindable check_size check_source_line
  inserts =
      insert_row-eq new_row p s.nodes refl refl refl
        (let below = t.bounded 1 t.root.at t.root.held in ground arith)
        (Mirror-none b.snapshot.id b.next_id b.nodes s.nodes m.rows unused) query below_row

  -- The node with the id that the table's builder gives it.
  abbrev node_with : ℕ → MutableNode
  node_with k = fresh_node k (some p) name (some (join (take (index + 1) entry.path))) kind

  insert_node-ok :
      (final : Bool) (rows : Dict ℕ NodeRow)
      → insert_row (node_row s.snapshot.id empty_json (node_with s.next_inode)) s.nodes ≡ ok rows
      → insert_node entry index final kind name p s
        ≡ settle_row entry final
            (node_with s.next_inode)
            (record s { next_inode = s.next_inode + 1; nodes = rows })
  unfolding insert_node
  insert_node-ok final rows h = rw (h, insert_node) refl

  insert_node-eq :
      (final : Bool)
      → insert_node entry index final kind name p s ≡ settle_row entry final new_node inserted
  unfolding created
  insert_node-eq final =
      insert_node-ok final (put b.next_id new_row s.nodes) (
        ap₂ (λ k q. insert_row (node_row q.id empty_json (node_with k)) s.nodes) m.next m.snapshot
        ∙ inserts)
      ∙ ap (λ k. settle_row entry final (node_with k) inserted) m.next

  pub insert-Agrees :
      (final : Bool)
      → IsPersistable entry
      → Agrees
          (settle entry final (ok new_node) (create p new_node b))
          (insert_node entry index final kind name p s)
  unfolding created create
  insert-Agrees final pe =
      subst (Agrees (settle entry final (ok new_node) (create p new_node b)))
        (sym (insert_node-eq final))
        (settle-Agrees entry pe new_node end new_row (create p new_node b) inserted Mirrors-create
          Stores-new (get-put_self b.next_id new_row s.nodes) Stores-new.encoded final refl)
