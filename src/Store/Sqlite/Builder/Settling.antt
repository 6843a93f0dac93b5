-- ===== src/Store/Sqlite/Builder/Settling.antt =====
-- `merge` and the write after it, in SQLite and in memory.
use snapshot_fs.Prelude.{
  ℕ, ◌≡◌, refl, sym, ◌∙◌, ap, subst, Bool, true, false, ◌&&◌, some, Text, Result, ok, err, inl, inr,
  ok-injective,
}
use snapshot_fs.Dict.{Dict, get, put, nat_key}
use snapshot_fs.Dict.Unique.{Unique-put}
use snapshot_fs.Model.Metadata.{Metadata}
use snapshot_fs.Model.Entry.{ParsedEntry}
use snapshot_fs.Store.Building.{Exception, MutableNode, merge, apply_entry}
use snapshot_fs.Store.Memory.Builder.{Builder, merge_into, settle}
use snapshot_fs.Store.Sqlite.Codec.{JsonText, encode_metadata}
use snapshot_fs.Store.Sqlite.Tables.{
  NodeRow, bindable, check_size, check_source_line, set_columns, update_row,
}
use snapshot_fs.Store.Sqlite.Builder.{SqliteBuilder, is_active, node_row, update_node, settle_row}
use snapshot_fs.Store.Sqlite.Builder.Rereading.{
  reread, node_row-reread, ComparesAlike, Follows, merge-Follows,
}
use snapshot_fs.Store.Sqlite.Builder.Mirroring.{Stores, Mirror-put, Mirrors}

-- An entry whose metadata can be written and whose numbers fit into the table.
pub record IsPersistable (entry : ParsedEntry) : Type 0 where
  pub json : JsonText
  pub encoded : encode_metadata entry.source_metadata ≡ ok json
  pub fits : (bindable entry.size && bindable entry.source_line) ≡ true
  pub checked : (check_size entry.size && check_source_line entry.source_line) ≡ true

-- The two outcomes are the same, and the builders that are left mirror each other.
abbrev pub Agrees {ℓ} :
    {A : Type ℓ} → Result Exception A × Builder → Result Exception A × SqliteBuilder → Type ℓ
Agrees out out' = (out'.0 ≡ out.0) × Mirrors out.1 out'.1

Mirrors-put :
    (i : ℕ) (n : MutableNode) (row : NodeRow) (b : Builder) (s : SqliteBuilder)
    → Mirrors b s
    → Stores b.snapshot.id n row
    → Mirrors (record b { nodes = put i n b.nodes }) (record s { nodes = put i row s.nodes })
unfolding is_active
Mirrors-put i n row b s m stores = record {
  snapshot = m.snapshot;
  next = m.next;
  active = m.active;
  unique = Unique-put i n b.nodes m.unique;
  rows = Mirror-put b.snapshot.id i n row b.nodes s.nodes stores m.rows;
}

module _ (entry : ParsedEntry) where
  update_row-eq :
      (given old : NodeRow) (rows : Dict ℕ NodeRow)
      → get given.id rows ≡ some old
      → (bindable given.size && bindable given.source_line) ≡ true
      → (check_size given.size && check_source_line given.source_line) ≡ true
      → update_row given rows ≡ ok (put given.id (set_columns given old) rows)
  unfolding update_row
  update_row-eq given old rows there fits checked =
      rw fits (rw (there, update_row) (rw checked refl))

  update_node-eq :
      (m : MutableNode) (s : SqliteBuilder) (json : JsonText) (old : NodeRow)
      → encode_metadata m.source_metadata ≡ ok json
      → get m.id s.nodes ≡ some old
      → (bindable m.size && bindable m.source_line) ≡ true
      → (check_size m.size && check_source_line m.source_line) ≡ true
      → update_node entry m s ≡ (
        ok m.id,
        record s { nodes = put m.id (set_columns (node_row s.snapshot.id json m) old) s.nodes },
      )
  unfolding update_node node_row
  update_node-eq m s json old encoded there fits checked =
      rw (encoded, update_node)
        (rw
          (
            update_row-eq (node_row s.snapshot.id json m) old s.nodes there fits checked,
            update_node,
          )
          refl)

  module _ (p : IsPersistable entry) (n : MutableNode) (read : Metadata) (row : NodeRow)
      (b : Builder) (s : SqliteBuilder) (m : Mirrors b s) (stores : Stores b.snapshot.id n row)
      (there : get n.id s.nodes ≡ some row) (still : encode_metadata read ≡ ok stores.json) where
    kept_row : set_columns (node_row s.snapshot.id stores.json (reread n read)) row ≡ row
    kept_row =
        ap (λ r. set_columns r row)
          (node_row-reread s.snapshot.id stores.json n read
            ∙ ap (λ q. node_row q.id stores.json n) m.snapshot
            ∙ sym stores.written)

    applied_row :
        set_columns (node_row s.snapshot.id p.json (apply_entry n entry)) row
        ≡ node_row b.snapshot.id p.json (apply_entry n entry)
    unfolding apply_entry node_row
    applied_row =
        ap (λ r. set_columns (node_row s.snapshot.id p.json (apply_entry n entry)) r) stores.written
        ∙ ap
            (λ q.
              set_columns (node_row q.id p.json (apply_entry n entry))
                (node_row b.snapshot.id stores.json n))
            m.snapshot

    update_kept :
        update_node entry (reread n read) s ≡ (ok n.id, record s { nodes = put n.id row s.nodes })
    update_kept =
        update_node-eq (reread n read) s stores.json row still there stores.fits stores.checked
        ∙ ap (λ r. (ok n.id, record s { nodes = put n.id r s.nodes })) kept_row

    update_applied : update_node entry (apply_entry n entry) s ≡ (
      ok n.id,
      record s { nodes = put n.id (node_row b.snapshot.id p.json (apply_entry n entry)) s.nodes },
    )
    unfolding apply_entry
    update_applied =
        update_node-eq (apply_entry n entry) s p.json row p.encoded there p.fits p.checked
        ∙ ap (λ r. (ok n.id, record s { nodes = put n.id r s.nodes })) applied_row

    Stores-applied :
        Stores b.snapshot.id
          (apply_entry n entry)
          (node_row b.snapshot.id p.json (apply_entry n entry))
    unfolding apply_entry
    Stores-applied = record {
      json = p.json;
      encoded = p.encoded;
      written = refl;
      fits = p.fits;
      checked = p.checked;
    }

    -- `merge` and the write after it, on both sides.
    merged-Agrees :
        (r r' : Result Exception MutableNode)
        → merge n entry ≡ r
        → merge (reread n read) entry ≡ r'
        → Follows n read entry r r'
        → Agrees (merge_into entry n b) (settle_row entry true (reread n read) s)
    unfolding merge_into settle_row apply_entry
    merged-Agrees (ok k) r' here beside (inl (same, reread')) =
        rw (here, merge_into)
          (rw (beside ∙ reread', settle_row)
            (rw update_kept (
              subst
                (λ x.
                  Agrees (ok x.id, record b { nodes = put x.id x b.nodes })
                    (ok n.id, record s { nodes = put n.id row s.nodes }))
                (sym same) (refl, Mirrors-put n.id n row b s m stores))))
    merged-Agrees (ok k) r' here beside (inr (same, applied)) =
        rw (here ∙ ap ok same, merge_into)
          (rw (beside ∙ applied ∙ ap ok same, settle_row)
            (rw update_applied (
              refl,
              Mirrors-put n.id (apply_entry n entry)
                  (node_row b.snapshot.id p.json (apply_entry n entry)) b s m Stores-applied,
            )))
    merged-Agrees (err e) r' here beside fails =
        rw (here, merge_into) (rw (beside ∙ fails, settle_row) (refl, m))

    pub settle-Agrees :
        (final : Bool)
        → ComparesAlike n entry
        → Agrees (settle entry final (ok n) b) (settle_row entry final (reread n read) s)
    unfolding settle settle_row
    settle-Agrees true alike =
        merged-Agrees (merge n entry) (merge (reread n read) entry) refl refl
          (merge-Follows n read entry alike)
    settle-Agrees false alike = (refl, m)

pub Stores-unique :
    {sid : Text} {n : MutableNode} {row old : NodeRow}
    → Stores sid n row
    → Stores sid n old
    → row ≡ old
Stores-unique {sid} {n} a b =
    a.written
    ∙ ap (λ json. node_row sid json n) (ok-injective (sym a.encoded ∙ b.encoded))
    ∙ sym b.written
