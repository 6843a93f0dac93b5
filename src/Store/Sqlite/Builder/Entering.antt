-- ===== src/Store/Sqlite/Builder/Entering.antt =====
-- One component of a path in SQLite and in memory.
use snapshot_fs.Prelude.{
  ℕ, ◌≡◌, refl, sym, ◌∙◌, ap, subst, Bool, true, false, none, some, Bytes, ok, err, if◌then◌else◌,
  inl, inr,
}
use snapshot_fs.Dict.{get, nat_key}
use snapshot_fs.Model.Enums.{NodeKind, kind_is}
use snapshot_fs.Model.Metadata.{Metadata}
use snapshot_fs.Model.Entry.{ParsedEntry}
use snapshot_fs.Store.Building.{MutableNode, conflict}
use snapshot_fs.Store.Memory.Builder.{Builder, existing, settle, enter, visit, set_default}
use snapshot_fs.Store.Memory.Builder.Tree.{child_at, IsTree, IsDirectory}
use snapshot_fs.Store.Memory.Builder.Ready.{set_default_cases}
use snapshot_fs.Store.Sqlite.Codec.RoundTrip.{encode-decode_metadata}
use snapshot_fs.Store.Sqlite.Tables.{NodeRow, first_child}
use snapshot_fs.Store.Sqlite.Builder.{
  SqliteBuilder, mutable, settle_row, insert_node, reuse_row, visit_row,
}
use snapshot_fs.Store.Sqlite.Builder.Rereading.{reread, mutable-node_row, ComparesAlike}
use snapshot_fs.Store.Sqlite.Builder.Mirroring.{
  Stores, Mirror-some, Mirrors, no_child, has_child, child_case,
}
use snapshot_fs.Store.Sqlite.Builder.Settling.{IsPersistable, Agrees, settle-Agrees, Stores-unique}
use snapshot_fs.Store.Sqlite.Builder.Inserting.{insert-Agrees}

-- Every time in the builder compares with the entry's as it does once it is read back.
abbrev pub AllAlike : Builder → ParsedEntry → Type 0
AllAlike b entry = (i : ℕ) (n : MutableNode) → get i b.nodes ≡ some n → ComparesAlike n entry

module _ (entry : ParsedEntry) (pe : IsPersistable entry) (p : ℕ) (name : Bytes) (b : Builder)
    (s : SqliteBuilder) (m : Mirrors b s) (t : IsTree b) where
  existing-eq :
      (kind : NodeKind) (i : ℕ) (n : MutableNode)
      → get i b.nodes ≡ some n
      → existing entry kind i b ≡ (
          if kind_is n.kind kind
          then ok n
          else err (conflict n entry "file/directory type conflict"))
  unfolding existing
  existing-eq kind i n held = rw held refl

  reuse_row-eq :
      (final : Bool) (kind : NodeKind) (n : MutableNode) (row : NodeRow)
      → mutable row ≡ ok n
      → reuse_row entry final kind row s ≡ (
          if kind_is n.kind kind
          then settle_row entry final n s
          else (err (conflict n entry "file/directory type conflict"), s))
  unfolding reuse_row
  reuse_row-eq final kind n row h = rw (h, reuse_row) refl

  kind-Agrees :
      (test final : Bool) (n : MutableNode) (read : Metadata)
      → Agrees (settle entry final (ok n) b) (settle_row entry final (reread n read) s)
      → Agrees
          (settle entry final
            (if test then ok n else err (conflict n entry "file/directory type conflict"))
            b)
          (if test
            then settle_row entry final (reread n read) s
            else (err (conflict (reread n read) entry "file/directory type conflict"), s))
  unfolding settle conflict
  kind-Agrees true final n read h = h
  kind-Agrees false final n read h = (refl, m)

  existing-Agrees :
      (final : Bool) (kind : NodeKind) (i : ℕ) (n : MutableNode) (row : NodeRow)
      → get i b.nodes ≡ some n
      → Stores b.snapshot.id n row
      → ComparesAlike n entry
      → Agrees (settle entry final (existing entry kind i b) b) (reuse_row entry final kind row s)
  existing-Agrees final kind i n row held stores alike =
      let (read, decoded, still) =
        encode-decode_metadata n.source_metadata stores.json stores.encoded in
      let reads : mutable row ≡ ok (reread n read) =
        ap mutable stores.written ∙ mutable-node_row b.snapshot.id stores.json n read decoded in
      let (old, there, stored) = Mirror-some b.snapshot.id i n b.nodes s.nodes m.rows held in
      let at : get n.id s.nodes ≡ some row =
        subst (λ k. get k s.nodes ≡ some row) (sym (t.numbered i n held))
          (there ∙ ap some (Stores-unique stored stores)) in
      subst (λ x. Agrees (settle entry final x b) (reuse_row entry final kind row s))
        (sym (existing-eq kind i n held))
        (subst
          (Agrees (
            settle entry final
              (if kind_is n.kind kind
                then ok n
                else err (conflict n entry "file/directory type conflict"))
              b))
          (sym (reuse_row-eq final kind (reread n read) row reads))
          (kind-Agrees (kind_is n.kind kind) final n read
            (settle-Agrees entry pe n read row b s m stores at still final alike)))

pub Mirrors-set_default :
    (p : ℕ) (b : Builder) (s : SqliteBuilder) → Mirrors b s → Mirrors (set_default p b) s
Mirrors-set_default p b s m = elim (set_default_cases p b) [
  | inl same ↦ subst (λ c. Mirrors c s) (sym same) m
  | inr changed ↦
      subst (λ c. Mirrors c s) (sym changed)
        (record {
          snapshot = m.snapshot;
          next = m.next;
          active = m.active;
          unique = m.unique;
          rows = m.rows;
        })
]

module _ (entry : ParsedEntry) where
  visit_row-none :
      (index : ℕ) (final : Bool) (name : Bytes) (p : ℕ) (s : SqliteBuilder)
      → first_child p name s.nodes ≡ none
      → visit_row entry index final name p s
        ≡ insert_node entry index final (if final then entry.kind else NodeKind.directory) name p s
  unfolding visit_row
  visit_row-none index final name p s query = rw (query, visit_row) refl

  visit_row-some :
      (index : ℕ) (final : Bool) (name : Bytes) (p : ℕ) (s : SqliteBuilder) (row : NodeRow)
      → first_child p name s.nodes ≡ some row
      → visit_row entry index final name p s
        ≡ reuse_row entry final (if final then entry.kind else NodeKind.directory) row s
  unfolding visit_row
  visit_row-some index final name p s row query = rw (query, visit_row) refl

  pub visit-enter :
      (index : ℕ) (final : Bool) (name : Bytes) (p : ℕ) (b : Builder)
      → visit entry index final name p b
        ≡ enter entry index final name p (child_at p name (set_default p b)) (set_default p b)
  unfolding visit child_at
  visit-enter index final name p b = refl

  pub enter-Agrees :
      (pe : IsPersistable entry) (index : ℕ) (final : Bool) (name : Bytes) (p : ℕ) (b : Builder)
      (s : SqliteBuilder)
      → Mirrors b s
      → IsTree b
      → IsDirectory b p
      → AllAlike b entry
      → Agrees
          (enter entry index final name p (child_at p name b) b)
          (visit_row entry index final name p s)
  unfolding enter
  enter-Agrees pe index final name p b s m t dir alike = elim (child_case b s t p name m) [
    | no_child absent query ↦
        rw (absent, visit_row-none index final name p s query)
          (insert-Agrees entry index (if final then entry.kind else NodeKind.directory) name p b s m
            t dir query final pe)
    | has_child i n row at held query stores ↦
        rw (at, visit_row-some index final name p s row query)
          (existing-Agrees entry pe p name b s m t final
            (if final then entry.kind else NodeKind.directory) i n row held stores (alike i n held))
  ]
