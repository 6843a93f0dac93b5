-- ===== src/Importing/Reached.antt =====
-- store/memory/__init__.py: the nodes of a published store and the paths to them.
use snapshot_fs.Prelude.{
  ℕ, ◌≡◌, sym, ◌∙◌, subst, some, List, Bytes, ok, inl, inr, Option-cases, ok-injective, ok≢err,
}
use snapshot_fs.Dict.{get, nat_key}
use snapshot_fs.Model.Entry.{ParsedEntry}
use snapshot_fs.Model.Node.{Node}
use snapshot_fs.Model.Snapshot.{Snapshot}
use snapshot_fs.Store.Memory.Store.{InMemorySnapshotStore, get_node}
use snapshot_fs.Store.Memory.Builder.{Builder, builder}
use snapshot_fs.Store.Memory.Builder.Tree.{IsTree}
use snapshot_fs.Store.Memory.Builder.Adding.{IsTree-builder}
use snapshot_fs.Store.Memory.Builder.Ready.{IsReady-builder}
use snapshot_fs.Store.Memory.Builder.Publishing.{node_of}
use snapshot_fs.Store.Memory.Builder.Finishing.{Publishes}
use snapshot_fs.Store.Memory.Builder.Reaching.{reaches}
use snapshot_fs.Importing.{ParseResult, parsed, published, run}
use snapshot_fs.Importing.Publishing.{publishes_iff}
use snapshot_fs.Importing.Memory.{
  memory, walk, walk-resolve_from, AllChecked, AddsAll-Filled, finish_returned, parsed_entries,
}

-- A node that the store answers with is found by some path from the root.
abbrev Reached : InMemorySnapshotStore → Node → Type 0
Reached store n =
    (root : Node) × (get_node store 1 ≡ ok root)
    × ((names : List Bytes) × (walk store root names ≡ ok (some n)))

Publishes-Reached :
    (b : Builder) (store : InMemorySnapshotStore) (i : ℕ) (n : Node)
    → IsTree b
    → Publishes b store
    → get_node store i ≡ ok n
    → Reached store n
Publishes-Reached b store i n t p at = elim (Option-cases (get i b.nodes)) [
  | inl missing ↦ absurd (ok≢err (sym (p.no_node i missing) ∙ at))
  | inr (m, held) ↦
      let (names, there) = reaches b i m t held in
      let same : node_of b.snapshot m ≡ n = ok-injective (sym (p.node_at i m held) ∙ at) in
      (
        node_of b.snapshot t.root.at,
        p.node_at 1 t.root.at t.root.held,
        (
          names,
          subst (λ x. walk store (node_of b.snapshot t.root.at) names ≡ ok (some x)) same
              (walk-resolve_from b store t p 1 i t.root.at m names t.root.held there held),
        ),
      )
]

-- If an import into memory publishes a store and every entry is as its constructor leaves
-- it, then the store has a root, and every node that the store answers with for some inode
-- is found by looking up some names one below another from the root.
pub import_reaches :
    (s : Snapshot) (entries : List ParsedEntry) (result : ParseResult)
    (store : InMemorySnapshotStore) (end : Builder) (i : ℕ) (n : Node)
    → run memory (parsed entries (ok result)) (builder s) ≡ (published store, end)
    → AllChecked entries
    → get_node store i ≡ ok n
    → (root : Node) × (get_node store 1 ≡ ok root)
      × ((names : List Bytes) × (walk store root names ≡ ok (some n)))
import_reaches s entries result store end i n ran checked at =
    let success = (publishes_iff memory (parsed entries (ok result)) (builder s) end store).0 ran in
    let filled =
      AddsAll-Filled success.entries (builder s) success.filled (IsTree-builder s)
        (IsReady-builder s) (subst AllChecked (parsed_entries success.opened) checked)
        success.added in
    let publishes =
      finish_returned success.result.diagnostics (some success.result.diagnostic_count)
        success.filled end store filled.tree filled.ready success.finished in
    Publishes-Reached success.filled store i n filled.tree publishes at
