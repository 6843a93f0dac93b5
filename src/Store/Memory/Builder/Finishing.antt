-- ===== src/Store/Memory/Builder/Finishing.antt =====
-- `finish` returns, and the store that it returns holds what the builder's tables hold.
use snapshot_fs.Prelude.{
  ℕ, ◌≡◌, refl, ◌∙◌, true, false, Option, none, some, List, [], Bytes, ok, err,
}
use snapshot_fs.Dict.{Dict, get, values, nat_key, text_key}
use snapshot_fs.Model.Node.{Node}
use snapshot_fs.Diagnostics.{ImportDiagnostic}
use snapshot_fs.Store.Building.{key_error, MutableNode, content_values}
use snapshot_fs.Store.Memory.Builder.{Builder, finish_nodes, finish, count_or}
use snapshot_fs.Store.Memory.Builder.Tree.{child_at, IsTree}
use snapshot_fs.Store.Memory.Builder.Ready.{IsReady}
use snapshot_fs.Store.Memory.Builder.Publishing.{node_of}
use snapshot_fs.Store.Memory.Store.{InMemorySnapshotStore, get_node, lookup, lookup_in}
use snapshot_fs.Store.Memory.Builder.Filling.{Filled, finish_nodes-Filled, Each-Finishes}

-- What a published store answers, from the builder's tables.
pub record Publishes (b : Builder) (store : InMemorySnapshotStore) : Type 0 where
  pub snapshot : store.snapshot ≡ b.snapshot
  pub node_at :
      (i : ℕ) (n : MutableNode)
      → get i b.nodes ≡ some n
      → get_node store i ≡ ok (node_of b.snapshot n)
  pub no_node : (i : ℕ) → get i b.nodes ≡ none → get_node store i ≡ err key_error
  pub child :
      (p : ℕ) (name : Bytes) (k : ℕ) (n : MutableNode)
      → child_at p name b ≡ some k
      → get k b.nodes ≡ some n
      → lookup store p name ≡ ok (some (node_of b.snapshot n))
  pub no_child :
      (p : ℕ) (name : Bytes) (n : MutableNode)
      → get p b.nodes ≡ some n
      → child_at p name b ≡ none
      → lookup store p name ≡ ok none

module _ (b : Builder) (store : InMemorySnapshotStore) (t : IsTree b)
    (same : store.snapshot ≡ b.snapshot)
    (f : Filled b b.nodes [] store.nodes [] store.children) where
  published_node :
      (i : ℕ) (n : MutableNode)
      → get i b.nodes ≡ some n
      → get_node store i ≡ ok (node_of b.snapshot n)
  unfolding get_node
  published_node i n at = rw (f.node_hit i n at)

  published_nothing : (i : ℕ) → get i b.nodes ≡ none → get_node store i ≡ err key_error
  unfolding get_node get
  published_nothing i at = rw (f.node_miss i at)

  lookup-eq :
      (p : ℕ) (name : Bytes) (names : Dict Bytes ℕ)
      → get p store.children ≡ some names
      → lookup store p name ≡ lookup_in store names name
  unfolding lookup
  lookup-eq p name names at = rw at

  published_child :
      (p : ℕ) (name : Bytes) (k : ℕ) (n : MutableNode)
      → child_at p name b ≡ some k
      → get k b.nodes ≡ some n
      → lookup store p name ≡ ok (some (node_of b.snapshot n))
  unfolding lookup_in content_values
  published_child p name k n edge held =
      let below = (t.edge p name k edge).below in
      let (names, at, children) = f.children_hit p below.at below.held in
      lookup-eq p name names at ∙ (rw (children name ∙ edge, lookup_in) (rw (f.node_hit k n held)))

  published_absent :
      (p : ℕ) (name : Bytes) (n : MutableNode)
      → get p b.nodes ≡ some n
      → child_at p name b ≡ none
      → lookup store p name ≡ ok none
  unfolding lookup_in
  published_absent p name n held absent =
      let (names, at, children) = f.children_hit p n held in
      lookup-eq p name names at ∙ (rw (children name ∙ absent, lookup_in))

  Filled-Publishes : Publishes b store
  Filled-Publishes = record {
    snapshot = same;
    node_at = published_node;
    no_node = published_nothing;
    child = published_child;
    no_child = published_absent;
  }

finish-eq :
    (ds : List ImportDiagnostic) (count : Option ℕ) (b : Builder) (nodes : Dict ℕ Node)
    (children : Dict ℕ (Dict Bytes ℕ))
    → b.finished ≡ false
    → finish_nodes b (values b.nodes) [] [] ≡ ok (nodes, children)
    → finish ds count b ≡ (
      ok (record {
        snapshot = b.snapshot;
        nodes = nodes;
        children = children;
        diagnostics = ds;
        diagnostic_count = count_or count ds;
      }),
      record b { finished = true },
    )
unfolding finish
finish-eq ds count b nodes children going done = rw (going, done)

-- If a builder is a tree, is not finished and has tables with unique keys and nodes that
-- `Node` accepts, then `finish` returns a store with the given diagnostics. It answers
-- `get_node` and `lookup` with the published form of what the builder's tables hold, with a
-- KeyError for an id that they do not have and with none for a missing name below a node.
pub finish-Publishes :
    (ds : List ImportDiagnostic) (count : Option ℕ) (b : Builder)
    → IsTree b
    → IsReady b
    → b.finished ≡ false
    → (store : InMemorySnapshotStore) × (finish ds count b
        ≡ (ok store, record b { finished = true }))
      × Publishes b store
      × (store.diagnostics ≡ ds)
      × (store.diagnostic_count ≡ count_or count ds)
finish-Publishes ds count b t r going =
    let (nodes, children, done, f) =
      finish_nodes-Filled b b.nodes [] [] r.unique_nodes (Each-Finishes b t r) in
    let store : InMemorySnapshotStore = record {
      snapshot = b.snapshot;
      nodes = nodes;
      children = children;
      diagnostics = ds;
      diagnostic_count = count_or count ds;
    } in
    (
      store,
      finish-eq ds count b nodes children going done,
      Filled-Publishes b store t refl f,
      refl,
      refl,
    )
