-- ===== src/Store/Memory/Builder.antt =====
-- store/memory/builder.py. A method returns its outcome beside the builder that it leaves, also
-- when it raises: what was written before stays written.
pub mod Tree
pub mod Steps
pub mod Adding
pub mod Reaching
pub mod Publishable
pub mod Ready
pub mod Publishing
pub mod Filling
pub mod Finishing
use snapshot_fs.Prelude.{
  ℕ, zero, suc, ◌+◌, Bool, true, false, not, Option, none, some, List, [], ◌∷◌, Text, Bytes, Result,
  ok, err, ◌>>=◌, if◌then◌else◌, length, take,
}
use snapshot_fs.Dict.{Dict, get, put, values, nat_key, text_key}
use snapshot_fs.Model.Enums.{NodeKind, kind_is}
use snapshot_fs.Model.Message.{says, runtime_error}
use snapshot_fs.Model.Metadata.{end}
use snapshot_fs.Model.Entry.{ParsedEntry}
use snapshot_fs.Model.Node.{Node, node}
use snapshot_fs.Model.Snapshot.{Snapshot}
use snapshot_fs.Diagnostics.{ImportDiagnostic}
use snapshot_fs.Store.Building.{
  Exception, key_error, raised, MutableNode, components, join, conflict, merge, content_values,
}
use snapshot_fs.Store.Memory.Store.{InMemorySnapshotStore, found}

pub record Builder : Type 0 where
  pub snapshot : Snapshot
  pub nodes : Dict ℕ MutableNode
  pub children : Dict ℕ (Dict Bytes ℕ)
  pub next_id : ℕ
  pub finished : Bool

-- A node as the code creates it: nothing observed yet.
abbrev pub fresh_node : ℕ → Option ℕ → Bytes → Option Text → NodeKind → MutableNode
fresh_node id parent_id name path kind = record {
  id = id;
  parent_id = parent_id;
  mounted_name = name;
  original_path = path;
  kind = kind;
  size = none;
  modified_at = none;
  content = none;
  source_line = none;
  observation = none;
  source_metadata = end;
}

unfoldable pub builder : Snapshot → Builder
builder snapshot = record {
  snapshot = snapshot;
  nodes = (1, fresh_node 1 none [] none NodeKind.directory) ∷ [];
  children = (1, []) ∷ [];
  next_id = 2;
  finished = false;
}

-- `self._children.get(parent_id, {})`
unfoldable pub children_of : ℕ → Builder → Dict Bytes ℕ
unfolding get
children_of parent_id b = elim (get parent_id b.children) [ none ↦ [] | some names ↦ names ]

-- `self._children.setdefault(parent_id, {})`
unfoldable pub set_default : ℕ → Builder → Builder
unfolding get put
set_default parent_id b = elim (get parent_id b.children) [
  | none ↦ record b { children = put parent_id [] b.children }
  | some names ↦ b
]

-- The branch `existing_id is None`: a new node under the next free id.
unfoldable pub created : ParsedEntry → ℕ → NodeKind → Bytes → ℕ → Builder → MutableNode
unfolding join
created entry index kind name parent_id b =
    fresh_node b.next_id (some parent_id) name (some (join (take (index + 1) entry.path))) kind

unfoldable pub create : ℕ → MutableNode → Builder → Builder
unfolding children_of put
create parent_id n b = record b {
  next_id = b.next_id + 1;
  nodes = put b.next_id n b.nodes;
  children =
      put b.next_id []
        (put parent_id (put n.mounted_name b.next_id (children_of parent_id b)) b.children);
}

-- The other branch: the node that is there must have the kind that the path asks for.
unfoldable pub existing : ParsedEntry → NodeKind → ℕ → Builder → Result Exception MutableNode
unfolding get conflict
existing entry kind node_id b = do
  n ← found (get node_id b.nodes)
  if kind_is n.kind kind then ok n else err (conflict n entry "file/directory type conflict")

-- `merge(node, entry)`, which writes into the node only when it does not raise.
unfoldable pub merge_into : ParsedEntry → MutableNode → Builder → Result Exception ℕ × Builder
unfolding merge put
merge_into entry n b = elim (merge n entry) [
  | ok n' ↦ (ok n'.id, record b { nodes = put n'.id n' b.nodes })
  | err e ↦ (err e, b)
]

-- What follows the branches, for the node under `node_id`.
unfoldable pub settle :
    ParsedEntry → Bool → Result Exception MutableNode → Builder → Result Exception ℕ × Builder
unfolding merge_into
settle entry final (err e) b = (err e, b)
settle entry final (ok n) b = if final then merge_into entry n b else (ok n.id, b)

unfoldable pub enter :
    ParsedEntry → ℕ → Bool → Bytes → ℕ → Option ℕ → Builder → Result Exception ℕ × Builder
unfolding created create existing settle
enter entry index final name parent_id none b =
    let kind = if final then entry.kind else NodeKind.directory in
    let n = created entry index kind name parent_id b in
    settle entry final (ok n) (create parent_id n b)
enter entry index final name parent_id (some existing_id) b =
    let kind = if final then entry.kind else NodeKind.directory in
    settle entry final (existing entry kind existing_id b) b

-- The body of the loop over the components: the next `parent_id`.
unfoldable pub visit : ParsedEntry → ℕ → Bool → Bytes → ℕ → Builder → Result Exception ℕ × Builder
unfolding set_default children_of enter get
visit entry index final name parent_id b =
    let b' = set_default parent_id b in
    enter entry index final name parent_id (get name (children_of parent_id b')) b'

abbrev pub is_last : List Bytes → Bool
is_last [] = true
is_last (n ∷ ns) = false

unfoldable pub add_from :
    ParsedEntry → ℕ → List Bytes → ℕ → Builder → Result Exception (Unit {0}) × Builder
unfolding visit
add_from entry index [] parent_id b = (ok tt, b)
add_from entry index (name ∷ rest) parent_id b =
    let (outcome, b') = visit entry index (is_last rest) name parent_id b in
    elim outcome [ ok node_id ↦ add_from entry (index + 1) rest node_id b' | err e ↦ (err e, b') ]

abbrev pub finished_error : Exception
finished_error = raised (runtime_error (says "builder is already finished"))

unfoldable pub add : ParsedEntry → Builder → Result Exception (Unit {0}) × Builder
unfolding components add_from
add entry b = if b.finished then (err finished_error, b) else elim (components entry entry.path) [
  | ok names ↦ add_from entry 0 names 1 b
  | err e ↦ (err e, b)
]

-- The `Node` that a finished builder publishes for a mutable one.
unfoldable pub publish : Snapshot → MutableNode → Result Exception Node
unfolding content_values node
publish snapshot n =
    let (content, status) = content_values n in
    elim (node (record {
      id = n.id;
      snapshot_id = snapshot.id;
      parent_id = n.parent_id;
      mounted_name = n.mounted_name;
      original_path = n.original_path;
      kind = n.kind;
      size = n.size;
      modified_at = n.modified_at;
      content = content;
      content_status = status;
      content_ref = none;
      source_line = n.source_line;
      source_metadata = n.source_metadata;
    })) [ ok m ↦ ok m | err e ↦ err (raised e) ]

-- `{self._nodes[node_id].mounted_name: node_id for node_id in ids}`
unfoldable pub child_map :
    Dict ℕ MutableNode → List ℕ → Dict Bytes ℕ → Result Exception (Dict Bytes ℕ)
unfolding get put
child_map nodes [] names = ok names
child_map nodes (node_id ∷ ids) names = do
  n ← found (get node_id nodes)
  child_map nodes ids (put n.mounted_name node_id names)

unfoldable pub finish_nodes :
    Builder
    → List MutableNode
    → Dict ℕ Node
    → Dict ℕ (Dict Bytes ℕ)
    → Result Exception (Dict ℕ Node × Dict ℕ (Dict Bytes ℕ))
unfolding publish child_map children_of values put
finish_nodes b [] nodes exact_children = ok (nodes, exact_children)
finish_nodes b (mutable ∷ rest) nodes exact_children = do
  n ← publish b.snapshot mutable
  names ← child_map b.nodes (values (children_of mutable.id b)) []
  finish_nodes b rest (put mutable.id n nodes) (put mutable.id names exact_children)

abbrev pub count_or : Option ℕ → List ImportDiagnostic → ℕ
count_or none diagnostics = length diagnostics
count_or (some n) diagnostics = n

unfoldable pub finish :
    List ImportDiagnostic → Option ℕ → Builder → Result Exception InMemorySnapshotStore × Builder
unfolding finish_nodes values
finish diagnostics diagnostic_count b = if b.finished then (err finished_error, b) else (
  (do
    (nodes, children) ← finish_nodes b (values b.nodes) [] []
    ok (record {
      snapshot = b.snapshot;
      nodes = nodes;
      children = children;
      diagnostics = diagnostics;
      diagnostic_count = count_or diagnostic_count diagnostics;
    })),
  record b { finished = true },
)

unfoldable pub abort : Builder → Builder
abort b = record b { finished = true }
