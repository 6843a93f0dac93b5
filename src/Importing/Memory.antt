-- ===== src/Importing/Memory.antt =====
-- store/memory/__init__.py: an import into memory, and how its entries are found in the store.
use snapshot_fs.Prelude.{
  ℕ, ◌≡◌, sym, ◌∙◌, ap, subst, true, Option, none, some, List, [], ◌∷◌, Bytes, Result, ok, err,
  ◌>>=◌, inl, inr, some-injective, ok-injective, ok≢err, Bool-cases,
}
use snapshot_fs.Dict.{get, nat_key}
use snapshot_fs.Model.Entry.{ParsedEntry}
use snapshot_fs.Model.Node.{Node}
use snapshot_fs.Model.Snapshot.{Snapshot}
use snapshot_fs.Diagnostics.{ImportDiagnostic}
use snapshot_fs.Store.Building.{Exception, MutableNode, components}
use snapshot_fs.Store.Memory.Store.{InMemorySnapshotStore, get_node, lookup}
use snapshot_fs.Store.Memory.Builder.{Builder, builder, add, finish, abort, finished_error}
use snapshot_fs.Store.Memory.Builder.Tree.{IsTree}
use snapshot_fs.Store.Memory.Builder.Steps.{Grows, Grows-refl, Grows-trans}
use snapshot_fs.Store.Memory.Builder.Adding.{
  resolve_from, resolve_from-cons, resolve_from-Grows, resolve, IsTree-builder, add-IsTree,
  add-Grows, add-resolves,
}
use snapshot_fs.Store.Memory.Builder.Publishable.{IsChecked}
use snapshot_fs.Store.Memory.Builder.Ready.{IsReady, IsReady-builder, add-IsReady}
use snapshot_fs.Store.Memory.Builder.Publishing.{node_of}
use snapshot_fs.Store.Memory.Builder.Finishing.{Publishes, finish-Publishes}
use snapshot_fs.Importing.{
  SnapshotBuilder, ParseResult, Stream, parsed, Outcome, published, run, create_store,
}
use snapshot_fs.Importing.Retention.{Among}
use snapshot_fs.Importing.Publishing.{AddsAll, publishes_iff}

abbrev pub memory : SnapshotBuilder
memory = record {
  Builder = Builder;
  Store = InMemorySnapshotStore;
  add = add;
  finish = λ diagnostics count. finish diagnostics (some count);
  abort = abort;
}

unfoldable pub create_memory_store :
    Snapshot → Stream → Outcome InMemorySnapshotStore × Option Builder
unfolding create_store builder
create_memory_store given stream = create_store memory given (λ s. ok (builder s)) stream

-- Looking the names up one below another, from a node on, as the kernel does with a path.
unfoldable pub walk : InMemorySnapshotStore → Node → List Bytes → Result Exception (Option Node)
unfolding lookup
walk store n [] = ok (some n)
walk store n (name ∷ names) = do
  next ← lookup store n.id name
  elim next [ none ↦ ok none | some m ↦ walk store m names ]

module _ (b : Builder) (store : InMemorySnapshotStore) (t : IsTree b) (p : Publishes b store) where
  walk-cons :
      (n m : Node) (name : Bytes) (names : List Bytes)
      → lookup store n.id name ≡ ok (some m)
      → walk store n (name ∷ names) ≡ walk store m names
  unfolding walk
  walk-cons n m name names at = rw at

  pub walk-resolve_from :
      (i k : ℕ) (n m : MutableNode) (names : List Bytes)
      → get i b.nodes ≡ some n
      → resolve_from b i names ≡ some k
      → get k b.nodes ≡ some m
      → walk store (node_of b.snapshot n) names ≡ ok (some (node_of b.snapshot m))
  unfolding walk resolve_from
  walk-resolve_from i k n m [] held at found_m =
      let same : n ≡ m =
        some-injective _ _
          (sym held ∙ subst (λ j. get j b.nodes ≡ some m) (sym (some-injective _ _ at)) found_m) in
      ap (λ x. ok (some (node_of b.snapshot x))) same
  walk-resolve_from i k n m (name ∷ names) held at found_m =
      let (j, edge, rest) = resolve_from-cons b i name names at in
      let child = t.edge i name j edge in
      let below =
        subst (λ x. lookup store x name ≡ ok (some (node_of b.snapshot child.at)))
          (sym (t.numbered i n held)) (p.child i name j child.at edge child.held) in
      walk-cons (node_of b.snapshot n) (node_of b.snapshot child.at) name names below
      ∙ walk-resolve_from j k child.at m names child.held rest found_m

-- The entry's path leads to a node of its kind.
abbrev Lands : ParsedEntry → Builder → Type 0
Lands entry b =
    (names : List Bytes) × (components entry entry.path ≡ ok names)
    × ((k : ℕ) × (n : MutableNode) × (resolve b names ≡ some k)
        × (get k b.nodes ≡ some n)
        × (n.kind ≡ entry.kind))

Lands-Grows : (entry : ParsedEntry) (b c : Builder) → Grows b c → Lands entry b → Lands entry c
Lands-Grows entry b c g (names, valid, (k, n, at, held, kind)) =
    let (m, held_m, same) = g.places k n held in
    (names, valid, (k, m, resolve_from-Grows 1 names k g at, held_m, same.kind ∙ kind))

-- Every entry's constructor has run.
abbrev pub AllChecked : List ParsedEntry → Type 0
AllChecked [] = Unit {0}
AllChecked (e ∷ es) = IsChecked e × AllChecked es

pub record Filled (entries : List ParsedEntry) (b d : Builder) : Type 0 where
  pub tree : IsTree d
  pub ready : IsReady d
  grows : Grows b d
  lands : (entry : ParsedEntry) → Among entry entries → Lands entry d

pub AddsAll-Filled :
    (entries : List ParsedEntry) (b d : Builder)
    → IsTree b
    → IsReady b
    → AllChecked entries
    → AddsAll memory entries b d
    → Filled entries b d
AddsAll-Filled [] b d t r checked same =
    subst (Filled [] b) same
      (record { tree = t; ready = r; grows = Grows-refl b; lands = λ entry m. absurd m })
AddsAll-Filled (e ∷ es) b d t r (checked, rest) (c, added, more) =
    let state : (add e b).1 ≡ c = ap (λ (o : Result Exception (Unit {0}) × Builder). o.1) added in
    let done : (add e b).0 ≡ ok tt =
      ap (λ (o : Result Exception (Unit {0}) × Builder). o.0) added in
    let later =
      AddsAll-Filled es c d (subst IsTree state (add-IsTree e b t))
        (subst IsReady state (add-IsReady e checked b r)) rest more in
    let (names, valid, (k, at, reflects)) = add-resolves e b t done in
    let here : Lands e c =
      subst (Lands e) state (names, valid, (k, reflects.at, at, reflects.held, reflects.kind)) in
    record {
      tree = later.tree;
      ready = later.ready;
      grows = Grows-trans (subst (Grows b) state (add-Grows e b t)) later.grows;
      lands = λ entry m. elim m [
        | inl same ↦ subst (λ x. Lands x d) (sym same) (Lands-Grows e c d later.grows here)
        | inr among ↦ later.lands entry among
      ];
    }

finished_refuses :
    (ds : List ImportDiagnostic) (count : Option ℕ) (b : Builder)
    → b.finished ≡ true
    → (finish ds count b).0 ≡ err finished_error
unfolding finish
finished_refuses ds count b done = rw done

-- If `finish` returned a store, it publishes the builder.
pub finish_returned :
    (ds : List ImportDiagnostic) (count : Option ℕ) (b end : Builder)
    (store : InMemorySnapshotStore)
    → IsTree b
    → IsReady b
    → finish ds count b ≡ (ok store, end)
    → Publishes b store
finish_returned ds count b end store t r h = elim (Bool-cases b.finished) [
  | inl done ↦ absurd (ok≢err (sym (finished_refuses ds count b done) ∙ ap (λ o. o.0) h))
  | inr going ↦
      let (made, eq, publishes, same_ds, same_count) = finish-Publishes ds count b t r going in
      subst (Publishes b)
        (ok-injective
          (ap (λ (o : Result Exception InMemorySnapshotStore × Builder). o.0) (sym eq ∙ h)))
        publishes
]

abbrev Found : InMemorySnapshotStore → ParsedEntry → Type 0
Found store entry =
    (root : Node) × (get_node store 1 ≡ ok root)
    × ((names : List Bytes) × (components entry entry.path ≡ ok names)
        × ((n : Node) × (walk store root names ≡ ok (some n)) × (n.kind ≡ entry.kind)))

Lands-Found :
    (b : Builder) (store : InMemorySnapshotStore) (entry : ParsedEntry)
    → IsTree b
    → Publishes b store
    → Lands entry b
    → Found store entry
Lands-Found b store entry t p (names, valid, (k, n, at, held, kind)) = (
  node_of b.snapshot t.root.at,
  p.node_at 1 t.root.at t.root.held,
  (
    names,
    valid,
    (
      node_of b.snapshot n,
      walk-resolve_from b store t p 1 k t.root.at n names t.root.held at held,
      kind,
    ),
  ),
)

pub parsed_entries :
    {as' bs : List ParsedEntry} {r q : Result Exception ParseResult}
    → parsed as' r ≡ parsed bs q
    → as' ≡ bs
parsed_entries h = cc

-- If an import into memory publishes a store and every entry is as its constructor leaves
-- it, then the store has a root, the path of each entry has valid components, and looking
-- these up one below another from the root gives a node of the entry's kind.
pub import_finds :
    (s : Snapshot) (entries : List ParsedEntry) (result : ParseResult)
    (store : InMemorySnapshotStore) (end : Builder) (entry : ParsedEntry)
    → run memory (parsed entries (ok result)) (builder s) ≡ (published store, end)
    → AllChecked entries
    → Among entry entries
    → (root : Node) × (get_node store 1 ≡ ok root)
      × ((names : List Bytes) × (components entry entry.path ≡ ok names)
          × ((n : Node) × (walk store root names ≡ ok (some n)) × (n.kind ≡ entry.kind)))
import_finds s entries result store end entry ran checked among =
    let success = (publishes_iff memory (parsed entries (ok result)) (builder s) end store).0 ran in
    let same : entries ≡ success.entries = parsed_entries success.opened in
    let filled =
      AddsAll-Filled success.entries (builder s) success.filled (IsTree-builder s)
        (IsReady-builder s) (subst AllChecked same checked) success.added in
    let publishes =
      finish_returned success.result.diagnostics (some success.result.diagnostic_count)
        success.filled end store filled.tree filled.ready success.finished in
    Lands-Found success.filled store entry filled.tree publishes
      (filled.lands entry (subst (Among entry) same among))
