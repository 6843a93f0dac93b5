-- ===== src/Store/Memory/Store.antt =====
-- store/memory/store.py. A `KeyError` is the exception `key_error`.
use snapshot_fs.Prelude.{
  ℕ, suc, ◌-◌, Bool, true, false, Option, none, some, List, [], ◌∷◌, ℤ, pos, negsuc, Text, Bytes,
  Result, ok, err, ◌>>=◌, if◌then◌else◌, ltb, ◌==◌, length, drop, text_eq,
}
use snapshot_fs.Dict.{Dict, get, keys, values, nat_key, text_key}
use snapshot_fs.Model.Node.{Node}
use snapshot_fs.Model.Snapshot.{Snapshot}
use snapshot_fs.Diagnostics.{ImportDiagnostic}
use snapshot_fs.Store.Building.{Exception, key_error}

pub record InMemorySnapshotStore : Type 0 where
  pub snapshot : Snapshot
  pub nodes : Dict ℕ Node
  pub children : Dict ℕ (Dict Bytes ℕ)
  pub diagnostics : List ImportDiagnostic
  pub diagnostic_count : ℕ

-- `d[k]`
abbrev pub found {ℓ} : {A : Type ℓ} → Option A → Result Exception A
found none = err key_error
found (some a) = ok a

-- `bytes` are ordered byte by byte.
unfoldable pub bytes_le : Bytes → Bytes → Bool
bytes_le [] bs = true
bytes_le (a ∷ as') [] = false
bytes_le (a ∷ as') (b ∷ bs) = if ltb a b then true else if a == b then bytes_le as' bs else false

unfoldable pub insert_name : Bytes → List Bytes → List Bytes
unfolding bytes_le
insert_name n [] = n ∷ []
insert_name n (m ∷ ms) = if bytes_le n m then n ∷ m ∷ ms else m ∷ insert_name n ms

-- `sorted(names)`
unfoldable pub sorted : List Bytes → List Bytes
unfolding insert_name
sorted [] = []
sorted (n ∷ ns) = insert_name n (sorted ns)

-- `xs[offset:]`: a negative offset counts from the end.
unfoldable pub slice_from {ℓ} : {A : Type ℓ} → ℤ → List A → List A
slice_from (pos n) xs = drop n xs
slice_from (negsuc n) xs = drop (length xs - suc n) xs

module _ (s : InMemorySnapshotStore) where
  unfoldable pub get_snapshot : Text → Result Exception Snapshot
  get_snapshot snapshot_id =
      if text_eq snapshot_id s.snapshot.id then ok s.snapshot else err key_error

  unfoldable pub get_node : ℕ → Result Exception Node
  unfolding get
  get_node inode = found (get inode s.nodes)

  unfoldable pub get_root : Text → Result Exception Node
  unfolding get_snapshot get_node
  get_root snapshot_id = do _ ← get_snapshot snapshot_id; get_node 1

  unfoldable pub lookup_in : Dict Bytes ℕ → Bytes → Result Exception (Option Node)
  unfolding get
  lookup_in names name = elim (get name names) [
    | none ↦ ok none
    | some node_id ↦ do n ← found (get node_id s.nodes); ok (some n)
  ]

  unfoldable pub lookup : ℕ → Bytes → Result Exception (Option Node)
  unfolding lookup_in
  lookup parent_inode name = do names ← found (get parent_inode s.children); lookup_in names name

  -- `tuple(self._nodes[node_ids[name]] for name in names)`
  unfoldable pub nodes_named : Dict Bytes ℕ → List Bytes → Result Exception (List Node)
  unfolding get
  nodes_named node_ids [] = ok []
  nodes_named node_ids (name ∷ names) = do
    node_id ← found (get name node_ids)
    n ← found (get node_id s.nodes)
    ns ← nodes_named node_ids names
    ok (n ∷ ns)

  unfoldable pub iter_children : ℕ → ℤ → Result Exception (List Node)
  unfolding nodes_named sorted slice_from keys
  iter_children parent_inode offset = do
    node_ids ← found (get parent_inode s.children)
    nodes_named node_ids (slice_from offset (sorted (keys node_ids)))

  unfoldable pub iter_nodes : List Node
  unfolding values
  iter_nodes = values s.nodes
