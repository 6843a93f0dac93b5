-- ===== src/Fuse/State.antt =====
-- fuse/adapter/operations.py: the store behind the operations and the tables that they keep
pub mod Counts
use snapshot_fs.Prelude.{
  ℕ, zero, suc, ◌+◌, ◌-◌, Bool, true, false, Option, none, some, List, [], ◌∷◌, ℤ, pos, negsuc,
  Bytes, Text, Result, ok, err, ◌==◌, if◌then◌else◌,
}
use snapshot_fs.Dict.{Dict, get, put, remove, nat_key}
use snapshot_fs.Model.Node.{Node}
use snapshot_fs.Model.Snapshot.{Snapshot}
use snapshot_fs.Store.Building.{Exception, key_error}
use snapshot_fs.Fuse.Policy.{Errno}

-- `SnapshotStore` of store/base.py, as far as the operations use it. It is immutable.
pub record SnapshotStore : Type 0 where
  pub get_node : ℕ → Result Exception Node
  pub lookup : ℕ → Bytes → Result Exception (Option Node)
  pub iter_children : ℕ → ℤ → Result Exception (List Node)

pub record Operations : Type 0 where
  pub file_handles : Dict ℕ ℕ
  pub directory_handles : Dict ℕ ℕ
  pub lookup_counts : Dict ℕ ℕ
  pub next_handle : ℕ

unfoldable pub operations : Operations
operations = record {
  file_handles = [];
  directory_handles = [];
  lookup_counts = [];
  next_handle = 1;
}

-- `FUSEError`, or another exception that passes through.
pub data Failure : Type 0 where
  fuse_error : Errno → Failure
  raised : Exception → Failure

abbrev pub Reply : Type 0 → Type 0
Reply A = Result Failure A

-- An operation's reply beside the tables that it leaves.
abbrev pub Handled : Type 0 → Type 0
Handled A = Reply A × Operations

-- `self._store.…` under `except KeyError: raise FUSEError(ENOENT)`
unfoldable pub no_entry : Result Exception Node → Reply Node
no_entry (ok n) = ok n
no_entry (err key_error) = err (fuse_error Errno.enoent)
no_entry (err e) = err (raised e)

unfoldable pub passing : {A : Type 0} → Result Exception A → Reply A
passing (ok a) = ok a
passing (err e) = err (raised e)

unfoldable pub node_of : SnapshotStore → ℕ → Reply Node
unfolding no_entry
node_of store inode = no_entry (store.get_node inode)

-- `self._lookup_counts.get(inode, 0)`
unfoldable pub lookup_count : ℕ → Operations → ℕ
unfolding get
lookup_count inode s = elim (get inode s.lookup_counts) [ none ↦ 0 | some n ↦ n ]

unfoldable pub increment_lookup : ℕ → Operations → Operations
unfolding lookup_count put
increment_lookup inode s = record s {
  lookup_counts = put inode (lookup_count inode s + 1) s.lookup_counts;
}

-- One pair of `forget`; `max(0, count - nlookup)` is the subtraction on ℕ.
unfoldable pub forget_one : ℕ → ℤ → Operations → Operations
unfolding lookup_count put remove
forget_one inode (negsuc n) s = s
forget_one inode (pos n) s =
    if n == 0
    then s
    else (let remaining = lookup_count inode s - n in
        if remaining == 0
        then record s { lookup_counts = remove inode s.lookup_counts }
        else record s { lookup_counts = put inode remaining s.lookup_counts })

unfoldable pub forget : List (ℕ × ℤ) → Operations → Operations
unfolding forget_one
forget [] s = s
forget ((inode, nlookup) ∷ rest) s = forget rest (forget_one inode nlookup s)

-- `self._file_handles[handle]` and `self._directory_handles[handle]`, or EBADF
abbrev pub handle_in : Dict ℕ ℕ → ℕ → Reply ℕ
handle_in table fh = elim (get fh table) [
  | none ↦ err (fuse_error Errno.ebadf)
  | some inode ↦ ok inode
]

unfoldable pub file_handle : ℕ → Operations → Reply ℕ
unfolding get
file_handle fh s = handle_in s.file_handles fh

unfoldable pub directory_handle : ℕ → Operations → Reply ℕ
unfolding get
directory_handle fh s = handle_in s.directory_handles fh
