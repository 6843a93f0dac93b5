-- ===== src/Fuse/Operations.antt =====
-- fuse/adapter/operations.py: the callbacks of `SnapshotOperations`
pub mod Sessions
pub mod Handles
use Prim.Native.Nat.{bit_and}
use snapshot_fs.Prelude.{
  ℕ, zero, suc, ◌+◌, Bool, true, false, not, ◌&&◌, ◌||◌, Option, none, some, List, [], ◌∷◌, ℤ, pos,
  Bytes, Text, codes, Result, ok, err, ◌>>=◌, ◌==◌, if◌then◌else◌, text_eq, is_none,
}
use snapshot_fs.Dict.{get, put, remove, nat_key}
use snapshot_fs.Model.Enums.{NodeKind, kind_is, status_value}
use snapshot_fs.Model.DateTime.{DateTime}
use snapshot_fs.Model.Node.{Node}
use snapshot_fs.Fuse.Policy.{Errno, read_node}
use snapshot_fs.Fuse.State.{
  SnapshotStore, Operations, Failure, fuse_error, Reply, Handled, passing, node_of,
  increment_lookup, file_handle, directory_handle,
}
use snapshot_fs.Fuse.Attributes.{Host, EntryAttributes, attributes}

abbrev pub content_status_xattr : Bytes
content_status_xattr = codes "user.snapshotfs.content_status"

pub record FileInfo : Type 0 where
  pub fh : ℕ
  pub keep_cache : Bool
  pub direct_io : Bool

-- `if node.kind is not NodeKind.DIRECTORY: raise FUSEError(ENOTDIR)`
unfoldable pub require_directory : Node → Reply Node
require_directory n =
    if kind_is n.kind NodeKind.directory then ok n else err (fuse_error Errno.enotdir)

unfoldable pub require_file : NodeKind → Reply (Unit {0})
require_file NodeKind.directory = err (fuse_error Errno.eisdir)
require_file NodeKind.file = ok tt
require_file _ = err (fuse_error Errno.einval)

-- O_ACCMODE is 3, O_RDONLY is 0, and O_APPEND | O_TRUNC is 0o3000.
unfoldable pub asks_for_write : ℕ → Bool
asks_for_write flags = not (bit_and flags 3 == 0) || not (bit_and flags 0o3000 == 0)

module _ (store : SnapshotStore) (host : Host) (imported_at : DateTime) (simulate : Bool) where
  unfoldable pub parent_of : Node → Option ℕ → Reply Node
  unfolding node_of
  parent_of n none = ok n
  parent_of n (some inode) = node_of store inode

  unfoldable pub child_of : Option Node → Reply Node
  child_of none = err (fuse_error Errno.enoent)
  child_of (some n) = ok n

  -- The node that `name` means under `parent`.
  unfoldable pub target : ℕ → Bytes → Reply Node
  unfolding node_of require_directory parent_of child_of passing
  target parent_inode name = do
    found ← node_of store parent_inode
    parent ← require_directory found
    if text_eq name (codes ".")
        then ok parent
        else if text_eq name (codes "..")
        then parent_of parent parent.parent_id
        else do child ← passing (store.lookup parent_inode name); child_of child

  unfoldable pub lookup : ℕ → Bytes → Operations → Handled EntryAttributes
  unfolding target attributes increment_lookup
  lookup parent_inode name s = elim (target parent_inode name) [
    | err e ↦ (err e, s)
    | ok n ↦ (ok (attributes host imported_at n), increment_lookup n.id s)
  ]

  unfoldable pub getattr : ℕ → Reply EntryAttributes
  unfolding node_of attributes
  getattr inode = do n ← node_of store inode; ok (attributes host imported_at n)

  unfoldable pub opendir : ℕ → Operations → Handled ℕ
  unfolding node_of require_directory put
  opendir inode s = elim (do found ← node_of store inode; require_directory found) [
    | err e ↦ (err e, s)
    | ok n ↦ (
      ok s.next_handle,
      record s {
        next_handle = s.next_handle + 1;
        directory_handles = put s.next_handle inode s.directory_handles;
      },
    )
  ]

  -- The loop of `readdir`. `reply` is `pyfuse3.readdir_reply` on a token, which the kernel's
  -- buffer changes.
  unfoldable pub send {ℓ} :
      {Token : Type ℓ}
      → (Token → Bytes → EntryAttributes → ℕ → Bool × Token)
      → Token
      → List Node
      → ℕ
      → Operations
      → Token × Operations
  unfolding attributes increment_lookup
  send reply token [] next_id s = (token, s)
  send reply token (n ∷ ns) next_id s =
      let (accepted, token') = reply token n.mounted_name (attributes host imported_at n) next_id in
      if accepted then send reply token' ns (next_id + 1) (increment_lookup n.id s) else (token', s)

  unfoldable pub readdir :
      {Token : Type 0}
      → (Token → Bytes → EntryAttributes → ℕ → Bool × Token)
      → Token
      → ℕ
      → ℕ
      → Operations
      → Handled Token
  unfolding send directory_handle passing
  readdir reply token fh start_id s =
      elim (do inode ← directory_handle fh s; passing (store.iter_children inode (pos start_id))) [
        | err e ↦ (err e, s)
        | ok nodes ↦ let (token', s') = send reply token nodes (start_id + 1) s in (ok token', s')
      ]

  unfoldable pub open_file : ℕ → ℕ → Operations → Handled FileInfo
  unfolding node_of require_file asks_for_write put
  open_file inode flags s =
      elim (do
        n ← node_of store inode
        _ ← require_file n.kind
        if asks_for_write flags then err (fuse_error Errno.erofs) else ok n) [
          | err e ↦ (err e, s)
          | ok n ↦
              let unavailable = is_none n.content && not simulate in
              (
                ok (record {
                  fh = s.next_handle;
                  keep_cache = not unavailable;
                  direct_io = unavailable;
                }),
                record s {
                  next_handle = s.next_handle + 1;
                  file_handles = put s.next_handle inode s.file_handles;
                },
              )
        ]

  -- `ContentReadError` becomes the FUSE error of its number.
  unfoldable pub content_error : Result Errno Bytes → Reply Bytes
  content_error (ok bytes) = ok bytes
  content_error (err e) = err (fuse_error e)

  unfoldable pub read : ℕ → ℤ → ℤ → Operations → Reply Bytes
  unfolding file_handle node_of content_error read_node
  read fh off size s = do
    inode ← file_handle fh s
    n ← node_of store inode
    content_error (read_node n off size simulate)

  unfoldable pub getxattr : ℕ → Bytes → Reply Bytes
  unfolding node_of
  getxattr inode name = do
    n ← node_of store inode
    if text_eq name content_status_xattr
        then ok (status_value n.content_status)
        else err (fuse_error Errno.enoattr)

  unfoldable pub listxattr : ℕ → Reply (List Bytes)
  unfolding node_of
  listxattr inode = do _ ← node_of store inode; ok (content_status_xattr ∷ [])

  -- `os.W_OK` is 2.
  unfoldable pub access : ℕ → ℕ → Reply Bool
  unfolding node_of
  access inode mode = do
    _ ← node_of store inode
    if bit_and mode 2 == 0 then ok true else err (fuse_error Errno.erofs)

  unfoldable pub readlink : ℕ → Reply Bytes
  unfolding node_of
  readlink inode = do _ ← node_of store inode; err (fuse_error Errno.einval)

unfoldable pub release : ℕ → Operations → Handled (Unit {0})
unfolding get remove
release fh s = elim (get fh s.file_handles) [
  | none ↦ (err (fuse_error Errno.ebadf), s)
  | some inode ↦ (ok tt, record s { file_handles = remove fh s.file_handles })
]

unfoldable pub releasedir : ℕ → Operations → Handled (Unit {0})
unfolding get remove
releasedir fh s = elim (get fh s.directory_handles) [
  | none ↦ (err (fuse_error Errno.ebadf), s)
  | some inode ↦ (ok tt, record s { directory_handles = remove fh s.directory_handles })
]

-- `flush` and `fsync`, and `fsyncdir`: the handle must be open.
unfoldable pub flush : ℕ → Operations → Reply (Unit {0})
unfolding file_handle
flush fh s = do _ ← file_handle fh s; ok tt

unfoldable pub fsync : ℕ → Bool → Operations → Reply (Unit {0})
unfolding file_handle
fsync fh datasync s = do _ ← file_handle fh s; ok tt

unfoldable pub fsyncdir : ℕ → Bool → Operations → Reply (Unit {0})
unfolding directory_handle
fsyncdir fh datasync s = do _ ← directory_handle fh s; ok tt
