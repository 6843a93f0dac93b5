-- ===== src/Fuse/Policy.antt =====
-- fuse/policy.py: what a read of a node returns
pub mod Slices
use snapshot_fs.Prelude.{
  ℕ, ◌-◌, ◌+◌, Bool, true, false, ◌&&◌, ◌||◌, not, Option, none, some, [], ℤ, pos, negsuc, negative,
  Bytes, Result, ok, err, if◌then◌else◌, leb, ◌==◌, length, take, drop, replicate, min,
}
use snapshot_fs.Model.Enums.{NodeKind, ContentStatus, kind_is, status_is}
use snapshot_fs.Model.Node.{Node, zero_size}

-- The `errno` of an exception; `enoattr` is the constant of pyfuse3.
pub data Errno : Type 0 where
  eisdir einval enodata enotdir enoent ebadf erofs enoattr : Errno

-- `node.size is not None and offset >= node.size`
unfoldable pub past_end : Option ℤ → ℕ → Bool
past_end none offset = false
past_end (some (negsuc n)) offset = true
past_end (some (pos n)) offset = leb n offset

-- The zeros of `b"\0" * min(size, node.size - offset)`, where the node's size permits them.
unfoldable pub simulated : Option ℤ → ℕ → ℕ → Result Errno Bytes
simulated none offset size = err Errno.enodata
simulated (some (negsuc n)) offset size = err Errno.enodata
simulated (some (pos n)) offset size = ok (replicate (min size (n - offset)) 0)

-- The tests that follow `size == 0`.
unfoldable pub read_content :
    Option Bytes → Option ℤ → ContentStatus → ℕ → ℕ → Bool → Result Errno Bytes
unfolding past_end simulated
read_content content node_size status offset size simulate_missing =
    if past_end node_size offset then ok [] else elim content [
      | some bytes ↦ ok (take size (drop offset bytes))
      | none ↦
          if simulate_missing && status_is status ContentStatus.missing
          then simulated node_size offset size
          else err Errno.enodata
    ]

-- Past the test of the kind, at an offset and a size of either sign.
unfoldable pub read_file : Node → ℤ → ℤ → Bool → Result Errno Bytes
unfolding read_content
read_file n (pos offset) (pos size) simulate_missing =
    if size == 0
    then ok []
    else read_content n.content n.size n.content_status offset size simulate_missing
read_file n _ _ simulate_missing = err Errno.einval

unfoldable pub read_kind : NodeKind → Node → ℤ → ℤ → Bool → Result Errno Bytes
unfolding read_file
read_kind NodeKind.directory n offset size simulate_missing = err Errno.eisdir
read_kind NodeKind.file n offset size simulate_missing = read_file n offset size simulate_missing
read_kind _ n offset size simulate_missing = err Errno.einval

unfoldable pub read_node : Node → ℤ → ℤ → Bool → Result Errno Bytes
unfolding read_kind
read_node n offset size simulate_missing = read_kind n.kind n offset size simulate_missing
