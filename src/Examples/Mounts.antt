-- ===== src/Examples/Mounts.antt =====
-- The theorems on reads, handles and lookup counts at a store of two nodes.
use snapshot_fs.Prelude.{
  ◌≡◌, ◌-◌, refl, true, false, none, List, [], ◌∷◌, pos, codes, ok, err, arith,
}
use snapshot_fs.Dict.{get, nat_key}
use snapshot_fs.Model.Enums.{NodeKind}
use snapshot_fs.Model.Node.{Node}
use snapshot_fs.Model.Entry.{wrong_length}
use snapshot_fs.Fuse.Policy.{Errno, past_end, read_node}
use snapshot_fs.Fuse.Policy.Slices.{whole, read_node-slice, read_node-chunks, read_node-missing}
use snapshot_fs.Fuse.State.{Operations, operations, fuse_error, node_of, lookup_count, forget}
use snapshot_fs.Fuse.State.Counts.{forgotten, lookup_count-forget, AllPositive, AllPositive-forget}
use snapshot_fs.Fuse.Operations.{FileInfo, open_file, read, content_error, release}
use snapshot_fs.Fuse.Operations.Handles.{IsSound}
use snapshot_fs.Fuse.Operations.Sessions.{
  Call, look_up, open_directory, open_inode, steps, steps-IsSound, read-open_file, release_twice,
}
use snapshot_fs.Examples.{noon, a_store, a_host, file_node, missing_node}

read_node-slice_example : read_node file_node (pos 1) (pos 3) false ≡ ok (codes "ell")
unfolding whole wrong_length
read_node-slice_example = read_node-slice file_node 1 3 false (codes "hello") refl refl refl

read_node-chunks_example : read_node file_node (pos 0) (pos 5) false ≡ ok (codes "hello")
unfolding whole wrong_length read_node
read_node-chunks_example =
    read_node-chunks file_node 0 2 3 false (codes "hello") (codes "he") (codes "llo") refl refl refl
      refl refl

read_node-missing_example : read_node missing_node (pos 0) (pos 4) false ≡ err Errno.enodata
unfolding whole past_end
read_node-missing_example = read_node-missing missing_node 0 3 false refl refl refl

abbrev some_calls : List Call
some_calls = look_up 1 (codes "a.txt") ∷ open_directory 1 ∷ open_inode 2 0 ∷ []

steps-IsSound_example : IsSound a_store (steps a_store a_host noon false some_calls operations)
steps-IsSound_example = steps-IsSound a_store a_host noon false some_calls

abbrev an_info : FileInfo
an_info = record { fh = 1; keep_cache = true; direct_io = false }

opened :
    (open_file a_store a_host noon false 2 0 (steps a_store a_host noon false [] operations)).0
    ≡ ok an_info
unfolding open_file steps operations
opened = refl

read-open_file_example :
    (n : Node) × (node_of a_store 2 ≡ ok n)
    × (n.kind ≡ NodeKind.file)
    × (read a_store a_host noon false 1
          (pos 0)
          (pos 4)
          (open_file a_store a_host noon false 2 0
            (steps a_store a_host noon false [] operations)).1
        ≡ content_error a_store a_host noon false (read_node n (pos 0) (pos 4) false))
    × (get 1 (steps a_store a_host noon false [] operations).file_handles ≡ none)
    × (get 1 (steps a_store a_host noon false [] operations).directory_handles ≡ none)
read-open_file_example =
    read-open_file a_store a_host noon false [] 2 0 an_info (pos 0) (pos 4) opened

abbrev one_handle : Operations
one_handle = record {
  file_handles = (1, 2) ∷ [];
  directory_handles = [];
  lookup_counts = [];
  next_handle = 2;
}

release_twice_example :
    ((release 1 one_handle).0 ≡ ok tt)
    × ((release 1 (release 1 one_handle).1).0 ≡ err (fuse_error Errno.ebadf))
unfolding get
release_twice_example = release_twice 1 2 one_handle refl

abbrev two_counts : Operations
two_counts = record {
  file_handles = [];
  directory_handles = [];
  lookup_counts = (2, 3) ∷ (5, 1) ∷ [];
  next_handle = 1;
}

lookup_count-forget_example :
    lookup_count 2 (forget ((2, pos 1) ∷ (5, pos 1) ∷ (2, pos 1) ∷ []) two_counts)
    ≡ lookup_count 2 two_counts - forgotten 2 ((2, pos 1) ∷ (5, pos 1) ∷ (2, pos 1) ∷ [])
lookup_count-forget_example =
    lookup_count-forget 2 ((2, pos 1) ∷ (5, pos 1) ∷ (2, pos 1) ∷ []) two_counts

AllPositive-two_counts : AllPositive two_counts
unfolding get
AllPositive-two_counts i n h = ground arith

AllPositive-forget_example : AllPositive (forget ((2, pos 3) ∷ []) two_counts)
AllPositive-forget_example = AllPositive-forget ((2, pos 3) ∷ []) two_counts AllPositive-two_counts
