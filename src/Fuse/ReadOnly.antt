-- ===== src/Fuse/ReadOnly.antt =====
-- fuse/adapter/read_only.py: the callbacks that would change the file system. pyfuse3's types are
-- parameters. None of the callbacks changes the tables; only `write` reads them.
use snapshot_fs.Prelude.{ℕ, ℤ, Option, Bytes, err, ◌>>=◌}
use snapshot_fs.Fuse.Policy.{Errno}
use snapshot_fs.Fuse.State.{Operations, fuse_error, Reply, file_handle}

abbrev read_only : {A : Type 0} → Reply A
read_only = err (fuse_error Errno.erofs)

abbrev setattr :
    {EntryAttributes SetattrFields RequestContext : Type 0} (inode : ℕ) (attr : EntryAttributes)
    (fields : SetattrFields) (fh : Option ℕ) (ctx : RequestContext)
    → Reply EntryAttributes
setattr inode attr fields fh ctx = read_only

abbrev mknod :
    {EntryAttributes RequestContext : Type 0} (parent_inode : ℕ) (name : Bytes) (mode rdev : ℕ)
    (ctx : RequestContext)
    → Reply EntryAttributes
mknod parent_inode name mode rdev ctx = read_only

abbrev mkdir :
    {EntryAttributes RequestContext : Type 0} (parent_inode : ℕ) (name : Bytes) (mode : ℕ)
    (ctx : RequestContext)
    → Reply EntryAttributes
mkdir parent_inode name mode ctx = read_only

abbrev unlink :
    {RequestContext : Type 0} (parent_inode : ℕ) (name : Bytes) (ctx : RequestContext)
    → Reply (Unit {0})
unlink parent_inode name ctx = read_only

abbrev rmdir :
    {RequestContext : Type 0} (parent_inode : ℕ) (name : Bytes) (ctx : RequestContext)
    → Reply (Unit {0})
rmdir parent_inode name ctx = read_only

abbrev symlink :
    {EntryAttributes RequestContext : Type 0} (parent_inode : ℕ) (name target : Bytes)
    (ctx : RequestContext)
    → Reply EntryAttributes
symlink parent_inode name target ctx = read_only

abbrev rename :
    {RequestContext : Type 0} (parent_inode_old : ℕ) (name_old : Bytes) (parent_inode_new : ℕ)
    (name_new : Bytes) (flags : ℕ) (ctx : RequestContext)
    → Reply (Unit {0})
rename parent_inode_old name_old parent_inode_new name_new flags ctx = read_only

abbrev link :
    {EntryAttributes RequestContext : Type 0} (inode new_parent_inode : ℕ) (new_name : Bytes)
    (ctx : RequestContext)
    → Reply EntryAttributes
link inode new_parent_inode new_name ctx = read_only

abbrev create :
    {EntryAttributes RequestContext FileInfo : Type 0} (parent_inode : ℕ) (name : Bytes)
    (mode flags : ℕ) (ctx : RequestContext)
    → Reply (FileInfo × EntryAttributes)
create parent_inode name mode flags ctx = read_only

abbrev setxattr :
    {RequestContext : Type 0} (inode : ℕ) (name value : Bytes) (ctx : RequestContext)
    → Reply (Unit {0})
setxattr inode name value ctx = read_only

abbrev removexattr :
    {RequestContext : Type 0} (inode : ℕ) (name : Bytes) (ctx : RequestContext) → Reply (Unit {0})
removexattr inode name ctx = read_only

-- The handle is looked up before the refusal.
unfoldable write : (fh : ℕ) (off : ℤ) (buf : Bytes) → Operations → Reply ℕ
unfolding file_handle
write fh off buf s = do _ ← file_handle fh s; read_only
