-- ===== src/Fuse/Attributes.antt =====
-- fuse/adapter/operations.py: `_attributes`
use snapshot_fs.Prelude.{
  ℕ, ◌+◌, ◌-◌, ◌/◌, Option, none, some, ℤ, pos, negsuc, codes, ltb, if◌then◌else◌,
}
use snapshot_fs.Model.Enums.{NodeKind}
use snapshot_fs.Model.DateTime.{DateTime, Zoned}
use snapshot_fs.Model.Node.{Node}

-- What the operations ask of the host: `os.getuid`, `os.getgid` and the conversion
-- `int(timestamp.timestamp() * 1_000_000_000)` of an aware time, which goes through a float.
pub record Host : Type 0 where
  pub uid : ℕ
  pub gid : ℕ
  pub timestamp_ns : DateTime → ℤ

pub record EntryAttributes : Type 0 where
  pub st_ino : ℕ
  pub generation : ℕ
  pub entry_timeout : ℕ
  pub attr_timeout : ℕ
  pub st_mode : ℕ
  pub st_nlink : ℕ
  pub st_uid : ℕ
  pub st_gid : ℕ
  pub st_rdev : ℕ
  pub st_size : ℤ
  pub st_blksize : ℕ
  pub st_blocks : ℤ
  pub st_atime_ns : ℤ
  pub st_ctime_ns : ℤ
  pub st_mtime_ns : ℤ
  pub st_birthtime_ns : ℤ

-- `file_type | permissions`: the bits are disjoint, so that they add up.
unfoldable pub mode_of : NodeKind → ℕ
mode_of NodeKind.directory = 0o040000 + 0o555
mode_of _ = 0o100000 + 0o444

abbrev pub links_of : NodeKind → ℕ
links_of NodeKind.directory = 2
links_of _ = 1

-- `node.size or 0`
unfoldable pub size_of : Option ℤ → ℤ
size_of none = pos 0
size_of (some n) = n

-- `(size + 511) // 512`, rounded down
unfoldable pub blocks_of : ℤ → ℤ
blocks_of (pos n) = pos ((n + 511) / 512)
blocks_of (negsuc n) = if ltb n 511 then pos 0 else negsuc ((n - 511) / 512)

-- `timestamp.replace(tzinfo=UTC)` where it is naive
unfoldable pub aware : DateTime → Option Zoned → DateTime
aware t (some z) = t
aware t none = record t {
  zone = some (record { key = codes "UTC"; offset = pos 0; other_offset = pos 0 });
}

abbrev pub time_or : Option DateTime → DateTime → DateTime
time_or none imported_at = imported_at
time_or (some t) imported_at = t

unfoldable pub attributes : Host → DateTime → Node → EntryAttributes
unfolding mode_of size_of blocks_of aware
attributes host imported_at n =
    let timestamp = time_or n.modified_at imported_at in
    let ns = host.timestamp_ns (aware timestamp timestamp.zone) in
    record {
      st_ino = n.id;
      generation = 0;
      entry_timeout = 300;
      attr_timeout = 300;
      st_mode = mode_of n.kind;
      st_nlink = links_of n.kind;
      st_uid = host.uid;
      st_gid = host.gid;
      st_rdev = 0;
      st_size = size_of n.size;
      st_blksize = 4096;
      st_blocks = blocks_of (size_of n.size);
      st_atime_ns = ns;
      st_ctime_ns = ns;
      st_mtime_ns = ns;
      st_birthtime_ns = ns;
    }
