-- ===== src/Examples.antt =====
-- Concrete data: a snapshot, entries, nodes and a small store.
pub mod Trees
pub mod Imports
pub mod Mounts
pub mod Listings
pub mod Streams
pub mod Records
pub mod Databases
use snapshot_fs.Prelude.{
  ℕ, Bool, true, false, Option, none, some, List, [], ◌∷◌, ℤ, pos, negsuc, Bytes, Text, codes,
  Result, ok, err, ◌==◌, if◌then◌else◌,
}
use snapshot_fs.Model.Enums.{NodeKind, ContentStatus, Observation, Severity}
use snapshot_fs.Model.Message.{says}
use snapshot_fs.Model.DateTime.{DateTime}
use snapshot_fs.Model.Metadata.{end}
use snapshot_fs.Model.Entry.{ParsedEntry}
use snapshot_fs.Model.Node.{Node}
use snapshot_fs.Model.Snapshot.{Snapshot}
use snapshot_fs.Diagnostics.{ImportDiagnostic}
use snapshot_fs.Store.Building.{Exception, key_error}
use snapshot_fs.Store.Memory.Builder.{Builder, builder}
use snapshot_fs.Fuse.State.{SnapshotStore}
use snapshot_fs.Fuse.Attributes.{Host}

abbrev pub noon : DateTime
noon = record {
  year = 2024;
  month = 3;
  day = 9;
  hour = 12;
  minute = 0;
  second = 0;
  microsecond = 0;
  zone = none;
}

abbrev pub a_snapshot : Snapshot
a_snapshot = record {
  id = codes "s1";
  source_uri = codes "file:///dir.txt";
  source_format = codes "windows-dir";
  imported_at = noon;
  source_metadata = end;
}

abbrev pub empty_builder : Builder
empty_builder = builder a_snapshot

abbrev pub a_file : ParsedEntry
a_file = record {
  path = codes "C" ∷ codes "a.txt" ∷ [];
  kind = NodeKind.file;
  observation = Observation.file_entry;
  size = some (pos 5);
  modified_local = some noon;
  source_line = some (pos 7);
  content = none;
  source_metadata = end;
}

abbrev pub a_directory : ParsedEntry
a_directory = record {
  path = codes "C" ∷ [];
  kind = NodeKind.directory;
  observation = Observation.section_header;
  size = none;
  modified_local = none;
  source_line = some (pos 4);
  content = none;
  source_metadata = end;
}

abbrev pub diagnostic_of : Severity → ImportDiagnostic
diagnostic_of severity = record {
  severity = severity;
  code = "UNKNOWN_LINE";
  message = says "unrecognized";
  line_number = some (pos 3);
}

abbrev pub file_node : Node
file_node = record {
  id = 2;
  snapshot_id = codes "s1";
  parent_id = some 1;
  mounted_name = codes "a.txt";
  original_path = none;
  kind = NodeKind.file;
  size = some (pos 5);
  modified_at = none;
  content = some (codes "hello");
  content_status = ContentStatus.present;
  content_ref = none;
  source_line = none;
  source_metadata = end;
}

abbrev pub missing_node : Node
missing_node = record file_node { content = none; content_status = ContentStatus.missing }

abbrev pub root_node : Node
root_node = record file_node {
  id = 1;
  parent_id = none;
  mounted_name = [];
  kind = NodeKind.directory;
  size = none;
  content = none;
  content_status = ContentStatus.not_applicable;
}

abbrev pub node_at : ℕ → Result Exception Node
node_at i = if i == 1 then ok root_node else if i == 2 then ok file_node else err key_error

abbrev pub a_store : SnapshotStore
a_store = record {
  get_node = node_at;
  lookup = λ parent name. ok (some file_node);
  iter_children = λ parent offset. ok (file_node ∷ []);
}

abbrev pub a_host : Host
a_host = record { uid = 1000; gid = 1000; timestamp_ns = λ t. pos 0 }
