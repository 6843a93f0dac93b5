-- ===== src/Store/Memory/Builder/Publishing.antt =====
-- The `Node` of a finished builder, and that its constructor accepts it.
use snapshot_fs.Prelude.{◌≡◌, refl, none, ok, arith}
use snapshot_fs.Model.Enums.{NodeKind}
use snapshot_fs.Model.Metadata.{freeze_metadata}
use snapshot_fs.Model.Entry.{check_content}
use snapshot_fs.Model.Node.{Node, node, validate}
use snapshot_fs.Model.Snapshot.{Snapshot}
use snapshot_fs.Store.Building.{MutableNode, content_values}
use snapshot_fs.Store.Memory.Builder.{publish}
use snapshot_fs.Store.Memory.Builder.Publishable.{IsPublishable}

-- The fields that a builder gives `Node`.
abbrev pub node_of : Snapshot → MutableNode → Node
node_of snapshot n = record {
  id = n.id;
  snapshot_id = snapshot.id;
  parent_id = n.parent_id;
  mounted_name = n.mounted_name;
  original_path = n.original_path;
  kind = n.kind;
  size = n.size;
  modified_at = n.modified_at;
  content = (content_values n).0;
  content_status = (content_values n).1;
  content_ref = none;
  source_line = n.source_line;
  source_metadata = n.source_metadata;
}

valid_directory :
    (s : Snapshot) (n : MutableNode)
    → n.kind ≡ NodeKind.directory
    → check_content NodeKind.directory n.size n.content ≡ ok tt
    → validate NodeKind.directory (node_of s n) ≡ ok tt
unfolding validate check_content content_values
valid_directory s n k c = ground arith

valid_file :
    (s : Snapshot) (n : MutableNode)
    → n.kind ≡ NodeKind.file
    → check_content NodeKind.file n.size n.content ≡ ok tt
    → validate NodeKind.file (node_of s n) ≡ ok tt
unfolding validate check_content content_values
valid_file s n k c = ground arith

valid_node :
    (s : Snapshot) (n : MutableNode) (kind : NodeKind)
    → n.kind ≡ kind
    → check_content kind n.size n.content ≡ ok tt
    → validate kind (node_of s n) ≡ ok tt
valid_node s n NodeKind.directory k c = valid_directory s n k c
valid_node s n NodeKind.file k c = valid_file s n k c
valid_node s n NodeKind.symlink k c = unfold validate in refl
valid_node s n NodeKind.special k c = unfold validate in refl
valid_node s n NodeKind.unknown k c = unfold validate in refl

node-eq :
    (m : Node)
    → validate m.kind m ≡ ok tt
    → freeze_metadata m.source_metadata ≡ ok m.source_metadata
    → node m ≡ ok m
unfolding node
node-eq m v f = rw (v, f)

pub publish-eq : (s : Snapshot) (n : MutableNode) → IsPublishable n → publish s n ≡ ok (node_of s n)
unfolding publish
publish-eq s n p =
    ground (arith, node-eq (node_of s n) (valid_node s n n.kind refl p.content) p.metadata)
