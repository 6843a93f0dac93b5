-- ===== src/Store/Memory/Builder/Publishable.antt =====
-- Entries as their constructor leaves them, and nodes that `Node` accepts.
use snapshot_fs.Prelude.{ℕ, ◌≡◌, refl, sym, subst, Option, Bytes, Text, ok, ◌⊎◌, arith, inl, inr}
use snapshot_fs.Dict.{nat_key, text_key}
use snapshot_fs.Model.Enums.{NodeKind}
use snapshot_fs.Model.Metadata.{freeze_metadata}
use snapshot_fs.Model.Metadata.Freezing.{freeze_metadata-idempotent}
use snapshot_fs.Model.Entry.{ParsedEntry, parsed_entry, check_content}
use snapshot_fs.Store.Building.{MutableNode, merge, apply_entry}
use snapshot_fs.Store.Memory.Builder.{fresh_node}

-- An entry as its constructor leaves it.
pub record IsChecked (entry : ParsedEntry) : Type 0 where
  pub content : check_content entry.kind entry.size entry.content ≡ ok tt
  pub metadata : freeze_metadata entry.source_metadata ≡ ok entry.source_metadata

parsed-content :
    (given entry : ParsedEntry)
    → parsed_entry given ≡ ok entry
    → check_content entry.kind entry.size entry.content ≡ ok tt
unfolding parsed_entry
parsed-content given entry h = ground arith

parsed-metadata :
    (given entry : ParsedEntry)
    → parsed_entry given ≡ ok entry
    → freeze_metadata given.source_metadata ≡ ok entry.source_metadata
unfolding parsed_entry
parsed-metadata given entry h = ground arith

pub parsed_entry-IsChecked :
    (given entry : ParsedEntry) → parsed_entry given ≡ ok entry → IsChecked entry
parsed_entry-IsChecked given entry h = record {
  content = parsed-content given entry h;
  metadata =
      freeze_metadata-idempotent given.source_metadata entry.source_metadata
        (parsed-metadata given entry h);
}

-- A node that `Node` accepts once it is finished.
pub record IsPublishable (n : MutableNode) : Type 0 where
  pub content : check_content n.kind n.size n.content ≡ ok tt
  pub metadata : freeze_metadata n.source_metadata ≡ ok n.source_metadata

pub fresh_node-IsPublishable :
    (id : ℕ) (parent : Option ℕ) (name : Bytes) (path : Option Text) (kind : NodeKind)
    → IsPublishable (fresh_node id parent name path kind)
unfolding check_content freeze_metadata
fresh_node-IsPublishable id parent name path NodeKind.directory = record {
  content = refl;
  metadata = refl;
}
fresh_node-IsPublishable id parent name path NodeKind.file = record {
  content = refl;
  metadata = refl;
}
fresh_node-IsPublishable id parent name path _ = record { content = refl; metadata = refl }

pub apply_entry-IsPublishable :
    (n : MutableNode) (entry : ParsedEntry)
    → n.kind ≡ entry.kind
    → IsChecked entry
    → IsPublishable (apply_entry n entry)
unfolding apply_entry
apply_entry-IsPublishable n entry kind c = record {
  content = rw kind c.content;
  metadata = c.metadata;
}

merge_cases :
    (n m : MutableNode) (entry : ParsedEntry)
    → merge n entry ≡ ok m
    → (m ≡ n) ⊎ (m ≡ apply_entry n entry)
unfolding merge
merge_cases n m entry h = ground arith

pub merge-IsPublishable :
    (n m : MutableNode) (entry : ParsedEntry)
    → merge n entry ≡ ok m
    → n.kind ≡ entry.kind
    → IsChecked entry
    → IsPublishable n
    → IsPublishable m
merge-IsPublishable n m entry h kind c p = elim (merge_cases n m entry h) [
  | inl same ↦ subst IsPublishable (sym same) p
  | inr applied ↦ subst IsPublishable (sym applied) (apply_entry-IsPublishable n entry kind c)
]
