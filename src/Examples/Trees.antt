-- ===== src/Examples/Trees.antt =====
-- The store's theorems at concrete builders and entries.
use snapshot_fs.Prelude.{
  ℕ, ◌≡◌, refl, true, false, none, some, List, [], ◌∷◌, Bytes, codes, ok, text_eq,
}
use snapshot_fs.Utf8.{encode, encodable}
use snapshot_fs.Dict.{get, nat_key}
use snapshot_fs.Model.Enums.{NodeKind}
use snapshot_fs.Store.Building.{MutableNode, components, merge}
use snapshot_fs.Store.Building.Merging.{SameData, merge-SameData}
use snapshot_fs.Store.Memory.Builder.{Builder, builder, add, fresh_node}
use snapshot_fs.Store.Memory.Builder.Tree.{IsTree}
use snapshot_fs.Store.Memory.Builder.Steps.{Grows, Reflects}
use snapshot_fs.Store.Memory.Builder.Adding.{
  resolve, IsTree-builder, add-IsTree, add-Grows, add-resolves,
}
use snapshot_fs.Store.Memory.Builder.{finish}
use snapshot_fs.Store.Memory.Builder.Publishable.{IsChecked, parsed_entry-IsChecked}
use snapshot_fs.Store.Memory.Builder.Ready.{IsReady, IsReady-builder, add-IsReady}
use snapshot_fs.Store.Memory.Builder.Finishing.{Publishes, finish-Publishes}
use snapshot_fs.Store.Memory.Store.{InMemorySnapshotStore}
use snapshot_fs.Model.Metadata.{freeze_metadata}
use snapshot_fs.Model.Entry.{parsed_entry}
use snapshot_fs.Examples.{a_snapshot, empty_builder, a_file, a_directory}

abbrev one_directory : Builder
one_directory = (add a_directory empty_builder).1

add-IsTree_example : IsTree (add a_directory empty_builder).1
add-IsTree_example = add-IsTree a_directory empty_builder (IsTree-builder a_snapshot)

add-Grows_example : Grows empty_builder (add a_directory empty_builder).1
add-Grows_example = add-Grows a_directory empty_builder (IsTree-builder a_snapshot)

add_a_file : (add a_file empty_builder).0 ≡ ok tt
unfolding add builder text_eq encode
add_a_file = refl

add-resolves_example :
    (names : List Bytes) × (components a_file (codes "C" ∷ codes "a.txt" ∷ []) ≡ ok names)
    × ((k : ℕ) × (resolve (add a_file empty_builder).1 names ≡ some k)
        × Reflects a_file (add a_file empty_builder).1 k)
add-resolves_example = add-resolves a_file empty_builder (IsTree-builder a_snapshot) add_a_file

abbrev drive : MutableNode
drive = record (fresh_node 2 (some 1) (codes "C") (some (codes "C")) NodeKind.directory) {
  observation = some a_directory.observation;
  source_line = a_directory.source_line;
}

drive_held : get 2 (add a_directory empty_builder).1.nodes ≡ some drive
unfolding add builder get text_eq encode
drive_held = refl

abbrev new_file : MutableNode
new_file = fresh_node 3 (some 2) (codes "a.txt") (some (codes "C/a.txt")) NodeKind.file

abbrev merged_file : MutableNode
merged_file = record new_file {
  size = a_file.size;
  modified_at = a_file.modified_local;
  source_line = a_file.source_line;
  observation = some a_file.observation;
}

merged : merge new_file a_file ≡ ok merged_file
unfolding merge
merged = refl

merge-SameData_example : SameData merged_file a_file
merge-SameData_example = merge-SameData new_file merged_file a_file refl merged

a_file-parsed : parsed_entry a_file ≡ ok a_file
unfolding parsed_entry encodable encode freeze_metadata
a_file-parsed = refl

a_file-IsChecked : IsChecked a_file
a_file-IsChecked = parsed_entry-IsChecked a_file a_file a_file-parsed

add-IsReady_example : IsReady (add a_file empty_builder).1
add-IsReady_example = add-IsReady a_file a_file-IsChecked empty_builder (IsReady-builder a_snapshot)

abbrev one_file : Builder
one_file = (add a_file empty_builder).1

one_file_going : one_file.finished ≡ false
unfolding add builder text_eq encode
one_file_going = refl

one_file-IsReady : IsReady one_file
one_file-IsReady = add-IsReady a_file a_file-IsChecked empty_builder (IsReady-builder a_snapshot)

finish-Publishes_example :
    (store : InMemorySnapshotStore) × (finish [] none one_file
      ≡ (ok store, record one_file { finished = true }))
    × Publishes one_file store
    × (store.diagnostics ≡ [])
    × (store.diagnostic_count ≡ 0)
finish-Publishes_example =
    finish-Publishes [] none one_file (add-IsTree a_file empty_builder (IsTree-builder a_snapshot))
      one_file-IsReady one_file_going
