-- ===== src/Store/Building/Merging.antt =====
-- What a merge that does not raise leaves behind.
use snapshot_fs.Prelude.{
  ◌≡◌, ok-injective, ok≢err, refl, true, some, none, ok, arith, option_eq, option_eq→eq, int_eq,
  int_eq→eq, text_eq, text_eq→eq, is_some, Option, option_eq_refl, subst, &&→both, Bool-cases, inl,
  inr,
}
use snapshot_fs.Model.Enums.{NodeKind, Observation}
use snapshot_fs.Model.DateTime.{same_time, same_time_refl}
use snapshot_fs.Model.Entry.{ParsedEntry}
use snapshot_fs.Store.Building.{MutableNode, apply_entry, merge, merge_seen, merge_file, same_file}

-- A write into a node that keeps its place in the tree.
pub record SamePlace (n m : MutableNode) : Type 0 where
  pub id : m.id ≡ n.id
  pub parent_id : m.parent_id ≡ n.parent_id
  pub mounted_name : m.mounted_name ≡ n.mounted_name
  pub kind : m.kind ≡ n.kind

pub SamePlace-refl : (n : MutableNode) → SamePlace n n
SamePlace-refl n = record { id = refl; parent_id = refl; mounted_name = refl; kind = refl }

pub merge-SamePlace :
    (n m : MutableNode) (entry : ParsedEntry) → merge n entry ≡ ok m → SamePlace n m
unfolding merge
merge-SamePlace n m entry h = ground arith

-- A file's data are those of the entry; only its time may be another value that compares equal.
pub record SameData (n : MutableNode) (entry : ParsedEntry) : Type 0 where
  pub size : n.size ≡ entry.size
  pub content : n.content ≡ entry.content
  pub modified_at : option_eq same_time n.modified_at entry.modified_local ≡ true

same_file→SameData :
    (n : MutableNode) (entry : ParsedEntry) → same_file n entry ≡ true → SameData n entry
unfolding same_file
same_file→SameData n entry h =
    let outer = &&→both _ _ h in
    let inner = &&→both _ _ outer.0 in
    record {
      size = option_eq→eq int_eq n.size entry.size int_eq→eq inner.0;
      content = option_eq→eq text_eq n.content entry.content text_eq→eq outer.1;
      modified_at = inner.1;
    }

apply_entry-SameData :
    (n : MutableNode) (entry : ParsedEntry) → SameData (apply_entry n entry) entry
unfolding apply_entry
apply_entry-SameData n entry = record {
  size = refl;
  content = refl;
  modified_at = option_eq_refl same_time entry.modified_local same_time_refl;
}

merge_seen-SameData :
    (seen : Option Observation) (n m : MutableNode) (entry : ParsedEntry)
    → merge_seen seen NodeKind.file n entry ≡ ok m
    → SameData m entry
unfolding merge_seen merge_file
merge_seen-SameData none n m entry h =
    subst (λ k. SameData k entry) (ok-injective h) (apply_entry-SameData n entry)
merge_seen-SameData (some seen) n m entry h = elim (Bool-cases (same_file n entry)) [
  | inl same ↦
      subst (λ k. SameData k entry) (ok-injective (rw same at h)) (same_file→SameData n entry same)
  | inr differs ↦ absurd (ok≢err (rw differs at h))
]

-- If `merge` of an entry into a file's node returns, then the node has the size and the
-- content of the entry and a time that compares equal.
pub merge-SameData :
    (n m : MutableNode) (entry : ParsedEntry)
    → n.kind ≡ NodeKind.file
    → merge n entry ≡ ok m
    → SameData m entry
unfolding merge
merge-SameData n m entry k h =
    merge_seen-SameData n.observation n m entry
      (subst (λ x. merge_seen n.observation x n entry ≡ ok m) k h)

pub merge-observed :
    (n m : MutableNode) (entry : ParsedEntry) → merge n entry ≡ ok m → is_some m.observation ≡ true
unfolding merge
merge-observed n m entry h = ground arith
