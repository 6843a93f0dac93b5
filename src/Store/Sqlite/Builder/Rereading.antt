-- ===== src/Store/Sqlite/Builder/Rereading.antt =====
-- What `_mutable` reads back from the row of a node, and how `merge` treats it.
use snapshot_fs.Prelude.{
  ◌≡◌, refl, ◌∙◌, ap, Bool, true, false, Option, none, some, Text, Result, ok, err, if◌then◌else◌,
  arith, text_eq, option_eq, int_eq, int_eq_refl, option_eq_refl, text_eq_refl, Option-cases, ◌⊎◌,
  inl, inr, ◌&&◌,
}
use snapshot_fs.Model.Enums.{NodeKind, Observation}
use snapshot_fs.Model.DateTime.{DateTime, Zoned, same_time, same_time_refl}
use snapshot_fs.Model.Metadata.{Metadata}
use snapshot_fs.Model.Entry.{ParsedEntry}
use snapshot_fs.Store.Building.{
  Exception, MutableNode, merge, merge_seen, merge_file, merge_other, same_file, conflict,
  apply_entry,
}
use snapshot_fs.Store.Sqlite.Codec.{
  JsonText, fixed, fixed_zone, encode_datetime, decode_datetime, decode_metadata,
}
use snapshot_fs.Store.Sqlite.Tables.{kind_value, observation_value}
use snapshot_fs.Store.Sqlite.Builder.{node_row, mutable, decode_kind, decode_observation}

-- A node as it is read back: its time has a fixed offset, and its metadata are `read`.
abbrev pub reread : MutableNode → Metadata → MutableNode
reread n read = record n {
  modified_at = elim n.modified_at [ none ↦ none | some t ↦ some (fixed t) ];
  source_metadata = read;
}

decode_kind-kind_value : (k : NodeKind) → decode_kind (kind_value k) ≡ ok k
unfolding decode_kind text_eq
decode_kind-kind_value NodeKind.directory = refl
decode_kind-kind_value NodeKind.file = refl
decode_kind-kind_value NodeKind.symlink = refl
decode_kind-kind_value NodeKind.special = refl
decode_kind-kind_value NodeKind.unknown = refl

abbrev seen_value : Option Observation → Option Text
seen_value none = none
seen_value (some seen) = some (observation_value seen)

decode_observation-value : (o : Option Observation) → decode_observation (seen_value o) ≡ ok o
unfolding decode_observation text_eq
decode_observation-value none = refl
decode_observation-value (some Observation.section_header) = refl
decode_observation-value (some Observation.directory_entry) = refl
decode_observation-value (some Observation.file_entry) = refl

decode-encode_datetime :
    (t : Option DateTime)
    → decode_datetime (encode_datetime t) ≡ ok (elim t [ none ↦ none | some t ↦ some (fixed t) ])
unfolding decode_datetime encode_datetime
decode-encode_datetime none = refl
decode-encode_datetime (some t) = refl

encode_datetime-fixed :
    (t : Option DateTime)
    → encode_datetime (elim t [ none ↦ none | some t ↦ some (fixed t) ]) ≡ encode_datetime t
unfolding encode_datetime fixed
encode_datetime-fixed none = refl
encode_datetime-fixed (some t) = elim (Option-cases t.zone) [
  | inl naive ↦ rw naive refl
  | inr (z, aware) ↦ rw aware refl
]

pub mutable-node_row :
    (sid : Text) (json : JsonText) (n : MutableNode) (read : Metadata)
    → decode_metadata json ≡ ok read
    → mutable (node_row sid json n) ≡ ok (reread n read)
unfolding mutable node_row
mutable-node_row sid json n read h =
    rw
      (
        decode_kind-kind_value n.kind,
        decode-encode_datetime n.modified_at,
        decode_observation-value n.observation,
        h,
      )
      refl

-- A node that was read back is written as it was.
pub node_row-reread :
    (sid : Text) (json : JsonText) (n : MutableNode) (read : Metadata)
    → node_row sid json (reread n read) ≡ node_row sid json n
unfolding node_row
node_row-reread sid json n read = rw (encode_datetime-fixed n.modified_at) refl

-- The time of the node compares with the entry's as it does once it is read back.
abbrev pub ComparesAlike : MutableNode → ParsedEntry → Type 0
ComparesAlike n entry =
    option_eq same_time (elim n.modified_at [ none ↦ none | some t ↦ some (fixed t) ])
      entry.modified_local
    ≡ option_eq same_time n.modified_at entry.modified_local

module _ (n : MutableNode) (read : Metadata) (entry : ParsedEntry) where
  -- The outcome of a merge into a node that was read back, beside that into the node itself.
  abbrev pub Follows : Result Exception MutableNode → Result Exception MutableNode → Type 0
  Follows (err e) r = r ≡ err e
  Follows (ok m) r = ((m ≡ n) × (r ≡ ok (reread n read))) ⊎ ((m ≡ apply_entry n entry) × (r ≡ ok m))

  Follows-test :
      (a b : Bool) (e : Exception)
      → b ≡ a
      → Follows (if a then ok n else err e) (if b then ok (reread n read) else err e)
  Follows-test true true e h = inl (refl, refl)
  Follows-test false false e h = refl
  Follows-test true false e h = cc
  Follows-test false true e h = cc

  module _ (alike : ComparesAlike n entry) where
    merge_file-Follows : Follows (merge_file n entry) (merge_file (reread n read) entry)
    unfolding merge_file conflict
    merge_file-Follows = Follows-test (same_file n entry) (same_file (reread n read) entry) _ (
        ap
          (λ b.
            (option_eq int_eq n.size entry.size && b) && option_eq text_eq n.content entry.content)
          alike)

    merge_other-Follows :
        (seen now : Observation)
        → Follows (merge_other seen now n entry) (merge_other seen now (reread n read) entry)
    unfolding merge_other conflict apply_entry
    merge_other-Follows seen Observation.section_header = inl (refl, refl)
    merge_other-Follows Observation.section_header _ = inr (refl, refl)
    merge_other-Follows _ _ = Follows-test _ _ _ alike

    merge_seen-Follows :
        (seen : Option Observation) (kind : NodeKind)
        → Follows (merge_seen seen kind n entry) (merge_seen seen kind (reread n read) entry)
    unfolding merge_seen apply_entry
    merge_seen-Follows none kind = inr (refl, refl)
    merge_seen-Follows (some seen) NodeKind.file = merge_file-Follows
    merge_seen-Follows (some seen) _ = merge_other-Follows seen entry.observation

    pub merge-Follows : Follows (merge n entry) (merge (reread n read) entry)
    unfolding merge
    merge-Follows = merge_seen-Follows n.observation n.kind

-- A time whose offset depends on `fold` differs from what is read back.
fixed_differs :
    (t : DateTime) (z : Zoned)
    → t.zone ≡ some z
    → int_eq z.offset z.other_offset ≡ false
    → text_eq (fixed_zone z).key z.key ≡ false
    → same_time (fixed t) t ≡ false
unfolding fixed same_time
fixed_differs t z zoned ambiguous named = rw (zoned, named, ambiguous) (ground arith)

same_file-time :
    (n : MutableNode) (entry : ParsedEntry)
    → n.size ≡ entry.size
    → n.content ≡ entry.content
    → same_file n entry ≡ option_eq same_time n.modified_at entry.modified_local
unfolding same_file
same_file-time n entry size content =
    rw
      (
        size,
        content,
        option_eq_refl int_eq entry.size int_eq_refl,
        option_eq_refl text_eq entry.content text_eq_refl,
      )
      (ground arith)

merge-file :
    (n : MutableNode) (entry : ParsedEntry) (seen : Observation)
    → n.kind ≡ NodeKind.file
    → n.observation ≡ some seen
    → merge n entry ≡ (
        if same_file n entry
        then ok n
        else err (conflict n entry "incompatible duplicate file metadata"))
unfolding merge merge_file
merge-file n entry seen kind observed = rw (kind, observed) refl

-- If an observed file has the size, the content and the time of an entry, and the offset of
-- that time depends on `fold` in a zone that is not named by its offset, then the merge
-- returns the node as it is, but the merge into the node as it is read back from its row
-- raises a conflict.
pub ambiguous_conflict :
    (n : MutableNode) (read : Metadata) (entry : ParsedEntry) (seen : Observation) (t : DateTime)
    (z : Zoned)
    → n.kind ≡ NodeKind.file
    → n.observation ≡ some seen
    → n.size ≡ entry.size
    → n.content ≡ entry.content
    → n.modified_at ≡ some t
    → entry.modified_local ≡ some t
    → t.zone ≡ some z
    → int_eq z.offset z.other_offset ≡ false
    → text_eq (fixed_zone z).key z.key ≡ false
    → (merge n entry ≡ ok n)
      × (merge (reread n read) entry
          ≡ err (conflict n entry "incompatible duplicate file metadata"))
unfolding conflict option_eq
ambiguous_conflict n read entry seen t z kind observed size content modified local zoned ambiguous
      named =
    let alike : option_eq same_time n.modified_at entry.modified_local ≡ true =
      rw (modified, local) (same_time_refl t) in
    let apart : option_eq same_time (reread n read).modified_at entry.modified_local ≡ false =
      rw (modified, local) (fixed_differs t z zoned ambiguous named) in
    (
      merge-file n entry seen kind observed
          ∙ ap
              (λ b.
                if b then ok n else err (conflict n entry "incompatible duplicate file metadata"))
              (same_file-time n entry size content ∙ alike),
      merge-file (reread n read) entry seen kind observed
          ∙ ap
              (λ b.
                if b
                then ok (reread n read)
                else err (conflict n entry "incompatible duplicate file metadata"))
              (same_file-time (reread n read) entry size content ∙ apart),
    )
