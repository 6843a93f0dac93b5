-- ===== src/Model/Node.antt =====
-- model/node.py: `Node`, `_validate_file` and `__post_init__`
use snapshot_fs.Prelude.{
  ℕ, Bool, true, false, not, ◌&&◌, ◌||◌, Option, none, some, [], ◌∷◌, ℤ, pos, int_eq, Text, Bytes,
  Result, ok, err, ◌>>=◌, if◌then◌else◌, is_some,
}
use snapshot_fs.Model.Enums.{NodeKind, ContentStatus, status_is}
use snapshot_fs.Model.Message.{says, Error, value_error}
use snapshot_fs.Model.DateTime.{DateTime}
use snapshot_fs.Model.Metadata.{Metadata, freeze_metadata}
use snapshot_fs.Model.Entry.{negative_size, wrong_length}

pub record Node : Type 0 where
  pub id : ℕ
  pub snapshot_id : Text
  pub parent_id : Option ℕ
  pub mounted_name : Bytes
  pub original_path : Option Text
  pub kind : NodeKind
  pub size : Option ℤ
  pub modified_at : Option DateTime
  pub content : Option Bytes
  pub content_status : ContentStatus
  pub content_ref : Option Text
  pub source_line : Option ℤ
  pub source_metadata : Metadata

-- `size == 0`
unfoldable pub zero_size : Option ℤ → Bool
zero_size none = false
zero_size (some n) = int_eq n (pos 0)

-- `content != b""`
unfoldable pub not_empty_bytes : Option Bytes → Bool
not_empty_bytes none = true
not_empty_bytes (some []) = false
not_empty_bytes (some (b ∷ bs)) = true

-- `not content_ref`
unfoldable pub no_reference : Option Text → Bool
no_reference none = true
no_reference (some []) = true
no_reference (some (c ∷ cs)) = false

unfoldable pub check_reference :
    Option Bytes → ContentStatus → Option Text → Result Error (Unit {0})
unfolding no_reference
check_reference (some bytes) status ref =
    if not (status_is status ContentStatus.present)
    then err (value_error (says "inline content must be present"))
    else if is_some ref
    then err (value_error (says "inline content cannot also have a content reference"))
    else ok tt
check_reference none ContentStatus.present ref =
    if no_reference ref
    then err (value_error (says "external present content requires a reference"))
    else ok tt
check_reference none ContentStatus.remote ref =
    if no_reference ref
    then err (value_error (says "remote content requires a reference"))
    else ok tt
check_reference none status ref =
    if is_some ref
    then err (value_error (says "only present or remote content may have a reference"))
    else ok tt

unfoldable pub validate_file : Node → Result Error (Unit {0})
unfolding negative_size wrong_length zero_size not_empty_bytes check_reference
validate_file n =
    if negative_size n.size
    then err (value_error (says "file size cannot be negative"))
    else if wrong_length n.content n.size
    then err (value_error (says "content length must match the declared size"))
    else if status_is n.content_status ContentStatus.not_applicable
    then err (value_error (says "file content status cannot be not_applicable"))
    else if zero_size n.size
        && (not_empty_bytes n.content
            || (not (status_is n.content_status ContentStatus.present) || is_some n.content_ref))
    then err (value_error (says "zero-length files must contain present empty content"))
    else check_reference n.content n.content_status n.content_ref

unfoldable pub validate : NodeKind → Node → Result Error (Unit {0})
unfolding validate_file
validate NodeKind.directory n =
    if (is_some n.size || is_some n.content)
      || (is_some n.content_ref || not (status_is n.content_status ContentStatus.not_applicable))
    then err (value_error (says "directories cannot have file content metadata"))
    else ok tt
validate NodeKind.file n = validate_file n
validate _ n = ok tt

-- The constructor: the given fields, checked, with the metadata frozen.
unfoldable pub node : Node → Result Error Node
unfolding validate
node n = do
  _ ← validate n.kind n
  frozen ← freeze_metadata n.source_metadata
  ok (record n { source_metadata = frozen })
