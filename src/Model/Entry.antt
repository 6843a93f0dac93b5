-- ===== src/Model/Entry.antt =====
-- model/parsed_entry.py: `ParsedEntry` and its `__post_init__`. The tests on the types of `path`
-- and of its components are the types here.
use snapshot_fs.Prelude.{
  Bool, true, false, not, Option, none, some, List, ℤ, pos, negative, positive, int_eq, Text, Bytes,
  length, Result, ok, err, ◌>>=◌, if◌then◌else◌, is_some,
}
use snapshot_fs.Model.Enums.{NodeKind, Observation}
use snapshot_fs.Model.Message.{says, Error, value_error}
use snapshot_fs.Model.DateTime.{DateTime}
use snapshot_fs.Model.Metadata.{Metadata, freeze_metadata}

pub record ParsedEntry : Type 0 where
  pub path : List Text
  pub kind : NodeKind
  pub observation : Observation
  pub size : Option ℤ
  pub modified_local : Option DateTime
  pub source_line : Option ℤ
  pub content : Option Bytes
  pub source_metadata : Metadata

-- `source_line is not None and … source_line <= 0`
unfoldable pub bad_line : Option ℤ → Bool
bad_line none = false
bad_line (some n) = not (positive n)

-- `size is not None and size < 0`
unfoldable pub negative_size : Option ℤ → Bool
negative_size none = false
negative_size (some n) = negative n

-- `content is not None and size != len(content)`
unfoldable pub wrong_length : Option Bytes → Option ℤ → Bool
wrong_length none size = false
wrong_length (some bytes) none = true
wrong_length (some bytes) (some n) = not (int_eq n (pos (length bytes)))

unfoldable pub check_content : NodeKind → Option ℤ → Option Bytes → Result Error (Unit {0})
unfolding negative_size wrong_length
check_content NodeKind.directory size content =
    if is_some size
    then err (value_error (says "directories cannot have file content metadata"))
    else if is_some content
    then err (value_error (says "directories cannot have file content metadata"))
    else ok tt
check_content NodeKind.file size content =
    if negative_size size
    then err (value_error (says "file size cannot be negative"))
    else if wrong_length content size
    then err (value_error (says "content length must match the declared size"))
    else ok tt
check_content _ size content = ok tt

unfoldable pub check_line : Option ℤ → Result Error (Unit {0})
unfolding bad_line
check_line line =
    if bad_line line
    then err (value_error (says "source line must be a positive integer or None"))
    else ok tt

-- The constructor: the given fields, checked, with the metadata frozen.
unfoldable pub parsed_entry : ParsedEntry → Result Error ParsedEntry
unfolding check_line check_content
parsed_entry e = do
  _ ← check_line e.source_line
  _ ← check_content e.kind e.size e.content
  frozen ← freeze_metadata e.source_metadata
  ok (record e { source_metadata = frozen })
