-- ===== src/Store/Building.antt =====
-- store/building.py: path normalization and the merging of entries
pub mod Merging
use snapshot_fs.Prelude.{
  ℕ, Bool, ◌&&◌, ◌||◌, Option, none, some, List, [], ◌∷◌, ◌++◌, ℤ, int_eq, String, Text, Bytes,
  Result, ok, err, ◌>>=◌, if◌then◌else◌, ltb, ◌==◌, length, any, codes, text_eq, option_eq,
}
use snapshot_fs.Utf8.{encode}
use snapshot_fs.Model.Enums.{NodeKind, ContentStatus, Observation}
use snapshot_fs.Model.Message.{Message, lit, int, repr, says, Error}
use snapshot_fs.Model.DateTime.{DateTime, same_time}
use snapshot_fs.Model.Metadata.{Metadata}
use snapshot_fs.Model.Entry.{ParsedEntry}
use snapshot_fs.Model.Node.{zero_size}
use snapshot_fs.Store.Errors.{StoreError}
use snapshot_fs.Diagnostics.{ImportDiagnostic, import_diagnostic, error_at}

abbrev pub max_mounted_name_bytes : ℕ
max_mounted_name_bytes = 255

-- What a builder or a store raises: `BuildError`, a KeyError, a `SQLiteStoreError` with its
-- path and detail, or another exception.
pub data Exception : Type 0 where
  build_error : ImportDiagnostic → Exception
  key_error : Exception
  store_error : StoreError → Text → Message → Exception
  raised : Error → Exception

-- `raise BuildError(ImportDiagnostic(…))`: the diagnostic is constructed first.
unfoldable pub build_failure : ImportDiagnostic → Exception
unfolding import_diagnostic
build_failure d = elim (import_diagnostic d) [ ok d' ↦ build_error d' | err e ↦ raised e ]

pub record MutableNode : Type 0 where
  pub id : ℕ
  pub parent_id : Option ℕ
  pub mounted_name : Bytes
  pub original_path : Option Text
  pub kind : NodeKind
  pub size : Option ℤ
  pub modified_at : Option DateTime
  pub content : Option Bytes
  pub source_line : Option ℤ
  pub observation : Option Observation
  pub source_metadata : Metadata

unfoldable pub invalid : ParsedEntry → String → Exception
unfolding build_failure
invalid entry message = build_failure (error_at "INVALID_PATH" (says message) entry.source_line)

-- `not component or component in {".", ".."}`
unfoldable pub empty_or_reserved : Text → Bool
empty_or_reserved c = text_eq c [] || (text_eq c (codes ".") || text_eq c (codes ".."))

-- `"\x00" in component or "/" in component`
unfoldable pub nul_or_slash : Text → Bool
nul_or_slash c = any (λ x. x == 0) c || any (λ x. x == 0x2F) c

unfoldable pub component : ParsedEntry → Text → Result Exception Bytes
unfolding empty_or_reserved nul_or_slash
component entry c =
    if empty_or_reserved c
    then err (invalid entry "path contains an empty or reserved component")
    else if nul_or_slash c
    then err (invalid entry "path component contains NUL or forward slash")
    else elim (encode c) [
      | none ↦ err (invalid entry "path component is not valid Unicode")
      | some name ↦
          if ltb max_mounted_name_bytes (length name)
          then err (invalid entry "path component exceeds the 255-byte mounted-name limit")
          else ok name
    ]

unfoldable pub components_of : ParsedEntry → List Text → Result Exception (List Bytes)
unfolding component
components_of entry [] = ok []
components_of entry (c ∷ cs) = do
  name ← component entry c
  names ← components_of entry cs
  ok (name ∷ names)

unfoldable pub components : ParsedEntry → List Text → Result Exception (List Bytes)
unfolding components_of
components entry [] = err (invalid entry "path must contain at least one mounted component")
components entry (c ∷ cs) = components_of entry (c ∷ cs)

-- `"/".join(path)`
unfoldable pub join : List Text → Text
join [] = []
join (c ∷ []) = c
join (c ∷ d ∷ cs) = c ++ (0x2F ∷ join (d ∷ cs))

unfoldable pub entry_location : ParsedEntry → Option ℤ → Message
unfolding join
entry_location entry (some line) = lit "line " ∷ int line ∷ []
entry_location entry none = lit "path " ∷ repr (join entry.path) ∷ []

-- The name of the existing node in a conflict's message.
unfoldable pub existing_location : Option ℤ → Option Observation → Option Text → Message
existing_location (some line) seen path = lit "line " ∷ int line ∷ []
existing_location none (some o) (some path) = lit "path " ∷ repr path ∷ []
existing_location none _ _ = says "synthesized node"

unfoldable pub conflict : MutableNode → ParsedEntry → String → Exception
unfolding build_failure existing_location entry_location
conflict n entry reason = build_failure (
    error_at "ENTRY_CONFLICT"
      (lit reason
        ∷ lit ": existing "
        ∷ (existing_location n.source_line n.observation n.original_path
            ++ (lit ", incoming " ∷ entry_location entry entry.source_line)))
      entry.source_line)

unfoldable pub apply_entry : MutableNode → ParsedEntry → MutableNode
apply_entry n entry = record n {
  size = entry.size;
  modified_at = entry.modified_local;
  content = entry.content;
  source_line = entry.source_line;
  original_path = some (join entry.path);
  observation = some entry.observation;
  source_metadata = entry.source_metadata;
}

unfoldable pub same_file : MutableNode → ParsedEntry → Bool
same_file n entry =
    (option_eq int_eq n.size entry.size && option_eq same_time n.modified_at entry.modified_local)
    && option_eq text_eq n.content entry.content

unfoldable pub merge_file : MutableNode → ParsedEntry → Result Exception MutableNode
unfolding same_file conflict
merge_file n entry =
    if same_file n entry
    then ok n
    else err (conflict n entry "incompatible duplicate file metadata")

-- A node that is no file: `seen` is what it was observed as, `now` what the entry is.
unfoldable pub merge_other :
    Observation → Observation → MutableNode → ParsedEntry → Result Exception MutableNode
unfolding apply_entry conflict
merge_other seen Observation.section_header n entry = ok n
merge_other Observation.section_header now n entry = ok (apply_entry n entry)
merge_other seen now n entry =
    if option_eq same_time n.modified_at entry.modified_local
    then ok n
    else err (conflict n entry "incompatible duplicate directory metadata")

unfoldable pub merge_seen :
    Option Observation → NodeKind → MutableNode → ParsedEntry → Result Exception MutableNode
unfolding apply_entry merge_file merge_other
merge_seen none kind n entry = ok (apply_entry n entry)
merge_seen (some seen) NodeKind.file n entry = merge_file n entry
merge_seen (some seen) kind n entry = merge_other seen entry.observation n entry

unfoldable pub merge : MutableNode → ParsedEntry → Result Exception MutableNode
unfolding merge_seen
merge n entry = merge_seen n.observation n.kind n entry

-- `b"" if kind is FILE and size == 0 and content is None else content`
unfoldable pub filled : NodeKind → Option ℤ → Option Bytes → Option Bytes
filled NodeKind.file size none = if zero_size size then some [] else none
filled kind size content = content

unfoldable pub status_of : NodeKind → Option Bytes → ContentStatus
status_of NodeKind.directory content = ContentStatus.not_applicable
status_of NodeKind.file (some bytes) = ContentStatus.present
status_of kind content = ContentStatus.missing

unfoldable pub content_values : MutableNode → Option Bytes × ContentStatus
unfolding filled status_of zero_size
content_values n =
    let content = filled n.kind n.size n.content in (content, status_of n.kind content)
