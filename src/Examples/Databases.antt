-- ===== src/Examples/Databases.antt =====
-- The theorems on the SQLite store at a concrete host and builder.
use snapshot_fs.Prelude.{
  ◌≡◌, Result, arith, any, option_eq, none≢some, some-injective, ◌≢◌, refl, sym, ◌∙◌, text_eq_refl,
  ap, subst, true, false, none, some, [], ◌∷◌, pos, codes, ok, err, text_eq, Text,
}
use mathlib.Core.Bool.{false≢true}
use snapshot_fs.Dict.{get, values, nat_key, text_key}
use snapshot_fs.Model.Enums.{NodeKind, status_value}
use snapshot_fs.Model.DateTime.{DateTime}
use snapshot_fs.Model.Metadata.{
  Metadata, freeze_metadata, int, str, list, frozen_list, cons, nil, field, end, null, dict,
}
use snapshot_fs.Utf8.{encodable}
use snapshot_fs.Model.Entry.{ParsedEntry}
use snapshot_fs.Store.Building.{Exception, key_error, MutableNode, merge, conflict, content_values}
use snapshot_fs.Store.Memory.Builder.{Builder, builder, fresh_node}
use snapshot_fs.Store.Memory.Builder.Ready.{only_root}
use snapshot_fs.Store.Memory.Builder.Adding.{IsTree-builder}
use snapshot_fs.Store.Sqlite.Codec.{JsonText, encode_metadata, decode_metadata}
use snapshot_fs.Store.Sqlite.Codec.Keeping.{SameFields, frozen_read_back}
use snapshot_fs.Model.Metadata.Freezing.{ArePlain}
use snapshot_fs.Store.Sqlite.Tables.{bindable, check_size, check_source_line}
use snapshot_fs.Store.Sqlite.Artifact.{Host, Files, publish}
use snapshot_fs.Store.Sqlite.Artifact.Atomic.{Leaves, publish-Leaves, publish_keeps}
use snapshot_fs.Store.Sqlite.Builder.{Content, empty, foreign, SqliteBuilder, node_row, empty_json}
use snapshot_fs.Store.Sqlite.Builder.Rereading.{reread, ComparesAlike, ambiguous_conflict}
use snapshot_fs.Store.Sqlite.Builder.Mirroring.{Mirrors}
use snapshot_fs.Store.Sqlite.Builder.Settling.{IsPersistable}
use snapshot_fs.Store.Sqlite.Builder.Entering.{AllAlike}
use snapshot_fs.Store.Sqlite.Builder.Refining.{add-Mirrors}
use snapshot_fs.Store.Sqlite.Opening.{open_builder, snapshot_row}
use snapshot_fs.Store.Sqlite.Opening.Mirrored.{open_builder-Mirrors}
use snapshot_fs.Store.Sqlite.Tables.{NodeRow, Tables}
use snapshot_fs.Store.Sqlite.Validation.{
  require_graph, require_ranges_and_domain_values, parent_is_no_directory,
}
use snapshot_fs.Store.Sqlite.Validation.Graph.{Descends, require_graph_ends}
use snapshot_fs.Store.Sqlite.Checking.{breaks_key, one_root, validate}
use snapshot_fs.Store.Sqlite.Checking.Unending.{validate_runs}
use snapshot_fs.Store.Sqlite.Store.{SqliteStore}
use snapshot_fs.Store.Sqlite.Finishing.{fill_content, set_status, finish}
use snapshot_fs.Store.Sqlite.Finishing.Safety.{IsApart, IsSafe, finish-IsSafe}
use snapshot_fs.Store.Sqlite.Finishing.Contents.{updates-content_values}
use snapshot_fs.Examples.{a_snapshot, empty_builder, a_file, noon}

abbrev root_row : NodeRow
root_row = node_row a_snapshot.id empty_json (fresh_node 1 none [] none NodeKind.directory)

abbrev below_root : NodeRow
below_root = record root_row {
  id = 2;
  parent_id = some 1;
  mounted_name = codes "C";
  original_path = some (codes "C");
}

abbrev temporary : Text
temporary = codes ".s.tmp"

abbrev destination : Text
destination = codes "s.db"

abbrev working_host : Host
working_host = record {
  parent_is_directory = true;
  temporary_name = some temporary;
  syncs = true;
  replaces = true;
  links = true;
  unlinks = true;
  syncs_directory = true;
  directory_sync_supported = true;
}

abbrev new_builder : SqliteBuilder
new_builder = record {
  snapshot = a_snapshot;
  destination = destination;
  overwrite = false;
  temporary = some temporary;
  connected = true;
  finished = false;
  next_inode = 2;
  snapshots = snapshot_row a_snapshot empty_json ∷ [];
  nodes =
      (1, node_row a_snapshot.id empty_json (fresh_node 1 none [] none NodeKind.directory)) ∷ [];
  diagnostics = [];
  files = (temporary, empty) ∷ [];
}

opens : (open_builder working_host a_snapshot destination false []).0 ≡ ok new_builder
unfolding open_builder
opens = refl

open_builder-Mirrors_example : Mirrors empty_builder new_builder
open_builder-Mirrors_example =
    open_builder-Mirrors working_host a_snapshot destination false [] new_builder opens

a_file-IsPersistable : IsPersistable a_file
unfolding encode_metadata bindable check_size check_source_line
a_file-IsPersistable = record { json = empty_json; encoded = refl; fits = refl; checked = refl }

all_alike : AllAlike empty_builder a_file
all_alike = λ i n held. subst (λ x. ComparesAlike x a_file) (only_root a_snapshot i n held) refl

add-Mirrors_example :
    ((snapshot_fs.Store.Sqlite.Builder.add a_file new_builder).0
      ≡ (snapshot_fs.Store.Memory.Builder.add a_file empty_builder).0)
    × Mirrors
        (snapshot_fs.Store.Memory.Builder.add a_file empty_builder).1
        (snapshot_fs.Store.Sqlite.Builder.add a_file new_builder).1
add-Mirrors_example =
    add-Mirrors a_file empty_builder new_builder (IsTree-builder a_snapshot)
      (open_builder-Mirrors working_host a_snapshot destination false [] new_builder opens)
      a_file-IsPersistable all_alike

abbrev some_files : Files Content
some_files = (temporary, foreign (1 ∷ [])) ∷ (destination, empty) ∷ []

temporary≢destination : temporary ≢ destination
unfolding text_eq
temporary≢destination h = false≢true (ap (λ x. text_eq destination x) h)

temporary_there : get temporary some_files ≡ some (foreign (1 ∷ []))
unfolding get text_eq
temporary_there = refl

destination_there : get destination some_files ≡ some empty
unfolding get text_eq
destination_there = refl

publish-Leaves_example :
    Leaves temporary destination
      (foreign (1 ∷ []))
      some_files
      (publish working_host true temporary destination some_files)
publish-Leaves_example =
    publish-Leaves working_host temporary destination (foreign (1 ∷ [])) some_files
      temporary≢destination true temporary_there

publish_keeps_example :
    (e : Exception) × (publish working_host false temporary destination some_files
      ≡ (err e, some_files))
publish_keeps_example =
    publish_keeps working_host temporary destination (foreign (1 ∷ [])) some_files empty
      temporary_there destination_there

abbrev two_keys : Metadata
two_keys =
    field (str (codes "b")) (frozen_list (cons null nil))
      (field (str (codes "a")) (int (pos 1)) end)

abbrev two_keys_text : JsonText
two_keys_text = JsonText.compact (
    dict
      (field (str (codes "a")) (int (pos 1)) (field (str (codes "b")) (list (cons null nil)) end)))

two_keys_encoded : encode_metadata two_keys ≡ ok two_keys_text
unfolding encode_metadata
two_keys_encoded = refl

-- The metadata before they were frozen.
abbrev plain_keys : Metadata
plain_keys =
    field (str (codes "b")) (list (cons null nil)) (field (str (codes "a")) (int (pos 1)) end)

plain_keys-ArePlain : ArePlain plain_keys
unfolding ArePlain
plain_keys-ArePlain = ((tt, tt), (tt, tt))

plain_keys_freeze : freeze_metadata plain_keys ≡ ok two_keys
unfolding freeze_metadata encodable
plain_keys_freeze = refl

frozen_read_back_example :
    (read : Metadata) × (decode_metadata two_keys_text ≡ ok read)
    × (SameFields plain_keys read × (encode_metadata read ≡ ok two_keys_text))
frozen_read_back_example =
    frozen_read_back plain_keys two_keys two_keys_text plain_keys-ArePlain plain_keys_freeze
      two_keys_encoded

-- Half past two in the night in which the clocks of Berlin go back, the first time.
abbrev autumn : DateTime
autumn = record noon {
  month = 10;
  day = 27;
  hour = 2;
  minute = 30;
  zone = some (record { key = codes "Europe/Berlin"; offset = pos 7200; other_offset = pos 3600 });
}

abbrev autumn_file : ParsedEntry
autumn_file = record a_file { modified_local = some autumn }

abbrev autumn_node : MutableNode
autumn_node =
    record (fresh_node 3 (some 2) (codes "a.txt") (some (codes "C/a.txt")) NodeKind.file) {
      size = autumn_file.size;
      modified_at = autumn_file.modified_local;
      source_line = autumn_file.source_line;
      observation = some autumn_file.observation;
    }

autumn_named : text_eq (0x2B ∷ 7200 ∷ []) (codes "Europe/Berlin") ≡ false
unfolding text_eq
autumn_named = refl

ambiguous_conflict_example :
    (merge autumn_node autumn_file ≡ ok autumn_node)
    × (merge (reread autumn_node end) autumn_file
        ≡ err (conflict autumn_node autumn_file "incompatible duplicate file metadata"))
ambiguous_conflict_example =
    ambiguous_conflict autumn_node end autumn_file autumn_file.observation autumn
      (record { key = codes "Europe/Berlin"; offset = pos 7200; other_offset = pos 3600 }) refl refl
      refl refl refl refl refl refl autumn_named

abbrev two_rows : Tables
two_rows = record {
  snapshot = snapshot_row a_snapshot empty_json ∷ [];
  nodes = (1, root_row) ∷ (2, below_root) ∷ [];
  diagnostics = [];
}

two_rows-Descends : Descends 3 two_rows.nodes
unfolding node_row
two_rows-Descends = (
  omega arith,
  (λ p h. absurd (none≢some h)),
  (omega arith, (λ p h. let same = some-injective _ _ h in omega arith), tt),
)

require_graph_ends_example :
    (r : Result Exception (Unit {0})) × (require_graph destination 3 two_rows ≡ some r)
require_graph_ends_example =
    require_graph_ends destination 3 3 two_rows two_rows-Descends (omega arith) (omega arith)

-- Inode 1 is its own parent, and another row has none.
abbrev own_parent : NodeRow
own_parent = record root_row { parent_id = some 1 }

abbrev circle : Tables
circle = record two_rows {
  nodes = (1, own_parent) ∷ (2, record below_root { parent_id = none }) ∷ [];
}

circle_held : get 1 circle.nodes ≡ some own_parent
unfolding get
circle_held = refl

circle_keys : any (λ row. breaks_key circle row) (values circle.nodes) ≡ false
unfolding breaks_key values node_row text_eq snapshot_row
circle_keys = refl

circle_one : one_root destination circle ≡ ok tt
unfolding one_root values node_row snapshot_row
circle_one = refl

circle_ranges : require_ranges_and_domain_values destination circle ≡ ok tt
unfolding require_ranges_and_domain_values values node_row text_eq option_eq
circle_ranges = refl

circle_directories :
    any (λ row. parent_is_no_directory circle.nodes row) (values circle.nodes) ≡ false
unfolding parent_is_no_directory values node_row text_eq
circle_directories = refl

validate_runs_example : validate destination 1000 circle ≡ none
validate_runs_example =
    validate_runs destination circle own_parent 1000 circle_held refl circle_keys circle_one
      circle_ranges circle_directories

updates-content_values_example :
    ((set_status (fill_content (node_row a_snapshot.id empty_json autumn_node))).content
      ≡ (content_values autumn_node).0)
    × ((set_status (fill_content (node_row a_snapshot.id empty_json autumn_node))).content_status
        ≡ status_value (content_values autumn_node).1)
updates-content_values_example = updates-content_values a_snapshot.id empty_json autumn_node

texts_differ : (a b : Text) → text_eq a b ≡ false → a ≢ b
texts_differ a b h same = false≢true (sym h ∙ subst (λ x. text_eq a x ≡ true) same (text_eq_refl a))

names-IsApart : IsApart temporary destination
unfolding text_eq
names-IsApart = record {
  main = texts_differ destination temporary refl;
  wal = texts_differ destination (codes ".s.tmp-wal") refl;
  shm = texts_differ destination (codes ".s.tmp-shm") refl;
  journal = texts_differ destination (codes ".s.tmp-journal") refl;
}

abbrev finished : Result Exception SqliteStore × SqliteBuilder
finished = elim (finish working_host 3 new_builder [] none) [
  | some out ↦ out
  | none ↦ (err key_error, new_builder)
]

finish_returned : finish working_host 3 new_builder [] none ≡ some finished
unfolding finish text_eq snapshot_row node_row option_eq
finish_returned = refl

finish-IsSafe_example : IsSafe 3 temporary destination new_builder.files finished
finish-IsSafe_example =
    finish-IsSafe working_host 3 new_builder temporary names-IsApart refl [] none finished
      finish_returned

-- The run publishes the artifact.
finish_stores : (elim finished.0 [ ok store ↦ true | err e ↦ false ]) ≡ true
unfolding finish text_eq snapshot_row node_row option_eq
finish_stores = refl
