-- ===== src/Examples/Imports.antt =====
-- The import's theorems at concrete diagnostics and a concrete builder.
use snapshot_fs.Prelude.{
  ℕ, zero, suc, pos, Result, err, ◌≤◌, ◌≡◌, ◌↔◌, ◌⊎◌, inl, inr, refl, true, false, option_eq,
  text_eq, some, none, List, [], ◌∷◌, ok, arith, length, codes, Bytes,
}
use snapshot_fs.Model.Enums.{NodeKind, Severity}
use snapshot_fs.Diagnostics.{ImportDiagnostic, collector, max_diagnostics}
use snapshot_fs.Diagnostics.Log.{
  Event, line, diagnostic, collect, annotated, Represents, collect-Represents,
}
use snapshot_fs.Store.Memory.Store.{InMemorySnapshotStore}
use snapshot_fs.Store.Memory.Builder.{Builder, builder, add, finish, abort}
use snapshot_fs.Importing.{
  Stream, ParseResult, Outcome, parsed, published, import_failure, run, retain,
}
use snapshot_fs.Importing.Memory.{memory, walk, AllChecked, import_finds}
use snapshot_fs.Utf8.{encode}
use snapshot_fs.Model.Message.{message_encodable}
use snapshot_fs.Model.Node.{Node}
use snapshot_fs.Model.Metadata.{freeze_metadata}
use snapshot_fs.Model.Entry.{ParsedEntry, check_content}
use snapshot_fs.Store.Memory.Store.{get_node}
use snapshot_fs.Store.Building.{Exception, build_error, components}
use snapshot_fs.Importing.Retention.{Among, length-retain-le}
use snapshot_fs.Importing.Reporting.{Reports}
use snapshot_fs.Importing.Refusing.{Refuses, run-Reports, run_keeps_errors}
use snapshot_fs.Importing.Reached.{import_reaches}
use snapshot_fs.Importing.Publishing.{Succeeds, publishes_iff, run_settled}
use snapshot_fs.Examples.{a_snapshot, empty_builder, a_file, a_directory, file_node, diagnostic_of}

abbrev no_diagnostics : ParseResult
no_diagnostics = record { diagnostics = []; diagnostic_count = 0; has_errors = false }

abbrev a_stream : Stream
a_stream = parsed (a_directory ∷ a_file ∷ []) (ok no_diagnostics)

abbrev empty_store : InMemorySnapshotStore
empty_store = record {
  snapshot = a_snapshot;
  nodes = [];
  children = [];
  diagnostics = [];
  diagnostic_count = 0;
}

publishes_iff_example :
    (run memory a_stream empty_builder ≡ (published empty_store, empty_builder))
    ↔ Succeeds memory a_stream empty_builder empty_store empty_builder
publishes_iff_example = publishes_iff memory a_stream empty_builder empty_builder empty_store

run_settled_example :
    ((store : InMemorySnapshotStore) × ((run memory a_stream empty_builder).0 ≡ published store))
    ⊎ ((c : Builder) × ((run memory a_stream empty_builder).1 ≡ abort c))
run_settled_example = run_settled memory a_stream empty_builder

length-retain-le_example :
    length (retain (some (diagnostic_of Severity.error)) (diagnostic_of Severity.warning ∷ []))
    ≤ max_diagnostics
length-retain-le_example =
    length-retain-le (some (diagnostic_of Severity.error)) (diagnostic_of Severity.warning ∷ [])
      (omega arith)

abbrev some_events : List Event
some_events =
    line 3 (codes "what is this")
    ∷ diagnostic (diagnostic_of Severity.error)
    ∷ diagnostic (diagnostic_of Severity.warning)
    ∷ []

collect-Represents_example :
    Represents (collect some_events (collector 1)) 1 (annotated none some_events)
collect-Represents_example = collect-Represents 1 some_events

abbrev imported : Outcome InMemorySnapshotStore × Builder
imported = run memory a_stream (builder a_snapshot)

abbrev imported_store : InMemorySnapshotStore
imported_store = elim imported.0 [ published store ↦ store | _ ↦ empty_store ]

import_ran : run memory a_stream (builder a_snapshot) ≡ (published imported_store, imported.1)
unfolding run builder add text_eq encode finish freeze_metadata
import_ran = refl

both_checked : AllChecked (a_directory ∷ a_file ∷ [])
unfolding check_content freeze_metadata
both_checked =
    (record { content = refl; metadata = refl }, (record { content = refl; metadata = refl }, tt))

abbrev third_node : Node
third_node = elim (get_node imported_store 3) [ ok n ↦ n | err e ↦ file_node ]

third_held : get_node imported_store 3 ≡ ok third_node
unfolding get_node run builder add text_eq encode finish freeze_metadata
third_held = refl

import_finds_example :
    (root : Node) × (get_node imported_store 1 ≡ ok root)
    × ((names : List Bytes) × (components a_file a_file.path ≡ ok names)
        × ((n : Node) × (walk imported_store root names ≡ ok (some n)) × (n.kind ≡ NodeKind.file)))
import_finds_example =
    import_finds a_snapshot (a_directory ∷ a_file ∷ []) no_diagnostics imported_store imported.1
      a_file import_ran both_checked (inr (inl refl))

import_reaches_example :
    (root : Node) × (get_node imported_store 1 ≡ ok root)
    × ((names : List Bytes) × (walk imported_store root names ≡ ok (some third_node)))
import_reaches_example =
    import_reaches a_snapshot (a_directory ∷ a_file ∷ []) no_diagnostics imported_store imported.1 3
      third_node import_ran both_checked third_held

-- The same file with another size.
abbrev a_conflict : ParsedEntry
a_conflict = record a_file { size = some (pos 6) }

abbrev errors : ℕ → List ImportDiagnostic
errors zero = []
errors (suc n) = diagnostic_of Severity.error ∷ errors n

-- A report that is full, and begins with its only warning.
abbrev full_report : ParseResult
full_report = record {
  diagnostics = diagnostic_of Severity.warning ∷ errors 999;
  diagnostic_count = 1000;
  has_errors = true;
}

abbrev refusal : Result Exception (Unit {0}) × Builder → ImportDiagnostic
refusal (err (build_error d), b) = d
refusal out = diagnostic_of Severity.error

abbrev one_file : Builder
one_file = (add a_file empty_builder).1

abbrev refused : Result Exception (Unit {0}) × Builder
refused = add a_conflict one_file

conflict_refused :
    Refuses memory (a_file ∷ a_conflict ∷ []) (refusal refused) empty_builder refused.1
unfolding add builder text_eq encode freeze_metadata option_eq message_encodable
conflict_refused = inr (one_file, refl, inl refl)

run-Reports_example :
    (ds : List ImportDiagnostic) × (run memory
        (parsed (a_file ∷ a_conflict ∷ []) (ok full_report))
        empty_builder
      ≡ (import_failure ds 1001, abort refused.1))
    × Reports (refusal refused) full_report.diagnostics ds
run-Reports_example =
    run-Reports memory (a_file ∷ a_conflict ∷ []) full_report (refusal refused) empty_builder
      refused.1 conflict_refused

run_keeps_errors_example :
    (ds : List ImportDiagnostic) × (run memory
        (parsed (a_file ∷ a_conflict ∷ []) (ok full_report))
        empty_builder
      ≡ (import_failure ds 1001, abort refused.1))
    × (Among (diagnostic_of Severity.error) ds × Among (refusal refused) ds)
run_keeps_errors_example =
    run_keeps_errors memory (a_file ∷ a_conflict ∷ []) full_report (refusal refused)
      (diagnostic_of Severity.error) empty_builder refused.1 conflict_refused
      (inr (diagnostic_of Severity.warning, inl refl, refl)) (inr (inl refl)) refl
