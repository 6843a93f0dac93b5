-- ===== src/Importing.antt =====
-- import_service.py: one import from a source through a parser into a builder
pub mod Memory
pub mod Retention
pub mod Publishing
pub mod Reporting
pub mod Refusing
pub mod Reached
use snapshot_fs.Prelude.{
  ℕ, zero, suc, ◌+◌, ◌-◌, Bool, true, false, ◌||◌, Option, none, some, List, [], ◌∷◌, ◌++◌, Result,
  ok, err, ltb, length, take, drop, if◌then◌else◌, is_some,
}
use snapshot_fs.Model.Enums.{Severity}
use snapshot_fs.Model.Entry.{ParsedEntry}
use snapshot_fs.Model.Snapshot.{Snapshot, snapshot}
use snapshot_fs.Diagnostics.{ImportDiagnostic, max_diagnostics, is_error}
use snapshot_fs.Store.Building.{Exception, build_error, raised}

-- `SnapshotBuilder`: what an import needs of a builder. A method that raises leaves a state too,
-- and `abort` stands for the call under `suppress(Exception)`.
pub record SnapshotBuilder : Type 1 where
  pub Builder : Type 0
  pub Store : Type 0
  pub add : ParsedEntry → Builder → Result Exception (Unit {0}) × Builder
  pub finish : List ImportDiagnostic → ℕ → Builder → Result Exception Store × Builder
  pub abort : Builder → Builder

-- What the parser's stream gives once all entries are consumed, unless it raises.
pub record ParseResult : Type 0 where
  pub diagnostics : List ImportDiagnostic
  pub diagnostic_count : ℕ
  pub has_errors : Bool

-- A source as this import meets it: it cannot be opened, or its stream is parsed into entries,
-- in order, and an end, which is the result or an exception of the parser.
pub data Stream : Type 0 where
  unopened : Exception → Stream
  parsed : List ParsedEntry → Result Exception ParseResult → Stream

-- What an import ends in; `import_failure` is the exception `ImportFailure`.
pub data Outcome (Store : Type 0) : Type 0 where
  published : Store → Outcome Store
  import_failure : List ImportDiagnostic → ℕ → Outcome Store
  failed : Exception → Outcome Store

-- The position of the last warning, `next((index for index in range(len - 1, -1, -1) if …), …)`.
unfoldable pub last_warning : List ImportDiagnostic → Option ℕ
last_warning [] = none
last_warning (d ∷ ds) = elim (last_warning ds) [
  | some i ↦ some (suc i)
  | none ↦ if is_error d.severity then none else some 0
]

unfoldable pub replacement : List ImportDiagnostic → ℕ
unfolding last_warning
replacement ds = elim (last_warning ds) [ some i ↦ i | none ↦ length ds - 1 ]

-- `(*diagnostics[:i], d, *diagnostics[i + 1:])`
abbrev pub replace_at : ℕ → ImportDiagnostic → List ImportDiagnostic → List ImportDiagnostic
replace_at i d ds = take i ds ++ d ∷ drop (suc i) ds

unfoldable pub retain : Option ImportDiagnostic → List ImportDiagnostic → List ImportDiagnostic
unfolding replacement
retain none ds = ds
retain (some d) ds =
    if ltb (length ds) max_diagnostics then ds ++ d ∷ [] else replace_at (replacement ds) d ds

abbrev pub count_with : Option ImportDiagnostic → ℕ → ℕ
count_with none n = n
count_with (some d) n = n + 1

module _ (B : SnapshotBuilder) where
  -- The loop over the entries: after a `BuildError` the rest is consumed and not added.
  unfoldable pub consume :
      List ParsedEntry
      → Option ImportDiagnostic
      → B.Builder
      → Result Exception (Option ImportDiagnostic) × B.Builder
  consume [] found b = (ok found, b)
  consume (entry ∷ entries) (some d) b = consume entries (some d) b
  consume (entry ∷ entries) none b =
      let (outcome, b') = B.add entry b in
      elim outcome [
        | ok _ ↦ consume entries none b'
        | err e ↦ elim e [ build_error d ↦ consume entries (some d) b' | other ↦ (err other, b') ]
      ]

  unfoldable pub conclude :
      Option ImportDiagnostic → ParseResult → B.Builder → Outcome B.Store × B.Builder
  unfolding retain
  conclude found result b =
      let diagnostics = retain found result.diagnostics in
      let count = count_with found result.diagnostic_count in
      if result.has_errors || is_some found
      then (import_failure diagnostics count, B.abort b)
      else (let (outcome, b') = B.finish diagnostics count b in
          elim outcome [ ok store ↦ (published store, b') | err e ↦ (failed e, B.abort b') ])

  -- The `try` block: every exception aborts the builder.
  unfoldable pub run : Stream → B.Builder → Outcome B.Store × B.Builder
  unfolding consume conclude
  run (unopened e) b = (failed e, B.abort b)
  run (parsed entries end) b =
      let (outcome, b') = consume entries none b in
      elim outcome [
        | err e ↦ (failed e, B.abort b')
        | ok found ↦ elim end [
          | err e ↦ (failed e, B.abort b')
          | ok result ↦ conclude found result b'
        ]
      ]

  -- `_create_store`: the snapshot's constructor and the factory stand before the `try`. The
  -- identifier, the time and the source's names come from outside.
  unfoldable pub create_store :
      Snapshot
      → (Snapshot → Result Exception B.Builder)
      → Stream
      → Outcome B.Store × Option B.Builder
  unfolding snapshot run
  create_store given builder_factory stream = elim (snapshot given) [
    | err e ↦ (failed (raised e), none)
    | ok s ↦ elim (builder_factory s) [
      | err e ↦ (failed e, none)
      | ok b ↦ let (outcome, b') = run stream b in (outcome, some b')
    ]
  ]
