-- ===== src/Parser/Windows/Handlers.antt =====
-- parser/windows_dir/parser.py: the locals of `_parse`, and what it does on headers, footers,
-- summaries and markers.
use snapshot_fs.Prelude.{
  ℕ, Bool, true, false, not, ◌&&◌, ◌||◌, Option, none, some, [], ◌∷◌, pos, String, Text,
  if◌then◌else◌, ◌==◌, any, is_none,
}
use snapshot_fs.Model.Enums.{NodeKind, Observation}
use snapshot_fs.Model.Message.{Message, lit, says, Error}
use snapshot_fs.Model.Metadata.{end}
use snapshot_fs.Model.Entry.{ParsedEntry}
use snapshot_fs.Diagnostics.{DiagnosticCollector, collector, report, max_diagnostics}
use snapshot_fs.Parser.Windows.Paths.{windows_path, to_mounted_path, valid_section_path}
use snapshot_fs.Parser.Windows.Patterns.{parse_integer}
use snapshot_fs.Parser.Windows.State.{
  SectionState, AggregateState, section_state, aggregate_state, start, close, number, totals_differ,
}

-- The locals of `_parse`, and the exception that has left it, if one has.
pub record ParserState : Type 0 where
  pub section : SectionState
  pub aggregate : AggregateState
  pub total_files : ℕ
  pub total_size : ℕ
  pub saw_section : Bool
  pub diagnostics : DiagnosticCollector
  pub raised : Option Error

unfoldable pub parser_state : ParserState
unfolding section_state aggregate_state collector
parser_state = record {
  section = section_state;
  aggregate = aggregate_state;
  total_files = 0;
  total_size = 0;
  saw_section = false;
  diagnostics = collector max_diagnostics;
  raised = none;
}

-- `diagnostics.error(code, message, number)`
unfoldable pub complain : String → Message → ℕ → ParserState → ParserState
unfolding report
complain code message n s = record s {
  diagnostics = report code message (some (pos n)) s.diagnostics;
}

unfoldable pub complain_if : Bool → String → Message → ℕ → ParserState → ParserState
unfolding complain
complain_if wrong code message n s = if wrong then complain code message n s else s

unfoldable pub close_section : ParserState → ParserState
unfolding close
close_section s =
    let (section, diagnostics) = close s.section s.diagnostics in
    record s { section = section; diagnostics = diagnostics }

-- `"\x00" in raw_path or "/" in raw_path`
unfoldable pub unsafe_path : Text → Bool
unsafe_path raw = any (λ c. c == 0 || c == 0x2F) raw

abbrev section_entry : Text → ℕ → ParsedEntry
section_entry raw n = record {
  path = to_mounted_path (windows_path raw);
  kind = NodeKind.directory;
  observation = Observation.section_header;
  size = none;
  modified_local = none;
  source_line = some (pos n);
  content = none;
  source_metadata = end;
}

unfoldable pub begin_section : Text → ℕ → ParserState → ParserState × Option ParsedEntry
unfolding close_section valid_section_path unsafe_path start windows_path to_mounted_path
    complain_if
begin_section raw n s =
    let valid = valid_section_path raw in
    let unsafe = unsafe_path raw in
    let mountable = valid && not unsafe in
    let s₁ =
      complain_if unsafe "INVALID_SECTION_PATH" (says "section path contains NUL or forward slash")
        n (close_section s) in
    let s₂ =
      complain_if (not unsafe && not valid) "INVALID_SECTION_PATH"
        (says "section path contains an empty component or unsupported alternate data stream") n
        s₁ in
    (
      record s₂ { section = start (windows_path raw) n mountable s₂.section; saw_section = true },
      if mountable then some (section_entry raw n) else none,
    )

unfoldable pub on_header : Text → ℕ → ParserState → ParserState × Option ParsedEntry
unfolding complain begin_section
on_header raw n s =
    if s.aggregate.active
    then (
      complain "SECTION_AFTER_AGGREGATE" (says "directory section appears after aggregate footer") n
          s,
      none,
    )
    else begin_section raw n s

unfoldable pub on_footer : ℕ → ParserState → ParserState
unfolding close_section complain_if
on_footer n s =
    let s₁ = close_section s in
    let s₂ =
      complain_if s₁.aggregate.active "DUPLICATE_AGGREGATE_FOOTER"
        (says "duplicate Total Files Listed footer") n s₁ in
    record s₂ { aggregate = record s₂.aggregate { active = true } }

unfoldable pub aggregate_files : ℕ → ℕ → ℕ → ParserState → ParserState
unfolding complain_if totals_differ
aggregate_files count size n s =
    let s₁ =
      complain_if s.aggregate.file_summary "DUPLICATE_AGGREGATE_FILE_SUMMARY"
        (says "duplicate aggregate File(s) summary") n s in
    let s₂ =
      complain_if s.aggregate.dir_summary "AGGREGATE_FILE_SUMMARY_AFTER_DIR_SUMMARY"
        (says "aggregate File(s) summary appears after Dir(s) summary") n
        (record s₁ { aggregate = record s₁.aggregate { file_summary = true } }) in
    complain_if (totals_differ count size s.total_files s.total_size)
      "AGGREGATE_FILE_TOTAL_MISMATCH"
      (lit "aggregate reports "
        ∷ number count (
            lit " files/"
            ∷ number size (
                lit " bytes; parsed "
                ∷ number s.total_files (lit " files/" ∷ number s.total_size (lit " bytes" ∷ [])))))
      n s₂

unfoldable pub section_files : ℕ → ℕ → ℕ → ParserState → ParserState
unfolding complain_if
section_files count size n s =
    let s₁ =
      complain_if s.section.file_summary "DUPLICATE_SECTION_FILE_SUMMARY"
        (says "duplicate section File(s) summary") n s in
    record s₁ {
      section = record s₁.section {
        file_summary = true;
        reported_files = count;
        reported_size = size;
      };
    }

abbrev pub invalid_number : ℕ → ParserState → ParserState
invalid_number n s = complain "INVALID_SUMMARY_NUMBER" (says "invalid summary number") n s

abbrev pub file_counts : Option ℕ → Option ℕ → ℕ → ParserState → ParserState
file_counts none size n s = invalid_number n s
file_counts (some count) none n s = invalid_number n s
file_counts (some count) (some size) n s =
    if s.aggregate.active
    then aggregate_files count size n s
    else if is_none s.section.path
    then complain "SUMMARY_OUTSIDE_SECTION" (says "File(s) summary appears outside a section") n s
    else section_files count size n s

unfoldable pub on_file_summary : Text × Text → ℕ → ParserState → ParserState
unfolding parse_integer complain aggregate_files section_files
on_file_summary (count, size) n s = file_counts (parse_integer count) (parse_integer size) n s

unfoldable pub aggregate_dirs : ℕ → ParserState → ParserState
unfolding complain_if
aggregate_dirs n s =
    let s₁ =
      complain_if s.aggregate.dir_summary "DUPLICATE_AGGREGATE_DIR_SUMMARY"
        (says "duplicate aggregate Dir(s) summary") n s in
    complain_if (not s.aggregate.file_summary) "AGGREGATE_DIR_SUMMARY_BEFORE_FILE_SUMMARY"
      (says "aggregate Dir(s) summary appears before File(s) summary") n
      (record s₁ { aggregate = record s₁.aggregate { dir_summary = true } })

unfoldable pub section_dirs : ℕ → ParserState → ParserState
unfolding complain_if
section_dirs n s =
    let s₁ =
      complain_if s.section.dir_summary "DUPLICATE_SECTION_DIR_SUMMARY"
        (says "duplicate section Dir(s) summary") n s in
    let s₂ =
      complain_if (not s.section.file_summary) "SECTION_DIR_SUMMARY_BEFORE_FILE_SUMMARY"
        (says "section Dir(s) summary appears before File(s) summary") n s₁ in
    record s₂ { section = record s₂.section { dir_summary = true } }

unfoldable pub on_dir_summary : Text × Text → ℕ → ParserState → ParserState
unfolding parse_integer complain aggregate_dirs section_dirs
on_dir_summary (count, free) n s =
    if is_none (parse_integer count) || is_none (parse_integer free)
    then invalid_number n s
    else if s.aggregate.active
    then aggregate_dirs n s
    else if is_none s.section.path
    then complain "SUMMARY_OUTSIDE_SECTION" (says "Dir(s) summary appears outside a section") n s
    else section_dirs n s

unfoldable pub on_file_not_found : ℕ → ParserState → ParserState
unfolding complain
on_file_not_found n s =
    if is_none s.section.path || s.aggregate.active
    then complain "FILE_NOT_FOUND_OUTSIDE_SECTION" (says "File Not Found appears outside a section")
        n s
    else if s.section.file_summary || s.section.dir_summary
    then complain "FILE_NOT_FOUND_AFTER_SUMMARY"
        (says "File Not Found appears after a section summary") n s
    else if s.section.had_entries
    then complain "FILE_NOT_FOUND_WITH_ENTRIES"
        (says "File Not Found cannot be mixed with directory entries") n s
    else if s.section.file_not_found
    then complain "DUPLICATE_FILE_NOT_FOUND" (says "duplicate File Not Found marker") n s
    else record s { section = record s.section { file_not_found = true } }
