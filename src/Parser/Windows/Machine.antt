-- ===== src/Parser/Windows/Machine.antt =====
-- parser/windows_dir/parser.py: the loop of `_parse` as a step on its local state. A decoded line
-- is its number and its text; decoding, which may end the loop by an error, is outside.
pub mod Totals
pub mod Complete
use snapshot_fs.Prelude.{
  ℕ, zero, suc, ◌+◌, Bool, true, false, not, ◌&&◌, ◌||◌, Option, none, some, List, [], ◌∷◌, ℤ, pos,
  negsuc, String, Text, codes, if◌then◌else◌, ◌==◌, any, text_eq, is_some, is_none, Result, ok, err,
}
use snapshot_fs.Model.Enums.{NodeKind, Observation, kind_is}
use snapshot_fs.Model.Message.{
  Message, lit, says, Error, type_error, value_error, runtime_error, overflow_error,
}
use snapshot_fs.Model.DateTime.{DateTime}
use snapshot_fs.Model.Metadata.{end}
use snapshot_fs.Model.Entry.{ParsedEntry}
use snapshot_fs.Diagnostics.{DiagnosticCollector, collector, observe_line, report, max_diagnostics}
use snapshot_fs.Parser.Unicode.{strip}
use snapshot_fs.Parser.Timestamps.{ZoneInfo, Ambiguous, localize}
use snapshot_fs.Parser.Windows.Paths.{
  WindowsPath, windows_path, to_mounted_path, valid_section_path,
}
use snapshot_fs.Parser.Windows.Patterns.{
  header_path, file_summary, dir_summary, is_volume, resembles_entry, parse_integer,
}
use snapshot_fs.Parser.Windows.Grammar.{DateFormat, parse_entry}
use snapshot_fs.Parser.Windows.State.{
  SectionState, AggregateState, section_state, aggregate_state, start, close, report_if, number,
  totals_differ,
}
use snapshot_fs.Parser.Windows.Handlers.{
  ParserState, parser_state, complain, complain_if, close_section, unsafe_path, begin_section,
  on_header, on_footer, aggregate_files, section_files, invalid_number, on_file_summary,
  aggregate_dirs, section_dirs, on_dir_summary, on_file_not_found,
}

pub record WindowsDirParser : Type 0 where
  pub date_format : DateFormat
  pub zone : ZoneInfo
  pub ambiguous_time : Ambiguous

-- `except ValueError`: any other exception leaves the parser, and the entry is not yielded.
abbrev pub with_time :
    Result Error DateTime → ParsedEntry → ℕ → ParserState → ParserState × Option ParsedEntry
with_time (ok time) e n s = (s, some (record e { modified_local = some time }))
with_time (err (value_error m)) e n s = (complain "INVALID_LOCAL_TIME" m n s, some e)
with_time (err other) e n s = (record s { raised = some other }, none)

abbrev pub localized_at :
    WindowsDirParser
    → Option DateTime
    → ParsedEntry
    → ℕ
    → ParserState
    → ParserState × Option ParsedEntry
localized_at p none e n s = (s, some e)
localized_at p (some t) e n s = with_time (localize t p.zone p.ambiguous_time) e n s

unfoldable pub localized :
    WindowsDirParser → ParsedEntry → ℕ → ParserState → ParserState × Option ParsedEntry
unfolding complain localize
localized p e n s = localized_at p e.modified_local e n s

-- A parsed file has a size, and not a negative one.
abbrev pub size_of : Option ℤ → ℕ
size_of (some (pos n)) = n
size_of _ = 0

unfoldable pub count_entry : ParsedEntry → ParserState → ParserState
count_entry e s =
    if kind_is e.kind NodeKind.file
    then record s {
      section = record s.section {
        files = s.section.files + 1;
        size = s.section.size + size_of e.size;
      };
      total_files = s.total_files + 1;
      total_size = s.total_size + size_of e.size;
    }
    else s

-- `yield entry`, and the counts that follow it.
abbrev pub counted : ParserState × Option ParsedEntry → ParserState × Option ParsedEntry
counted (s, none) = (s, none)
counted (s, some e) = (count_entry e s, some e)

abbrev pub yield_entry :
    WindowsDirParser → Option ParsedEntry → ℕ → ParserState → ParserState × Option ParsedEntry
yield_entry p none n s = (s, none)
yield_entry p (some e) n s = counted (localized p e n s)

-- A line that the grammar takes for an entry.
unfoldable pub on_entry :
    WindowsDirParser → Option ParsedEntry → ℕ → ParserState → ParserState × Option ParsedEntry
unfolding complain localized count_entry
on_entry p e n s =
    if s.section.file_summary || s.section.dir_summary
    then (
      complain "ENTRY_AFTER_SECTION_SUMMARY"
          (says "directory entry appears after a section summary") n s,
      none,
    )
    else if s.section.file_not_found
    then (
      complain "ENTRY_WITH_FILE_NOT_FOUND"
          (says "directory entry cannot be mixed with File Not Found") n s,
      none,
    )
    else yield_entry p e n (record s { section = record s.section { had_entries = true } })

unfoldable pub on_unknown : Text → ℕ → ParserState → ParserState
unfolding complain resembles_entry
on_unknown line n s =
    complain (if resembles_entry line then "MALFORMED_ENTRY" else "UNKNOWN_LINE")
      (says "unrecognized meaningful line; expected a directory header, entry, or English summary")
      n s

abbrev pub matched_entry :
    WindowsDirParser
    → Option (Option ParsedEntry × DiagnosticCollector)
    → Text
    → ℕ
    → ParserState
    → ParserState × Option ParsedEntry
matched_entry p none line n s = (on_unknown line n s, none)
matched_entry p (some (e, c)) line n s = on_entry p e n (record s { diagnostics = c })

abbrev pub entry_in :
    WindowsDirParser
    → Option WindowsPath
    → Text
    → ℕ
    → ParserState
    → ParserState × Option ParsedEntry
entry_in p none line n s = (on_unknown line n s, none)
entry_in p (some path) line n s =
    if s.section.mountable && not s.aggregate.active
    then matched_entry p (parse_entry path line n p.date_format s.diagnostics) line n s
    else (on_unknown line n s, none)

-- A line that is no header, footer, summary or marker.
unfoldable pub on_other :
    WindowsDirParser → Text → ℕ → ParserState → ParserState × Option ParsedEntry
unfolding parse_entry on_entry on_unknown
on_other p line n s = entry_in p s.section.path line n s

abbrev pub after_dirs :
    WindowsDirParser
    → Option (Text × Text)
    → Text
    → ℕ
    → ParserState
    → ParserState × Option ParsedEntry
after_dirs p (some summary) line n s = (on_dir_summary summary n s, none)
after_dirs p none line n s =
    if text_eq (strip line) (codes "File Not Found")
    then (on_file_not_found n s, none)
    else on_other p line n s

abbrev pub after_files :
    WindowsDirParser
    → Option (Text × Text)
    → Text
    → ℕ
    → ParserState
    → ParserState × Option ParsedEntry
after_files p (some summary) line n s = (on_file_summary summary n s, none)
after_files p none line n s = after_dirs p (dir_summary line) line n s

abbrev pub after_header :
    WindowsDirParser → Option Text → Text → ℕ → ParserState → ParserState × Option ParsedEntry
after_header p (some raw) line n s = on_header raw n s
after_header p none line n s =
    if text_eq (strip line) (codes "Total Files Listed:")
    then (on_footer n s, none)
    else after_files p (file_summary line) line n s

-- The body of the loop: the new state and what is yielded.
unfoldable pub step : WindowsDirParser → ℕ × Text → ParserState → ParserState × Option ParsedEntry
unfolding strip is_volume header_path file_summary dir_summary observe_line on_header on_footer
    on_file_summary on_dir_summary on_file_not_found on_other
step p (n, line) s =
    let s₁ = record s { diagnostics = observe_line n line s.diagnostics } in
    if text_eq (strip line) [] || is_volume line
    then (s₁, none)
    else after_header p (header_path line) line n s₁

unfoldable pub emit : Option ParsedEntry → List ParsedEntry → List ParsedEntry
emit none es = es
emit (some e) es = e ∷ es

-- The loop: all that is yielded, and the state at its end. An exception ends it.
unfoldable pub parse_lines :
    WindowsDirParser → List (ℕ × Text) → ParserState → List ParsedEntry × ParserState
unfolding step emit
parse_lines p [] s = ([], s)
parse_lines p (l ∷ ls) s =
    let (s₁, e) = step p l s in
    let (es, s₂) = parse_lines p ls s₁ in
    if is_some s₁.raised then (emit e [], s₁) else (emit e es, s₂)

abbrev pub decode_failure : Option (Message × ℕ) → DiagnosticCollector → DiagnosticCollector
decode_failure none c = c
decode_failure (some (message, n)) c = report "DECODE_ERROR" message (some (pos n)) c

abbrev pub footer_diagnostics : AggregateState → DiagnosticCollector → DiagnosticCollector
footer_diagnostics a c =
    if not a.active
    then report "MISSING_AGGREGATE_FOOTER" (says "missing Total Files Listed footer") none c
    else report_if (not a.dir_summary) "MISSING_AGGREGATE_DIR_SUMMARY"
        (says "aggregate footer is missing its Dir(s) summary") none
        (report_if (not a.file_summary) "MISSING_AGGREGATE_FILE_SUMMARY"
          (says "aggregate footer is missing its File(s) summary") none c)

-- What follows the loop, with the message and the line of a decoding error that ended it.
unfoldable pub finish : Option (Message × ℕ) → ParserState → DiagnosticCollector
unfolding close report report_if
finish failure s =
    let (_, c) = close s.section (decode_failure failure s.diagnostics) in
    footer_diagnostics s.aggregate (
      report_if (not s.saw_section) "MISSING_SECTION" (says "listing contains no directory section")
        none c)

-- The generator: the entries, and the collector at its end unless an exception left it.
unfoldable pub parse :
    WindowsDirParser
    → List (ℕ × Text)
    → Option (Message × ℕ)
    → List ParsedEntry × Result Error DiagnosticCollector
unfolding parse_lines parser_state finish
parse p ls failure =
    let (es, s) = parse_lines p ls parser_state in
    (es, elim s.raised [ some e ↦ err e | none ↦ ok (finish failure s) ])
