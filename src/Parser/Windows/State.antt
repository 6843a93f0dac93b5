-- ===== src/Parser/Windows/State.antt =====
-- parser/windows_dir/state.py
use snapshot_fs.Prelude.{
  ℕ, Bool, false, not, ◌&&◌, Option, none, some, [], ◌∷◌, ℤ, pos, String, if◌then◌else◌, ◌==◌,
}
use snapshot_fs.Model.Message.{Message, lit, int, says}
use snapshot_fs.Diagnostics.{DiagnosticCollector, report}
use snapshot_fs.Parser.Windows.Paths.{WindowsPath}

pub record SectionState : Type 0 where
  pub path : Option WindowsPath
  pub line : Option ℤ
  pub files : ℕ
  pub size : ℕ
  pub file_summary : Bool
  pub dir_summary : Bool
  pub reported_files : ℕ
  pub reported_size : ℕ
  pub had_entries : Bool
  pub file_not_found : Bool
  pub mountable : Bool

pub record AggregateState : Type 0 where
  pub active : Bool
  pub file_summary : Bool
  pub dir_summary : Bool

unfoldable pub section_state : SectionState
section_state = record {
  path = none;
  line = none;
  files = 0;
  size = 0;
  file_summary = false;
  dir_summary = false;
  reported_files = 0;
  reported_size = 0;
  had_entries = false;
  file_not_found = false;
  mountable = false;
}

unfoldable pub aggregate_state : AggregateState
aggregate_state = record { active = false; file_summary = false; dir_summary = false }

unfoldable pub start : WindowsPath → ℕ → Bool → SectionState → SectionState
start path line mountable s = record {
  path = some path;
  line = some (pos line);
  files = 0;
  size = 0;
  file_summary = false;
  dir_summary = false;
  reported_files = 0;
  reported_size = 0;
  had_entries = false;
  file_not_found = false;
  mountable = mountable;
}

-- An error if the test holds.
unfoldable pub report_if :
    Bool → String → Message → Option ℤ → DiagnosticCollector → DiagnosticCollector
unfolding report
report_if wrong code message line c = if wrong then report code message line c else c

abbrev pub number : ℕ → Message → Message
number n rest = int (pos n) ∷ rest

unfoldable pub totals_differ : ℕ → ℕ → ℕ → ℕ → Bool
totals_differ count size files total = not (count == files && size == total)

abbrev pub close_diagnostics : SectionState → DiagnosticCollector → DiagnosticCollector
close_diagnostics s c =
    report_if (s.file_summary && totals_differ s.reported_files s.reported_size s.files s.size)
      "SECTION_FILE_TOTAL_MISMATCH"
      (lit "section reports "
        ∷ number s.reported_files (
            lit " files/"
            ∷ number s.reported_size (
                lit " bytes; parsed "
                ∷ number s.files (lit " files/" ∷ number s.size (lit " bytes" ∷ [])))))
      s.line
      (report_if (not s.dir_summary) "MISSING_SECTION_DIR_SUMMARY"
        (says "directory section is missing its Dir(s) summary") s.line
        (report_if (not s.file_summary) "MISSING_SECTION_FILE_SUMMARY"
          (says "directory section is missing its File(s) summary") s.line c))

abbrev pub closed :
    Option WindowsPath → SectionState → DiagnosticCollector → SectionState × DiagnosticCollector
closed none s c = (s, c)
closed (some path) s c = (record s { path = none }, close_diagnostics s c)

unfoldable pub close : SectionState → DiagnosticCollector → SectionState × DiagnosticCollector
unfolding report_if totals_differ
close s c = closed s.path s c
