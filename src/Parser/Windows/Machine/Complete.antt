-- ===== src/Parser/Windows/Machine/Complete.antt =====
-- A listing that ends without an error is a complete one.
use snapshot_fs.Prelude.{
  ℕ, ◌≡◌, refl, Bool, true, false, not, Option, none, some, Text, String, arith, Bool-cases, inl,
  inr, ℤ,
}
use snapshot_fs.Model.Message.{Message, says}
use snapshot_fs.Diagnostics.{
  DiagnosticCollector, report, add, with_input, ImportDiagnostic, error_at,
}
use snapshot_fs.Parser.Windows.Paths.{WindowsPath}
use snapshot_fs.Parser.Windows.State.{
  SectionState, AggregateState, close, report_if, totals_differ, closed,
}
use snapshot_fs.Parser.Windows.Handlers.{ParserState}
use snapshot_fs.Parser.Windows.Machine.{finish, decode_failure, footer_diagnostics}

-- A section that is open at the end has both summaries, and reports the files that it lists.
unfoldable pub IsClosable : Option WindowsPath → SectionState → Type 0
IsClosable none s = Unit {0}
IsClosable (some path) s =
    (s.file_summary ≡ true)
    × (s.dir_summary ≡ true)
    × (totals_differ s.reported_files s.reported_size s.files s.size ≡ false)

severity-with_input :
    (o : Option (ℕ × Text)) (d : ImportDiagnostic) → (with_input o d).severity ≡ d.severity
unfolding with_input
severity-with_input none d = refl
severity-with_input (some x) d = ground arith

report-has_errors :
    (code : String) (m : Message) (l : Option ℤ) (c : DiagnosticCollector)
    → (report code m l c).has_errors ≡ true
unfolding report add
report-has_errors code m l c = simp (severity-with_input c.source_line (error_at code m l)) refl

report_if-clean :
    (b : Bool) (code : String) (m : Message) (l : Option ℤ) (c : DiagnosticCollector)
    → (report_if b code m l c).has_errors ≡ false
    → (b ≡ false) × (c.has_errors ≡ false)
unfolding report_if
report_if-clean b code m l c h = ground (arith, report-has_errors code m l c)

decode_failure-clean :
    (f : Option (Message × ℕ)) (c : DiagnosticCollector)
    → (decode_failure f c).has_errors ≡ false
    → (f ≡ none) × (c.has_errors ≡ false)
decode_failure-clean none c h = (refl, h)
decode_failure-clean (some (m, n)) c h = cc (report-has_errors "DECODE_ERROR" m (some (ℤ.pos n)) c)

closed-clean :
    (o : Option WindowsPath) (s : SectionState) (c : DiagnosticCollector)
    → (closed o s c).1.has_errors ≡ false
    → IsClosable o s × (c.has_errors ≡ false)
unfolding IsClosable
closed-clean none s c h = (tt, h)
closed-clean (some path) s c h =
    let a = report_if-clean _ _ _ _ _ h in
    let b = report_if-clean _ _ _ _ _ a.1 in
    let d = report_if-clean _ _ _ _ _ b.1 in ground (arith, a.0, b.0, d.0, d.1)

footer_diagnostics-clean :
    (a : AggregateState) (c : DiagnosticCollector)
    → (footer_diagnostics a c).has_errors ≡ false
    → (a.active ≡ true) × (a.file_summary ≡ true) × (a.dir_summary ≡ true) × (c.has_errors ≡ false)
footer_diagnostics-clean a c h = elim (Bool-cases a.active) [
  | inl on ↦
      let c₁ =
        report_if (not a.file_summary) "MISSING_AGGREGATE_FILE_SUMMARY"
          (says "aggregate footer is missing its File(s) summary") none c in
      let dirs =
        report_if-clean (not a.dir_summary) "MISSING_AGGREGATE_DIR_SUMMARY"
          (says "aggregate footer is missing its Dir(s) summary") none c₁ in
      let files =
        report_if-clean (not a.file_summary) "MISSING_AGGREGATE_FILE_SUMMARY"
          (says "aggregate footer is missing its File(s) summary") none c in
      ground (arith, dirs, files)
  | inr off ↦ ground (
    arith,
    report-has_errors "MISSING_AGGREGATE_FOOTER" (says "missing Total Files Listed footer") none c,
  )
]

-- If the collector has no error when the parser is done, then decoding did not fail, a
-- section was seen, the footer was seen with both of its summaries, a section that is still
-- open is closable, and there was no error before the end.
pub finish_complete :
    (failure : Option (Message × ℕ)) (s : ParserState)
    → (finish failure s).has_errors ≡ false
    → (failure ≡ none)
      × (s.saw_section ≡ true)
      × ((s.aggregate.active ≡ true)
          × (s.aggregate.file_summary ≡ true)
          × (s.aggregate.dir_summary ≡ true))
      × IsClosable s.section.path s.section
      × (s.diagnostics.has_errors ≡ false)
unfolding finish close
finish_complete failure s h =
    let c₁ = decode_failure failure s.diagnostics in
    let c₂ = (close s.section c₁).1 in
    let c₃ =
      report_if (not s.saw_section) "MISSING_SECTION" (says "listing contains no directory section")
        none c₂ in
    let (active, files, dirs, h₁) = footer_diagnostics-clean s.aggregate c₃ h in
    let (saw, h₂) =
      report_if-clean (not s.saw_section) "MISSING_SECTION"
        (says "listing contains no directory section") none c₂ h₁ in
    let (closable, h₃) = closed-clean s.section.path s.section c₁ h₂ in
    let (decoded, h₄) = decode_failure-clean failure s.diagnostics h₃ in
    (decoded, ground (arith, saw), (active, files, dirs), closable, h₄)
