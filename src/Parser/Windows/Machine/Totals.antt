-- ===== src/Parser/Windows/Machine/Totals.antt =====
-- The totals of the machine against what it yields, and a listing that ends without an error.
use snapshot_fs.Prelude.{
  ℕ, ◌+◌, ◌≡◌, refl, Bool, true, false, Option, none, some, List, [], ◌∷◌, Text, String,
  if◌then◌else◌, arith, Result, ok, err, text_eq, codes, not, ◌&&◌, ◌||◌,
}
use snapshot_fs.Model.Enums.{NodeKind, kind_is}
use snapshot_fs.Model.Entry.{ParsedEntry}
use snapshot_fs.Model.Message.{
  Error, Message, says, type_error, value_error, runtime_error, overflow_error,
}
use snapshot_fs.Parser.Windows.Paths.{WindowsPath}
use snapshot_fs.Parser.Windows.Patterns.{
  parse_integer, is_volume, header_path, file_summary, dir_summary,
}
use snapshot_fs.Parser.Windows.Grammar.{parse_entry}
use snapshot_fs.Parser.Timestamps.{localize}
use snapshot_fs.Parser.Unicode.{strip}
use snapshot_fs.Model.DateTime.{DateTime}
use snapshot_fs.Diagnostics.{observe_line, DiagnosticCollector}
use snapshot_fs.Parser.Windows.Handlers.{
  on_header, file_counts, ParserState, complain, complain_if, close_section, begin_section,
  on_footer, aggregate_files, section_files, on_file_summary, aggregate_dirs, section_dirs,
  on_dir_summary, on_file_not_found,
}
use snapshot_fs.Parser.Windows.Machine.{
  WindowsDirParser, localized, size_of, count_entry, on_entry, emit, on_unknown, on_other, step,
  parse_lines, with_time, localized_at, matched_entry, entry_in, after_dirs, after_files,
  after_header, yield_entry, counted,
}

-- How many files there are among the entries, and their sizes together.
unfoldable pub file_count : List ParsedEntry → ℕ
file_count [] = 0
file_count (e ∷ es) = (if kind_is e.kind NodeKind.file then 1 else 0) + file_count es

unfoldable pub file_size : List ParsedEntry → ℕ
file_size [] = 0
file_size (e ∷ es) = (if kind_is e.kind NodeKind.file then size_of e.size else 0) + file_size es

-- The totals of `t` are those of `s` and of the entries.
abbrev pub Counted : ParserState → List ParsedEntry → ParserState → Type 0
Counted s es t =
    (t.total_files ≡ s.total_files + file_count es) × (t.total_size ≡ s.total_size + file_size es)

abbrev SameTotals : ParserState → ParserState → Type 0
SameTotals s t = (t.total_files ≡ s.total_files) × (t.total_size ≡ s.total_size)

complain_if-SameTotals :
    (b : Bool) (code : String) (m : Message) (n : ℕ) (s : ParserState)
    → SameTotals s (complain_if b code m n s)
unfolding complain_if complain
complain_if-SameTotals true code m n s = (refl, refl)
complain_if-SameTotals false code m n s = (refl, refl)

on_footer-SameTotals : (n : ℕ) (s : ParserState) → SameTotals s (on_footer n s)
unfolding on_footer complain_if complain close_section
on_footer-SameTotals n s = ground arith

aggregate_files-SameTotals : (c z n : ℕ) (s : ParserState) → SameTotals s (aggregate_files c z n s)
unfolding aggregate_files complain_if complain
aggregate_files-SameTotals c z n s = ground arith

section_files-SameTotals : (c z n : ℕ) (s : ParserState) → SameTotals s (section_files c z n s)
unfolding section_files complain_if complain
section_files-SameTotals c z n s = ground arith

aggregate_dirs-SameTotals : (n : ℕ) (s : ParserState) → SameTotals s (aggregate_dirs n s)
unfolding aggregate_dirs complain_if complain
aggregate_dirs-SameTotals n s = ground arith

section_dirs-SameTotals : (n : ℕ) (s : ParserState) → SameTotals s (section_dirs n s)
unfolding section_dirs complain_if complain
section_dirs-SameTotals n s = ground arith

file_counts-SameTotals :
    (c z : Option ℕ) (n : ℕ) (s : ParserState) → SameTotals s (file_counts c z n s)
unfolding complain
file_counts-SameTotals none z n s = (refl, refl)
file_counts-SameTotals (some c) none n s = (refl, refl)
file_counts-SameTotals (some c) (some z) n s =
    ground (arith, aggregate_files-SameTotals c z n s, section_files-SameTotals c z n s)

on_file_summary-SameTotals :
    (x : Text × Text) (n : ℕ) (s : ParserState) → SameTotals s (on_file_summary x n s)
unfolding on_file_summary
on_file_summary-SameTotals (count, size) n s =
    file_counts-SameTotals (parse_integer count) (parse_integer size) n s

on_dir_summary-SameTotals :
    (x : Text × Text) (n : ℕ) (s : ParserState) → SameTotals s (on_dir_summary x n s)
unfolding on_dir_summary complain
on_dir_summary-SameTotals (count, size) n s =
    ground (arith, aggregate_dirs-SameTotals n s, section_dirs-SameTotals n s)

on_file_not_found-SameTotals : (n : ℕ) (s : ParserState) → SameTotals s (on_file_not_found n s)
unfolding on_file_not_found complain
on_file_not_found-SameTotals n s = ground arith

begin_section-Counted :
    (raw : Text) (n : ℕ) (s : ParserState)
    → let (s', e) = begin_section raw n s in Counted s (emit e []) s'
unfolding begin_section complain_if complain close_section emit file_count file_size
begin_section-Counted raw n s = ground arith

count_entry-totals :
    (e : ParsedEntry) (s : ParserState)
    → ((count_entry e s).total_files ≡ s.total_files + file_count (e ∷ []))
      × ((count_entry e s).total_size ≡ s.total_size + file_size (e ∷ []))
unfolding count_entry file_count file_size
count_entry-totals e s = ground arith

-- The totals of a step against what it yields.
abbrev Yielded : ParserState → ParserState × Option ParsedEntry → Type 0
Yielded s r = Counted s (emit r.1 []) r.0

SameTotals→Yielded : (s t : ParserState) → SameTotals s t → Yielded s (t, none)
unfolding emit file_count file_size
SameTotals→Yielded s t h = ground arith

if-Yielded :
    (b : Bool) (s : ParserState) (x y : ParserState × Option ParsedEntry)
    → Yielded s x
    → Yielded s y
    → Yielded s (if b then x else y)
if-Yielded true s x y h k = h
if-Yielded false s x y h k = k

with_time-SameTotals :
    (r : Result Error DateTime) (e : ParsedEntry) (n : ℕ) (s : ParserState)
    → SameTotals s (with_time r e n s).0
unfolding complain
with_time-SameTotals (ok t) e n s = (refl, refl)
with_time-SameTotals (err (value_error m)) e n s = (refl, refl)
with_time-SameTotals (err (type_error m)) e n s = (refl, refl)
with_time-SameTotals (err (runtime_error m)) e n s = (refl, refl)
with_time-SameTotals (err (overflow_error m)) e n s = (refl, refl)

localized_at-SameTotals :
    (p : WindowsDirParser) (t : Option DateTime) (e : ParsedEntry) (n : ℕ) (s : ParserState)
    → SameTotals s (localized_at p t e n s).0
localized_at-SameTotals p none e n s = (refl, refl)
localized_at-SameTotals p (some t) e n s =
    with_time-SameTotals (localize t p.zone p.ambiguous_time) e n s

counted-Yielded :
    (s : ParserState) (r : ParserState × Option ParsedEntry)
    → SameTotals s r.0
    → Yielded s (counted r)
unfolding emit file_count file_size
counted-Yielded s (t, none) h = SameTotals→Yielded s t h
counted-Yielded s (t, some e) h = ground (arith, h, count_entry-totals e t)

yield_entry-Yielded :
    (p : WindowsDirParser) (e : Option ParsedEntry) (n : ℕ) (s : ParserState)
    → Yielded s (yield_entry p e n s)
unfolding localized
yield_entry-Yielded p none n s = SameTotals→Yielded s s (refl, refl)
yield_entry-Yielded p (some e) n s =
    counted-Yielded s (localized p e n s) (localized_at-SameTotals p e.modified_local e n s)

on_entry-Yielded :
    (p : WindowsDirParser) (e : Option ParsedEntry) (n : ℕ) (s : ParserState)
    → Yielded s (on_entry p e n s)
unfolding on_entry complain emit file_count file_size
on_entry-Yielded p e n s = ground (
  arith,
  yield_entry-Yielded p e n (record s { section = record s.section { had_entries = true } }),
)

matched_entry-Yielded :
    (p : WindowsDirParser) (o : Option (Option ParsedEntry × DiagnosticCollector)) (line : Text)
    (n : ℕ) (s : ParserState)
    → Yielded s (matched_entry p o line n s)
unfolding on_unknown complain
matched_entry-Yielded p none line n s = SameTotals→Yielded s (on_unknown line n s) (refl, refl)
matched_entry-Yielded p (some (e, c)) line n s =
    on_entry-Yielded p e n (record s { diagnostics = c })

entry_in-Yielded :
    (p : WindowsDirParser) (o : Option WindowsPath) (line : Text) (n : ℕ) (s : ParserState)
    → Yielded s (entry_in p o line n s)
unfolding on_unknown complain
entry_in-Yielded p none line n s = SameTotals→Yielded s (on_unknown line n s) (refl, refl)
entry_in-Yielded p (some path) line n s =
    if-Yielded (s.section.mountable && not s.aggregate.active) s _ _
      (matched_entry-Yielded p (parse_entry path line n p.date_format s.diagnostics) line n s)
      (SameTotals→Yielded s (on_unknown line n s) (refl, refl))

on_other-Yielded :
    (p : WindowsDirParser) (line : Text) (n : ℕ) (s : ParserState) → Yielded s (on_other p line n s)
unfolding on_other
on_other-Yielded p line n s = entry_in-Yielded p s.section.path line n s

after_dirs-Yielded :
    (p : WindowsDirParser) (o : Option (Text × Text)) (line : Text) (n : ℕ) (s : ParserState)
    → Yielded s (after_dirs p o line n s)
after_dirs-Yielded p (some x) line n s =
    SameTotals→Yielded s (on_dir_summary x n s) (on_dir_summary-SameTotals x n s)
after_dirs-Yielded p none line n s =
    if-Yielded (text_eq (strip line) (codes "File Not Found")) s _ _
      (SameTotals→Yielded s (on_file_not_found n s) (on_file_not_found-SameTotals n s))
      (on_other-Yielded p line n s)

after_files-Yielded :
    (p : WindowsDirParser) (o : Option (Text × Text)) (line : Text) (n : ℕ) (s : ParserState)
    → Yielded s (after_files p o line n s)
after_files-Yielded p (some x) line n s =
    SameTotals→Yielded s (on_file_summary x n s) (on_file_summary-SameTotals x n s)
after_files-Yielded p none line n s = after_dirs-Yielded p (dir_summary line) line n s

on_header-Yielded : (raw : Text) (n : ℕ) (s : ParserState) → Yielded s (on_header raw n s)
unfolding on_header complain
on_header-Yielded raw n s =
    if-Yielded s.aggregate.active s _ _
      (SameTotals→Yielded s
        (complain "SECTION_AFTER_AGGREGATE"
          (says "directory section appears after aggregate footer") n s)
        (refl, refl))
      (begin_section-Counted raw n s)

after_header-Yielded :
    (p : WindowsDirParser) (o : Option Text) (line : Text) (n : ℕ) (s : ParserState)
    → Yielded s (after_header p o line n s)
after_header-Yielded p (some raw) line n s = on_header-Yielded raw n s
after_header-Yielded p none line n s =
    if-Yielded (text_eq (strip line) (codes "Total Files Listed:")) s _ _
      (SameTotals→Yielded s (on_footer n s) (on_footer-SameTotals n s))
      (after_files-Yielded p (file_summary line) line n s)

step-Yielded : (p : WindowsDirParser) (l : ℕ × Text) (s : ParserState) → Yielded s (step p l s)
unfolding step
step-Yielded p (n, line) s =
    let s₁ = record s { diagnostics = observe_line n line s.diagnostics } in
    if-Yielded (text_eq (strip line) [] || is_volume line) s _ _
      (SameTotals→Yielded s s₁ (refl, refl)) (after_header-Yielded p (header_path line) line n s₁)

emit-counts :
    (e : Option ParsedEntry) (es : List ParsedEntry)
    → (file_count (emit e es) ≡ file_count (emit e []) + file_count es)
      × (file_size (emit e es) ≡ file_size (emit e []) + file_size es)
unfolding emit file_count file_size
emit-counts none es = ground arith
emit-counts (some e) es = ground arith

-- After the loop the two totals are those before it, increased by the number of the yielded
-- entries that are files and by the sum of their sizes.
pub parse_lines-Counted :
    (p : WindowsDirParser) (ls : List (ℕ × Text)) (s : ParserState)
    → Counted s (parse_lines p ls s).0 (parse_lines p ls s).1
unfolding parse_lines file_count file_size
parse_lines-Counted p [] s = ground arith
parse_lines-Counted p (l ∷ ls) s =
    let r = step p l s in
    ground (
      arith,
      step-Yielded p l s,
      parse_lines-Counted p ls r.0,
      emit-counts r.1 (parse_lines p ls r.0).0,
    )
