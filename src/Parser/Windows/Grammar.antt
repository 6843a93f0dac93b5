-- ===== src/Parser/Windows/Grammar.antt =====
-- parser/windows_dir/grammar.py: dates, times and entries.
use snapshot_fs.Prelude.{
  ℕ, ◌+◌, ◌%◌, Bool, not, ◌&&◌, ◌||◌, Option, none, some, List, [], ◌∷◌, ℤ, pos, String, Text,
  codes, if◌then◌else◌, leb, ◌==◌, any, length, text_eq,
}
use snapshot_fs.Model.Enums.{NodeKind, Observation}
use snapshot_fs.Model.Message.{lit, repr, exception, says}
use snapshot_fs.Model.DateTime.{DateTime, days_in_month}
use snapshot_fs.Model.Metadata.{end}
use snapshot_fs.Model.Entry.{ParsedEntry}
use snapshot_fs.Diagnostics.{DiagnosticCollector, report}
use snapshot_fs.Parser.Unicode.{to_int}
use snapshot_fs.Parser.Regex.{Group, Groups, captured, full_match}
use snapshot_fs.Parser.Windows.Paths.{WindowsPath, child, to_mounted_path}
use snapshot_fs.Parser.Windows.Patterns.{entry_pattern, text_of, parse_integer}

pub data DateFormat : Type 0 where
  mdy dmy ymd : DateFormat

-- `re.split(r"[/.-]", date_text)`
split_date : Text → List Text
split_date [] = [] ∷ []
split_date (c ∷ cs) = elim (split_date cs) [
  | [] ↦ [] ∷ []
  | t ∷ ts ↦ if c == 0x2F || (c == 0x2E || c == 0x2D) then [] ∷ t ∷ ts else (c ∷ t) ∷ ts
]

-- The texts of year, month and day: a matched date has three parts.
in_order : DateFormat → List Text → Text × Text × Text
in_order DateFormat.mdy (m ∷ d ∷ y ∷ _) = (y, m, d)
in_order DateFormat.dmy (d ∷ m ∷ y ∷ _) = (y, m, d)
in_order DateFormat.ymd (y ∷ m ∷ d ∷ _) = (y, m, d)
in_order format _ = ([], [], [])

abbrev int_of : Text → ℕ
int_of t = elim (to_int t) [ none ↦ 0 | some n ↦ n ]

-- `time_text.split(":")`
before_colon : Text → Text
before_colon [] = []
before_colon (c ∷ cs) = if c == 0x3A then [] else c ∷ before_colon cs

after_colon : Text → Text
after_colon [] = []
after_colon (c ∷ cs) = if c == 0x3A then cs else after_colon cs

-- The hour of the day: of a 12-hour time with `meridiem`, or of a 24-hour time.
unfoldable pub hour_of : Option Text → ℕ → DiagnosticCollector → ℕ → Option ℕ × DiagnosticCollector
unfolding report
hour_of (some m) hour c line =
    if leb 1 hour && leb hour 12
    then (some (hour % 12 + (if text_eq m (codes "PM") then 12 else 0)), c)
    else (none, report "INVALID_TIME" (says "12-hour time must use 1-12") (some (pos line)) c)
hour_of none hour c line =
    if leb hour 23
    then (some hour, c)
    else (none, report "INVALID_TIME" (says "24-hour time must use 0-23") (some (pos line)) c)

abbrev format_name : DateFormat → String
format_name DateFormat.mdy = "mdy"
format_name DateFormat.dmy = "dmy"
format_name DateFormat.ymd = "ymd"

-- The ranges that `datetime(year, month, day, hour, minute)` checks; hours are in range here.
unfoldable pub valid_date : ℕ → ℕ → ℕ → ℕ → Bool
unfolding days_in_month
valid_date year month day minute =
    ((leb 1 year && leb year 9999) && (leb 1 month && leb month 12))
    && ((leb 1 day && leb day (days_in_month year month)) && leb minute 59)

unfoldable pub make_datetime :
    ℕ
    → ℕ
    → ℕ
    → Option ℕ
    → ℕ
    → DateFormat
    → ℕ
    → DiagnosticCollector
    → Option DateTime × DiagnosticCollector
unfolding valid_date report
make_datetime year month day none minute format line c = (none, c)
make_datetime year month day (some hour) minute format line c =
    if valid_date year month day minute
    then (
      some (record {
        year = year;
        month = month;
        day = day;
        hour = hour;
        minute = minute;
        second = 0;
        microsecond = 0;
        zone = none;
      }),
      c,
    )
    else (
      none,
      report "INVALID_DATETIME"
          (exception "datetime"
            ∷ lit "; check --date-format "
            ∷ lit (format_name format)
            ∷ lit " against the source date"
            ∷ [])
          (some (pos line)) c,
    )

unfoldable pub parse_datetime :
    Text
    → Text
    → Option Text
    → DateFormat
    → ℕ
    → DiagnosticCollector
    → Option DateTime × DiagnosticCollector
unfolding split_date in_order hour_of make_datetime before_colon after_colon to_int report
parse_datetime date_text time_text meridiem format line c =
    let (year, month, day) = in_order format (split_date date_text) in
    if not (length year == 4)
    then (
      none,
      report "TWO_DIGIT_YEAR" (says "entry dates require a four-digit year") (some (pos line)) c,
    )
    else (let (hour, c') = hour_of meridiem (int_of (before_colon time_text)) c line in
        make_datetime (int_of year) (int_of month) (int_of day) hour
          (int_of (after_colon time_text)) format line c')

-- `name in {".", ".."}`
abbrev is_dots : Text → Bool
is_dots name = text_eq name (codes ".") || text_eq name (codes "..")

-- NUL, a separator or a colon
abbrev bad_name : Text → Bool
bad_name name = any (λ x. (x == 0 || x == 0x2F) || (x == 0x5C || x == 0x3A)) name

abbrev entry_of :
    WindowsPath → Text → NodeKind → Observation → Option ℤ → DateTime → ℕ → ParsedEntry
entry_of section name kind observation size modified line = record {
  path = to_mounted_path (child section name);
  kind = kind;
  observation = observation;
  size = size;
  modified_local = some modified;
  source_line = some (pos line);
  content = none;
  source_metadata = end;
}

-- What follows the check of the name: a directory, or a file with its size.
unfoldable pub sized_entry :
    WindowsPath
    → Text
    → Option Text
    → Text
    → DateTime
    → ℕ
    → DiagnosticCollector
    → Option ParsedEntry × DiagnosticCollector
unfolding parse_integer to_mounted_path child report
sized_entry section name (some directory) size_text modified line c = (
  some (entry_of section name NodeKind.directory Observation.directory_entry none modified line),
  c,
)
sized_entry section name none size_text modified line c = elim (parse_integer size_text) [
  | none ↦ (
    none,
    report "INVALID_SIZE" (lit "invalid file size " ∷ repr size_text ∷ []) (some (pos line)) c,
  )
  | some size ↦ (
    some (
        entry_of section name NodeKind.file Observation.file_entry (some (pos size)) modified line),
    c,
  )
]

unfoldable pub dated_entry :
    WindowsPath
    → Groups
    → Option DateTime
    → ℕ
    → DiagnosticCollector
    → Option ParsedEntry × DiagnosticCollector
unfolding sized_entry captured report
dated_entry section g none line c = (none, c)
dated_entry section g (some modified) line c =
    let name = text_of (captured Group.name g) in
    if is_dots name
    then (none, c)
    else if bad_name name
    then (
      none,
      report "INVALID_ENTRY_NAME"
          (says "entry name contains NUL, a path separator, or an unsupported colon")
          (some (pos line)) c,
    )
    else sized_entry section name (captured Group.directory g) (text_of (captured Group.size g))
        modified line c

-- `none` where the line is no entry at all; otherwise the entry, if it is a good one.
unfoldable pub parse_entry :
    WindowsPath
    → Text
    → ℕ
    → DateFormat
    → DiagnosticCollector
    → Option (Option ParsedEntry × DiagnosticCollector)
unfolding entry_pattern full_match captured parse_datetime dated_entry
parse_entry section line number format c = elim (full_match entry_pattern line) [
  | none ↦ none
  | some g ↦
      let (modified, c') =
        parse_datetime (text_of (captured Group.date g)) (text_of (captured Group.time g))
          (captured Group.meridiem g) format number c in
      some (dated_entry section g modified number c')
]
