-- ===== src/Diagnostics.antt =====
-- diagnostics.py: a diagnostic, and the collector that counts all and keeps the first `limit`.
pub mod Log
use snapshot_fs.Prelude.{
  ℕ, ◌+◌, Bool, true, false, Option, none, some, List, [], ◌∷◌, ◌++◌, ℤ, pos, int_eq, String, Text,
  Result, ok, err, ◌>>=◌, if◌then◌else◌, ltb, length, take,
}
use snapshot_fs.Model.Enums.{Severity}
use snapshot_fs.Model.Message.{Message, lit, ascii, says, message_encodable, Error, value_error}
use snapshot_fs.Model.Entry.{bad_line}

abbrev pub max_diagnostics : ℕ
max_diagnostics = 1000

pub record ImportDiagnostic : Type 0 where
  pub severity : Severity
  pub code : String
  pub message : Message
  pub line_number : Option ℤ

-- The constructor, with the checks of `__post_init__`. A `String` is always valid Unicode.
unfoldable pub import_diagnostic : ImportDiagnostic → Result Error ImportDiagnostic
unfolding bad_line
import_diagnostic d =
    if bad_line d.line_number
    then err (value_error (says "diagnostic line number must be a positive integer or None"))
    else if message_encodable d.message
    then ok d
    else err (value_error (says "message is not valid Unicode"))

pub record DiagnosticCollector : Type 0 where
  pub limit : ℕ
  pub items : List ImportDiagnostic
  pub total : ℕ
  pub has_errors : Bool
  pub source_line : Option (ℕ × Text)

unfoldable pub collector : ℕ → DiagnosticCollector
collector limit = record {
  limit = limit;
  items = [];
  total = 0;
  has_errors = false;
  source_line = none;
}

-- `text[:240] + ("…" if len(text) > 240 else "")`
unfoldable pub excerpt : Text → Text
excerpt text = take 240 text ++ (if ltb 240 (length text) then 0x2026 ∷ [] else [])

unfoldable pub observe_line : ℕ → Text → DiagnosticCollector → DiagnosticCollector
observe_line number text c = record c { source_line = some (number, excerpt text) }

-- `line_number == number`
abbrev pub at_line : Option ℤ → ℕ → Bool
at_line none number = false
at_line (some n) number = int_eq n (pos number)

unfoldable pub with_input : Option (ℕ × Text) → ImportDiagnostic → ImportDiagnostic
with_input none d = d
with_input (some (number, text)) d =
    if at_line d.line_number number
    then record d { message = d.message ++ lit "; input: " ∷ ascii text ∷ [] }
    else d

abbrev pub is_error : Severity → Bool
is_error Severity.warning = false
is_error Severity.error = true

unfoldable pub add : ImportDiagnostic → DiagnosticCollector → DiagnosticCollector
unfolding with_input
add d c =
    let d' = with_input c.source_line d in
    record c {
      items = if ltb (length c.items) c.limit then c.items ++ d' ∷ [] else c.items;
      total = c.total + 1;
      has_errors = if is_error d'.severity then true else c.has_errors;
    }

abbrev pub error_at : String → Message → Option ℤ → ImportDiagnostic
error_at code message line = record {
  severity = Severity.error;
  code = code;
  message = message;
  line_number = line;
}

-- `error` with its constructor call, which may raise.
unfoldable pub error :
    String → Message → Option ℤ → DiagnosticCollector → Result Error DiagnosticCollector
error code message line c = do d ← import_diagnostic (error_at code message line); ok (add d c)

unfoldable pub warning :
    String → Message → Option ℤ → DiagnosticCollector → Result Error DiagnosticCollector
warning code message line c = do
  d ←
      import_diagnostic
        (record { severity = Severity.warning; code = code; message = message; line_number = line })
  ok (add d c)

-- `error` where the constructor accepts, as it does of a positive line and an escaped message.
unfoldable pub report : String → Message → Option ℤ → DiagnosticCollector → DiagnosticCollector
unfolding add
report code message line c = add (error_at code message line) c
