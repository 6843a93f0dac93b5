-- ===== src/Parser/Windows/Patterns.antt =====
-- parser/windows_dir/grammar.py: the regular expressions, and what is read off their matches.
use snapshot_fs.Prelude.{
  ℕ, Bool, true, false, ◌&&◌, ◌||◌, Option, none, some, [], ◌∷◌, Text, codes, if◌then◌else◌, leb,
  ◌==◌, is_some,
}
use snapshot_fs.Parser.Unicode.{is_space, is_digit, any_character, to_int}
use snapshot_fs.Parser.Regex.{
  Regex, nothing, chars, literal, alt, star, group, back, seqs, Group, Groups, captured, full_match,
  matches_start,
}

-- `\s*`, `\s+`, `\d{least,most}` and `[\d,]+`
abbrev spaces : Regex
spaces = chars true 0 none is_space

abbrev some_space : Regex
some_space = chars true 1 none is_space

abbrev digits : ℕ → ℕ → Regex
digits least most = chars true least (some most) is_digit

abbrev digits_or_commas : Regex
digits_or_commas = chars true 1 none (λ c. is_digit c || c == 0x2C)

header_pattern : Regex
header_pattern = seqs (
    spaces
    ∷ literal (codes "Directory of")
    ∷ some_space
    ∷ group Group.first (chars false 1 none any_character)
    ∷ spaces
    ∷ [])

unfoldable pub entry_pattern : Regex
entry_pattern = seqs (
    spaces
    ∷ group Group.date (
        seqs (
          digits 1 4
          ∷ group Group.separator
              (chars true 1 (some 1) (λ c. c == 0x2F || (c == 0x2E || c == 0x2D)))
          ∷ digits 1 2
          ∷ back Group.separator
          ∷ digits 1 4
          ∷ []))
    ∷ some_space
    ∷ group Group.time (seqs (digits 1 2 ∷ literal (codes ":") ∷ digits 2 2 ∷ []))
    ∷ alt
        (seqs (
          some_space
          ∷ group Group.meridiem (
              seqs (chars true 1 (some 1) (λ c. c == 0x41 || c == 0x50) ∷ literal (codes "M") ∷ []))
          ∷ []))
        nothing
    ∷ some_space
    ∷ alt
        (seqs (group Group.directory (literal (codes "<DIR>")) ∷ literal (codes "          ") ∷ []))
        (seqs (group Group.size digits_or_commas ∷ literal (codes " ") ∷ []))
    ∷ group Group.name (chars true 1 none any_character)
    ∷ [])

file_summary_pattern : Regex
file_summary_pattern = seqs (
    spaces
    ∷ group Group.first digits_or_commas
    ∷ literal (codes " File(s)")
    ∷ some_space
    ∷ group Group.second digits_or_commas
    ∷ literal (codes " bytes")
    ∷ spaces
    ∷ [])

dir_summary_pattern : Regex
dir_summary_pattern = seqs (
    spaces
    ∷ group Group.first digits_or_commas
    ∷ literal (codes " Dir(s)")
    ∷ some_space
    ∷ group Group.second digits_or_commas
    ∷ literal (codes " bytes free")
    ∷ spaces
    ∷ [])

-- `[0-9A-Fa-f-]`
abbrev serial_character : ℕ → Bool
serial_character c =
    ((leb 0x30 c && leb c 0x39) || (leb 0x41 c && leb c 0x46))
    || ((leb 0x61 c && leb c 0x66) || c == 0x2D)

volume_pattern : Regex
volume_pattern = seqs (
    spaces
    ∷ alt (seqs (literal (codes "Volume in drive ") ∷ chars true 1 none any_character ∷ [])) (
        seqs (literal (codes "Volume Serial Number is ") ∷ chars true 1 none serial_character ∷ []))
    ∷ spaces
    ∷ [])

integer_pattern : Regex
integer_pattern =
    alt (seqs (digits 1 3 ∷ star (seqs (literal (codes ",") ∷ digits 3 3 ∷ [])) ∷ []))
      (chars true 1 none is_digit)

abbrev pub text_of : Option Text → Text
text_of none = []
text_of (some t) = t

unfoldable pub header_path : Text → Option Text
unfolding header_pattern full_match captured
header_path line = elim (full_match header_pattern line) [
  | none ↦ none
  | some g ↦ captured Group.first g
]

abbrev both_groups : Option Groups → Option (Text × Text)
both_groups none = none
both_groups (some g) = some (text_of (captured Group.first g), text_of (captured Group.second g))

unfoldable pub file_summary : Text → Option (Text × Text)
unfolding file_summary_pattern full_match captured
file_summary line = both_groups (full_match file_summary_pattern line)

unfoldable pub dir_summary : Text → Option (Text × Text)
unfolding dir_summary_pattern full_match captured
dir_summary line = both_groups (full_match dir_summary_pattern line)

unfoldable pub is_volume : Text → Bool
unfolding volume_pattern full_match
is_volume line = is_some (full_match volume_pattern line)

-- `re.match(r"^\s*\d", line)`
unfoldable pub resembles_entry : Text → Bool
unfolding matches_start
resembles_entry line = matches_start (seqs (spaces ∷ digits 1 1 ∷ [])) line

-- `text.replace(",", "")`
without_commas : Text → Text
without_commas [] = []
without_commas (c ∷ cs) = if c == 0x2C then without_commas cs else c ∷ without_commas cs

unfoldable pub parse_integer : Text → Option ℕ
unfolding integer_pattern full_match without_commas to_int
parse_integer text =
    if is_some (full_match integer_pattern text) then to_int (without_commas text) else none
