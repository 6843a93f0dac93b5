-- ===== src/Parser/Windows/Paths.antt =====
-- parser/windows_dir/paths.py and `valid_section_path` of grammar.py, with what they use of
-- `PureWindowsPath`.
use snapshot_fs.Prelude.{
  ℕ, ◌-◌, Bool, true, false, not, ◌&&◌, ◌||◌, List, [], ◌∷◌, ◌++◌, Text, codes, if◌then◌else◌, leb,
  ◌==◌, all, any, drop, take, text_eq,
}
use snapshot_fs.Parser.Unicode.{any_character}

-- `drive` and `parts[1:]`
pub record WindowsPath : Type 0 where
  pub drive : Text
  pub parts : List Text

-- `text.split(sep)` for a separator of one character: never empty
unfoldable pub split : ℕ → Text → List Text
split sep [] = [] ∷ []
split sep (c ∷ cs) = elim (split sep cs) [
  | [] ↦ [] ∷ []
  | t ∷ ts ↦ if c == sep then [] ∷ t ∷ ts else (c ∷ t) ∷ ts
]

abbrev keep_part : Text → Bool
keep_part t = not (text_eq t [] || text_eq t (codes "."))

keep_parts : List Text → List Text
keep_parts [] = []
keep_parts (t ∷ ts) = if keep_part t then t ∷ keep_parts ts else keep_parts ts

-- `PureWindowsPath(raw)` of a path that begins with a letter, a colon and a backslash. Of any
-- other path only its presence is ever read.
unfoldable pub windows_path : Text → WindowsPath
unfolding split keep_parts
windows_path raw = record { drive = take 2 raw; parts = keep_parts (split 0x5C (drop 3 raw)) }

-- `section / name` for a name without separators and colons
unfoldable pub child : WindowsPath → Text → WindowsPath
child p name = record p { parts = p.parts ++ name ∷ [] }

unfoldable pub is_letter : ℕ → Bool
is_letter c = (leb 0x41 c && leb c 0x5A) || (leb 0x61 c && leb c 0x7A)

-- `upper` of an ASCII letter
unfoldable pub upper : ℕ → ℕ
upper c = if leb 0x61 c && leb c 0x7A then c - 0x20 else c

-- `path.drive[0].upper()`; the drive of a mounted path is never empty
unfoldable pub drive_name : Text → Text
unfolding upper
drive_name [] = []
drive_name (c ∷ cs) = upper c ∷ []

unfoldable pub to_mounted_path : WindowsPath → List Text
unfolding drive_name
to_mounted_path p = drive_name p.drive ∷ p.parts

-- `[A-Za-z]:\\.*`
has_drive : Text → Bool
unfolding is_letter any_character
has_drive (a ∷ b ∷ c ∷ rest) = is_letter a && (b == 0x3A && (c == 0x5C && all any_character rest))
has_drive _ = false

valid_component : Text → Bool
valid_component c =
    not (text_eq c [] || (text_eq c (codes ".") || text_eq c (codes "..")))
    && not (any (λ x. x == 0x3A) c)

-- `not remainder`, or every component is valid
valid_remainder : Text → Bool
unfolding split valid_component
valid_remainder [] = true
valid_remainder (c ∷ cs) = all valid_component (split 0x5C (c ∷ cs))

unfoldable pub valid_section_path : Text → Bool
unfolding has_drive valid_remainder
valid_section_path raw = has_drive raw && valid_remainder (drop 3 raw)
