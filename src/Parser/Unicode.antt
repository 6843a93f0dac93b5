-- ===== src/Parser/Unicode.antt =====
-- The character classes of Python's `re` and `str` that the grammar uses, over Unicode 15.0.
use snapshot_fs.Prelude.{
  ℕ, ◌-◌, ◌+◌, ◌*◌, Bool, true, false, not, ◌&&◌, ◌||◌, Option, none, some, List, [], ◌∷◌, Text,
  if◌then◌else◌, leb, ltb, ◌==◌, length,
}

-- `\s` and `str.isspace`
unfoldable pub is_space : ℕ → Bool
is_space c =
    ((leb 9 c && leb c 13) || (leb 28 c && leb c 32))
    || ((c == 0x85 || c == 0xA0) || (c == 0x1680 || (leb 0x2000 c && leb c 0x200A)))
    || ((c == 0x2028 || c == 0x2029) || (c == 0x202F || (c == 0x205F || c == 0x3000)))

-- The zeros of the runs of ten decimal digits.
abbrev zeros : List ℕ
zeros =
    0x30 ∷ 0x660 ∷ 0x6F0 ∷ 0x7C0 ∷ 0x966 ∷ 0x9E6 ∷ 0xA66 ∷ 0xAE6 ∷ 0xB66 ∷ 0xBE6 ∷ 0xC66 ∷ 0xCE6
    ∷ 0xD66 ∷ 0xDE6 ∷ 0xE50 ∷ 0xED0 ∷ 0xF20 ∷ 0x1040 ∷ 0x1090 ∷ 0x17E0 ∷ 0x1810 ∷ 0x1946 ∷ 0x19D0
    ∷ 0x1A80 ∷ 0x1A90 ∷ 0x1B50 ∷ 0x1BB0 ∷ 0x1C40 ∷ 0x1C50 ∷ 0xA620 ∷ 0xA8D0 ∷ 0xA900 ∷ 0xA9D0
    ∷ 0xA9F0 ∷ 0xAA50 ∷ 0xABF0 ∷ 0xFF10 ∷ 0x104A0 ∷ 0x10D30 ∷ 0x11066 ∷ 0x110F0 ∷ 0x11136 ∷ 0x111D0
    ∷ 0x112F0 ∷ 0x11450 ∷ 0x114D0 ∷ 0x11650 ∷ 0x116C0 ∷ 0x11730 ∷ 0x118E0 ∷ 0x11950 ∷ 0x11C50
    ∷ 0x11D50 ∷ 0x11DA0 ∷ 0x11F50 ∷ 0x16A60 ∷ 0x16AC0 ∷ 0x16B50 ∷ 0x1D7CE ∷ 0x1D7D8 ∷ 0x1D7E2
    ∷ 0x1D7EC ∷ 0x1D7F6 ∷ 0x1E140 ∷ 0x1E2F0 ∷ 0x1E4F0 ∷ 0x1E950 ∷ 0x1FBF0 ∷ []

digit_from : List ℕ → ℕ → Option ℕ
digit_from [] c = none
digit_from (z ∷ zs) c =
    if ltb c z then none else if ltb c (z + 10) then some (c - z) else digit_from zs c

-- The value of a character of `\d`.
unfoldable pub digit : ℕ → Option ℕ
unfolding digit_from
digit c = digit_from zeros c

unfoldable pub is_digit : ℕ → Bool
unfolding digit
is_digit c = elim (digit c) [ none ↦ false | some d ↦ true ]

-- `.`: any character but a line feed
unfoldable pub any_character : ℕ → Bool
any_character c = not (c == 0x0A)

drop_space : Text → Text
unfolding is_space
drop_space [] = []
drop_space (c ∷ cs) = if is_space c then drop_space cs else c ∷ cs

-- `rstrip`
drop_end : Text → Text
unfolding is_space
drop_end [] = []
drop_end (c ∷ cs) = elim (drop_end cs) [
  | [] ↦ if is_space c then [] else c ∷ []
  | d ∷ ds ↦ c ∷ d ∷ ds
]

-- `text.strip()`
unfoldable pub strip : Text → Text
unfolding drop_space drop_end
strip t = drop_end (drop_space t)

digits_value : ℕ → Text → ℕ
unfolding digit
digits_value acc [] = acc
digits_value acc (c ∷ cs) = digits_value (acc * 10 + elim (digit c) [ none ↦ 0 | some d ↦ d ]) cs

-- `int(text)` of decimal digits; `none` is the ValueError past 4300 digits.
unfoldable pub to_int : Text → Option ℕ
unfolding digits_value
to_int t = if ltb 4300 (length t) then none else some (digits_value 0 t)
