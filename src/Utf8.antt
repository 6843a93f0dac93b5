-- ===== src/Utf8.antt =====
-- Python's strict UTF-8 codec. A `str` may hold surrogates, which cannot be encoded.
use snapshot_fs.Prelude.{
  ℕ, ◌+◌, ◌/◌, ◌%◌, Bool, ◌&&◌, Option, none, some, [], ◌∷◌, ◌++◌, if◌then◌else◌, ltb, leb, Text,
  Bytes, is_some,
}

unfoldable pub is_surrogate : ℕ → Bool
is_surrogate c = leb 0xD800 c && leb c 0xDFFF

unfoldable pub encode_char : ℕ → Option Bytes
unfolding is_surrogate
encode_char c =
    if ltb c 0x80
    then some (c ∷ [])
    else if ltb c 0x800
    then some ((0xC0 + c / 0x40) ∷ (0x80 + c % 0x40) ∷ [])
    else if is_surrogate c
    then none
    else if ltb c 0x10000
    then some ((0xE0 + c / 0x1000) ∷ (0x80 + c / 0x40 % 0x40) ∷ (0x80 + c % 0x40) ∷ [])
    else if ltb c 0x110000
    then some (
        (0xF0 + c / 0x40000)
        ∷ (0x80 + c / 0x1000 % 0x40)
        ∷ (0x80 + c / 0x40 % 0x40)
        ∷ (0x80 + c % 0x40)
        ∷ [])
    else none

abbrev pub prepend : Option Bytes → Option Bytes → Option Bytes
prepend none rest = none
prepend (some bs) none = none
prepend (some bs) (some cs) = some (bs ++ cs)

-- text.encode("utf-8"); `none` is UnicodeEncodeError
unfoldable pub encode : Text → Option Bytes
unfolding encode_char
encode [] = some []
encode (c ∷ cs) = prepend (encode_char c) (encode cs)

unfoldable pub encodable : Text → Bool
unfolding encode
encodable t = is_some (encode t)
