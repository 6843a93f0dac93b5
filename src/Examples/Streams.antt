-- ===== src/Examples/Streams.antt =====
-- The decoder's theorem at a small text.
use snapshot_fs.Prelude.{◌≡◌, refl, none, List, [], ◌∷◌, codes, ok, some, text_eq, Bytes}
use snapshot_fs.Decoding.{Codec, DecodedLine}
use snapshot_fs.Decoding.Lines.{cursor, iter_byte_lines}

-- Latin-1: each byte is its code point.
abbrev latin : Codec
latin = record { lookup = λ name. some (codes "iso8859-1"); decode = λ name content. ok content }

-- The first line ends in two chunks.
abbrev some_chunks : List Bytes
some_chunks = (97 ∷ 13 ∷ []) ∷ (10 ∷ 98 ∷ []) ∷ (10 ∷ 99 ∷ []) ∷ []

abbrev three_lines : List DecodedLine
three_lines =
    record { number = 1; text = codes "a" }
    ∷ record { number = 2; text = codes "b" }
    ∷ record { number = 3; text = codes "c" }
    ∷ []

some_chunks_yield :
    iter_byte_lines latin (codes "latin-1") (codes "iso8859-1") 80 some_chunks cursor
    ≡ (three_lines, none)
unfolding iter_byte_lines cursor text_eq
some_chunks_yield = refl
