-- ===== src/Decoding/Streams.antt =====
-- decoding.py: `iter_decoded_lines`, and the tables of encodings.
use snapshot_fs.Prelude.{
  ℕ, ◌||◌, none, some, List, [], ◌∷◌, Text, Bytes, codes, if◌then◌else◌, any, text_eq,
}
use snapshot_fs.Model.Message.{Message, says}
use snapshot_fs.Decoding.{Codec, is_utf8}
use snapshot_fs.Decoding.Lines.{Yielded, cursor, iter_byte_lines}
use snapshot_fs.Decoding.Utf16.{utf16_cursor, iter_utf16_lines}

abbrev single_byte_encodings : List Text
single_byte_encodings =
    codes "ascii"
    ∷ codes "iso8859-1"
    ∷ codes "cp1250"
    ∷ codes "cp1251"
    ∷ codes "cp1252"
    ∷ codes "cp1253"
    ∷ codes "cp1254"
    ∷ codes "cp1255"
    ∷ codes "cp1256"
    ∷ codes "cp1257"
    ∷ codes "cp1258"
    ∷ []

abbrev utf16_encodings : List Text
utf16_encodings = codes "utf-16" ∷ codes "utf-16-le" ∷ codes "utf-16-be" ∷ []

abbrev refused : Message → Text → Yielded
refused message encoding =
    ([], some (record { message = message; encoding = encoding; byte_offset = 0; line_number = 1 }))

unfoldable pub iter_decoded_lines : Codec → List Bytes → Text → ℕ → Yielded
unfolding is_utf8 iter_byte_lines iter_utf16_lines cursor utf16_cursor
iter_decoded_lines codec chunks encoding limit = elim (codec.lookup encoding) [
  | none ↦ refused (says "unknown encoding") encoding
  | some canonical ↦
      if is_utf8 canonical || any (text_eq canonical) single_byte_encodings
      then iter_byte_lines codec encoding canonical limit chunks cursor
      else if any (text_eq canonical) utf16_encodings
      then iter_utf16_lines codec encoding canonical limit chunks (utf16_cursor canonical)
      else refused
          (says
            "unsupported potentially buffering encoding; use UTF-8, UTF-16, ASCII, Latin-1, or a Windows-125x code page")
          encoding
]
