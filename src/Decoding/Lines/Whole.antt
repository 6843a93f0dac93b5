-- ===== src/Decoding/Lines/Whole.antt =====
-- `_iter_byte_lines` over all chunks.
use snapshot_fs.Prelude.{
  ℕ, ◌≡◌, Option, none, some, List, [], ◌∷◌, ◌++◌, Text, Bytes, Result, ok, err, length,
}
use snapshot_fs.Decoding.{Codec, DecodedLine, DecodeError}
use snapshot_fs.Decoding.Lines.{Cursor, Yielded, after_lines, iter_byte_lines}
use snapshot_fs.Decoding.Lines.Finding.{Clean}
use snapshot_fs.Decoding.Lines.Following.{Ran, From}

-- All bytes up to the empty read that ends the stream.
abbrev pub received : List Bytes → Bytes
received [] = []
received ([] ∷ chunks) = []
received ((b ∷ bs) ∷ chunks) = (b ∷ bs) ++ received chunks

-- Between two chunks nothing that is pending has to be searched again.
record IsSearched (s : Cursor) : Type 0 where
  clean : Clean s.pending
  searched : s.search_from ≡ length s.pending

module _ (codec : Codec) (encoding canonical : Text) (limit : ℕ) where
  abbrev Here : Cursor → Bytes → List DecodedLine → Option DecodeError → Type 0
  Here s stream lines end = From codec encoding canonical limit s stream lines end

  -- What is yielded of the last bytes, with their text.
  abbrev at_end : Cursor → Result DecodeError Text → Yielded
  at_end s (ok text) = (record { number = s.line_number; text = text } ∷ [], none)
  at_end s (err e) = ([], some e)

  abbrev HereWith : Cursor → Bytes → Yielded → Type 0
  HereWith s stream y = Here s stream y.0 y.1

  -- What a run from `s` has read when the check that follows the loop is done, too.
  abbrev Passes : Cursor → Bytes → Ran → Type 0
  Passes s future (lines, err e) = Here s (s.pending ++ future) lines (some e)
  Passes s future (lines, ok t) =
      IsSearched t
      × ((later : List DecodedLine) (end : Option DecodeError)
          → Here t (t.pending ++ future) later end
          → Here s (s.pending ++ future) (lines ++ later) end)

  abbrev checked : Ran → Ran
  checked (lines, err e) = (lines, err e)
  checked (lines, ok t) = (lines, after_lines codec encoding canonical limit t)

  -- The cursor when a chunk has come.
  abbrev extended : Bytes → Cursor → Cursor
  extended chunk s = record s { pending = s.pending ++ chunk }

  abbrev all_from : List Bytes → Cursor → Yielded
  all_from chunks s = iter_byte_lines codec encoding canonical limit chunks s

  abbrev chained : List Bytes → Ran → Yielded
  chained chunks (lines, err e) = (lines, some e)
  chained chunks (lines, ok s) = (lines ++ (all_from chunks s).0, (all_from chunks s).1)
