-- ===== src/Decoding/Lines.antt =====
-- decoding.py: `_iter_byte_lines`. The chunks are what the stream's reads give, and the generator
-- is the lines that it yields with the error that ends it, if one does.
pub mod Finding
pub mod Reading
pub mod Following
pub mod Whole
use snapshot_fs.Prelude.{
  ℕ, zero, suc, ◌+◌, ◌-◌, ◌≤◌, ◌≡◌, refl, sym, ◌∙◌, Bool, true, false, Option, none, some, List, [],
  ◌∷◌, ◌++◌, Text, Bytes, codes, Result, ok, err, ◌>>=◌, if◌then◌else◌, ltb, length, take, drop,
  arith,
}
use snapshot_fs.Decoding.{
  Codec, DecodedLine, DecodeError, find, find_at, ends_with, without_suffix, limit_error,
  check_limit, decode,
}

abbrev pub Yielded : Type 0
Yielded = List DecodedLine × Option DecodeError

-- The locals of the loop.
pub record Cursor : Type 0 where
  pub pending : Bytes
  pub line_start : ℕ
  pub line_number : ℕ
  pub first : Bool
  pub search_from : ℕ

unfoldable pub cursor : Cursor
cursor = record { pending = []; line_start = 0; line_number = 1; first = true; search_from = 0 }

abbrev pub newline : Bytes
newline = 10 ∷ []

abbrev pub carriage_return : Bytes
carriage_return = 13 ∷ []

module _ (codec : Codec) (encoding canonical : Text) (limit : ℕ) where
  -- The body of the inner loop, for a newline at `at`.
  unfoldable pub byte_line : ℕ → Cursor → Result DecodeError (DecodedLine × Cursor)
  unfolding without_suffix check_limit decode
  byte_line at s =
      let raw = take at s.pending in
      let content = without_suffix raw carriage_return in
      do
        _ ← check_limit content encoding s.line_start s.line_number limit
        text ← decode codec content encoding canonical s.line_start s.line_number s.first
        ok (
          record { number = s.line_number; text = text },
          record {
            pending = drop (at + 1) s.pending;
            line_start = s.line_start + (length raw + 1);
            line_number = s.line_number + 1;
            first = false;
            search_from = 0;
          },
        )

  -- The inner loop: each round takes at least one byte away.
  unfoldable pub byte_lines : ℕ → Cursor → List DecodedLine × Result DecodeError Cursor
  unfolding find byte_line
  byte_lines zero s = ([], ok s)
  byte_lines (suc fuel) s = elim (find s.pending newline s.search_from) [
    | none ↦ ([], ok s)
    | some at ↦ elim (byte_line at s) [
      | err e ↦ ([], err e)
      | ok (line, s') ↦ let (lines, end) = byte_lines fuel s' in (line ∷ lines, end)
    ]
  ]

  -- What follows the inner loop.
  unfoldable pub after_lines : Cursor → Result DecodeError Cursor
  unfolding ends_with limit_error
  after_lines s =
      let possible_cr = if ends_with s.pending carriage_return then 1 else 0 in
      if ltb limit (length s.pending - possible_cr)
      then err (limit_error encoding s.line_start s.line_number limit)
      else ok (record s { search_from = length s.pending })

  unfoldable pub byte_rest : Cursor → Yielded
  unfolding check_limit decode
  byte_rest s = elim s.pending [
    | [] ↦ ([], none)
    | b ∷ bs ↦
        elim (do
          _ ← check_limit (b ∷ bs) encoding s.line_start s.line_number limit
          decode codec (b ∷ bs) encoding canonical s.line_start s.line_number s.first) [
            | ok text ↦ (record { number = s.line_number; text = text } ∷ [], none)
            | err e ↦ ([], some e)
          ]
  ]

  unfoldable pub byte_chunk : Bytes → Cursor → List DecodedLine × Result DecodeError Cursor
  unfolding byte_lines after_lines
  byte_chunk chunk s =
      let s₁ = record s { pending = s.pending ++ chunk } in
      let (lines, end) = byte_lines (length s₁.pending) s₁ in (lines, (do s₂ ← end; after_lines s₂))

  -- An empty chunk is the end of the stream.
  unfoldable pub iter_byte_lines : List Bytes → Cursor → Yielded
  unfolding byte_chunk byte_rest
  iter_byte_lines [] s = byte_rest s
  iter_byte_lines ([] ∷ chunks) s = byte_rest s
  iter_byte_lines ((b ∷ bs) ∷ chunks) s =
      let (lines, end) = byte_chunk (b ∷ bs) s in
      elim end [
        | err e ↦ (lines, some e)
        | ok s' ↦ let (later, failure) = iter_byte_lines chunks s' in (lines ++ later, failure)
      ]
