-- ===== src/Decoding/Utf16.antt =====
-- decoding.py: `_iter_utf16_lines`, with the chunks and the lines as for bytes.
use snapshot_fs.Prelude.{
  ℕ, zero, suc, ◌+◌, ◌-◌, ◌%◌, ◌&&◌, Option, none, some, List, [], ◌∷◌, ◌++◌, Text, Bytes, codes,
  Result, ok, err, ◌>>=◌, if◌then◌else◌, ltb, ◌==◌, length, take, drop, text_eq,
}
use snapshot_fs.Model.Message.{says}
use snapshot_fs.Decoding.{
  Codec, DecodedLine, DecodeError, starts_with, find, ends_with, without_suffix, limit_error,
  check_limit, strict_decode,
}
use snapshot_fs.Decoding.Lines.{Yielded}

pub data ByteOrder : Type 0 where
  little big : ByteOrder

pub record Utf16Cursor : Type 0 where
  pub pending : Bytes
  pub line_start : ℕ
  pub line_number : ℕ
  pub byte_order : Option ByteOrder
  pub search_from : ℕ

-- `{"utf-16-le": "little", "utf-16-be": "big"}.get(canonical)`
unfoldable pub given_order : Text → Option ByteOrder
given_order canonical =
    if text_eq canonical (codes "utf-16-le")
    then some ByteOrder.little
    else if text_eq canonical (codes "utf-16-be")
    then some ByteOrder.big
    else none

unfoldable pub utf16_cursor : Text → Utf16Cursor
unfolding given_order
utf16_cursor canonical = record {
  pending = [];
  line_start = 0;
  line_number = 1;
  byte_order = given_order canonical;
  search_from = 0;
}

unfoldable pub utf16_byte_order : Bytes → Text → Text → ℕ → Result DecodeError ByteOrder
unfolding starts_with
utf16_byte_order pending encoding canonical line_number =
    if text_eq canonical (codes "utf-16-le")
    then ok ByteOrder.little
    else if text_eq canonical (codes "utf-16-be")
    then ok ByteOrder.big
    else if starts_with (0xFF ∷ 0xFE ∷ []) pending
    then ok ByteOrder.little
    else if starts_with (0xFE ∷ 0xFF ∷ []) pending
    then ok ByteOrder.big
    else err (record {
      message = says "UTF-16 input requires a byte-order mark";
      encoding = encoding;
      byte_offset = 0;
      line_number = line_number;
    })

-- The two bytes of an ASCII character.
unfoldable pub unit_of : ByteOrder → ℕ → Bytes
unit_of ByteOrder.little c = c ∷ 0 ∷ []
unit_of ByteOrder.big c = 0 ∷ c ∷ []

-- The loop of `_find_aligned`, whose searches only move on: the data's length is enough.
unfoldable pub aligned_from : ℕ → Bytes → Bytes → Option ℕ → Option ℕ
unfolding find
aligned_from fuel haystack needle none = none
aligned_from zero haystack needle (some index) = if index % 2 == 0 then some index else none
aligned_from (suc fuel) haystack needle (some index) =
    let later = aligned_from fuel haystack needle (find haystack needle (index + 1)) in
    if index % 2 == 0 then some index else later

unfoldable pub find_aligned : Bytes → Bytes → ℕ → Option ℕ
unfolding aligned_from find
find_aligned haystack needle start =
    aligned_from (length haystack) haystack needle (find haystack needle start)

abbrev pub order_name : ByteOrder → Text
order_name ByteOrder.little = codes "utf-16-le"
order_name ByteOrder.big = codes "utf-16-be"

unfoldable pub decode_utf16 :
    Codec → Bytes → Text → Text → ByteOrder → ℕ → ℕ → Result DecodeError Text
unfolding strict_decode
decode_utf16 codec content encoding canonical order line_start line_number =
    let decoder_encoding =
      if text_eq canonical (codes "utf-16") && ltb 0 line_start
      then order_name order
      else encoding in
    strict_decode codec content decoder_encoding encoding line_start line_number

module _ (codec : Codec) (encoding canonical : Text) (limit : ℕ) where
  unfoldable pub utf16_line :
      ByteOrder → ℕ → Utf16Cursor → Result DecodeError (DecodedLine × Utf16Cursor)
  unfolding without_suffix check_limit decode_utf16 unit_of
  utf16_line order at s =
      let raw = take at s.pending in
      let content = without_suffix raw (unit_of order 13) in
      do
        _ ← check_limit content encoding s.line_start s.line_number limit
        text ← decode_utf16 codec content encoding canonical order s.line_start s.line_number
        ok (
          record { number = s.line_number; text = text },
          record s {
            pending = drop (at + 2) s.pending;
            line_start = s.line_start + (length raw + 2);
            line_number = s.line_number + 1;
            search_from = 0;
          },
        )

  unfoldable pub utf16_lines :
      ByteOrder → ℕ → Utf16Cursor → List DecodedLine × Result DecodeError Utf16Cursor
  unfolding find_aligned utf16_line unit_of
  utf16_lines order zero s = ([], ok s)
  utf16_lines order (suc fuel) s = elim (find_aligned s.pending (unit_of order 10) s.search_from) [
    | none ↦ ([], ok s)
    | some at ↦ elim (utf16_line order at s) [
      | err e ↦ ([], err e)
      | ok (line, s') ↦ let (lines, end) = utf16_lines order fuel s' in (line ∷ lines, end)
    ]
  ]

  unfoldable pub after_utf16 : ByteOrder → Utf16Cursor → Result DecodeError Utf16Cursor
  unfolding ends_with limit_error unit_of
  after_utf16 order s =
      let complete_length = length s.pending - length s.pending % 2 in
      let possible_cr =
        if ends_with (take complete_length s.pending) (unit_of order 13) then 2 else 0 in
      if ltb limit (complete_length - possible_cr)
      then err (limit_error encoding s.line_start s.line_number limit)
      else ok (record s { search_from = complete_length })

  -- The byte order once there are two bytes: given, or read off the mark.
  unfoldable pub ordered : Utf16Cursor → Result DecodeError Utf16Cursor
  unfolding utf16_byte_order
  ordered s = elim s.byte_order [
    | some order ↦ ok s
    | none ↦ if ltb (length s.pending) 2 then ok s else (do
      order ← utf16_byte_order s.pending encoding canonical s.line_number
      ok (record s { byte_order = some order }))
  ]

  abbrev chunk_lines :
      Option ByteOrder → Utf16Cursor → List DecodedLine × Result DecodeError Utf16Cursor
  chunk_lines none s = ([], ok s)
  chunk_lines (some order) s =
      let (lines, end) = utf16_lines order (length s.pending) s in
      (lines, (do s' ← end; after_utf16 order s'))

  unfoldable pub utf16_chunk :
      Bytes → Utf16Cursor → List DecodedLine × Result DecodeError Utf16Cursor
  unfolding ordered utf16_lines after_utf16
  utf16_chunk chunk s = elim (ordered (record s { pending = s.pending ++ chunk })) [
    | err e ↦ ([], err e)
    | ok s' ↦ chunk_lines s'.byte_order s'
  ]

  abbrev order_or_little : Option ByteOrder → ByteOrder
  order_or_little none = ByteOrder.little
  order_or_little (some order) = order

  unfoldable pub utf16_rest : Utf16Cursor → Yielded
  unfolding check_limit decode_utf16
  utf16_rest s = elim s.pending [
    | [] ↦ ([], none)
    | b ∷ bs ↦
        elim (do
          _ ← check_limit (b ∷ bs) encoding s.line_start s.line_number limit
          decode_utf16 codec (b ∷ bs) encoding canonical (order_or_little s.byte_order) s.line_start
              s.line_number) [
                | ok text ↦ (record { number = s.line_number; text = text } ∷ [], none)
                | err e ↦ ([], some e)
              ]
  ]

  unfoldable pub iter_utf16_lines : List Bytes → Utf16Cursor → Yielded
  unfolding utf16_chunk utf16_rest
  iter_utf16_lines [] s = utf16_rest s
  iter_utf16_lines ([] ∷ chunks) s = utf16_rest s
  iter_utf16_lines ((b ∷ bs) ∷ chunks) s =
      let (lines, end) = utf16_chunk (b ∷ bs) s in
      elim end [
        | err e ↦ (lines, some e)
        | ok s' ↦ let (later, failure) = iter_utf16_lines chunks s' in (lines ++ later, failure)
      ]
