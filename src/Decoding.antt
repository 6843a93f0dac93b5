-- ===== src/Decoding.antt =====
-- decoding.py: the errors, the limit, and the calls of the decoder. `codecs.lookup` and
-- `bytes.decode` are outside: a `Codec` is what they answer.
pub mod Lines
pub mod Utf16
pub mod Streams
use snapshot_fs.Prelude.{
  ℕ, suc, ◌+◌, ◌-◌, Bool, true, false, ◌||◌, Option, none, some, List, [], ◌∷◌, ◌++◌, pos, Text,
  Bytes, codes, Result, ok, err, ◌>>=◌, if◌then◌else◌, ltb, ◌==◌, ◌&&◌, length, take, drop, text_eq,
}
use snapshot_fs.Model.Message.{Message, lit, int, str, says}

abbrev pub max_line_bytes : ℕ
max_line_bytes = 1048576

pub record DecodedLine : Type 0 where
  pub number : ℕ
  pub text : Text

pub record DecodeError : Type 0 where
  pub message : Message
  pub encoding : Text
  pub byte_offset : ℕ
  pub line_number : ℕ

-- What `str` gives of the exception.
unfoldable pub error_text : DecodeError → Message
error_text e =
    e.message
    ++ lit " at byte offset "
      ∷ int (pos e.byte_offset)
      ∷ lit " using "
      ∷ str e.encoding
      ∷ lit " (line "
      ∷ int (pos e.line_number)
      ∷ lit ")"
      ∷ []

pub record UnicodeDecodeError : Type 0 where
  pub start : ℕ
  pub reason : Text

pub record Codec : Type 0 where
  pub lookup : Text → Option Text
  pub decode : Text → Bytes → Result UnicodeDecodeError Text

-- `data.startswith(needle)`
unfoldable pub starts_with : Bytes → Bytes → Bool
starts_with [] haystack = true
starts_with (n ∷ ns) [] = false
starts_with (n ∷ ns) (d ∷ ds) = n == d && starts_with ns ds

unfoldable pub find_at : Bytes → Bytes → ℕ → Option ℕ
unfolding starts_with
find_at needle [] index = none
find_at needle (d ∷ ds) index =
    let rest = find_at needle ds (index + 1) in
    if starts_with needle (d ∷ ds) then some index else rest

-- `data.find(needle, start)` for a needle that is not empty
unfoldable pub find : Bytes → Bytes → ℕ → Option ℕ
unfolding find_at
find haystack needle start = find_at needle (drop start haystack) start

-- `data.endswith(suffix)`
unfoldable pub ends_with : Bytes → Bytes → Bool
ends_with haystack suffix = text_eq (drop (length haystack - length suffix) haystack) suffix

-- `data[:-len(suffix)] if data.endswith(suffix) else data`
unfoldable pub without_suffix : Bytes → Bytes → Bytes
unfolding ends_with
without_suffix haystack suffix =
    if ends_with haystack suffix then take (length haystack - length suffix) haystack else haystack

unfoldable pub limit_error : Text → ℕ → ℕ → ℕ → DecodeError
limit_error encoding line_start line_number limit = record {
  message = lit "physical line exceeds " ∷ int (pos limit) ∷ lit " bytes" ∷ [];
  encoding = encoding;
  byte_offset = line_start + limit;
  line_number = line_number;
}

unfoldable pub check_limit : Bytes → Text → ℕ → ℕ → ℕ → Result DecodeError (Unit {0})
unfolding limit_error
check_limit content encoding line_start line_number limit =
    if ltb limit (length content)
    then err (limit_error encoding line_start line_number limit)
    else ok tt

-- `"unexpected end" in exc.reason or "truncated" in exc.reason`
unfoldable pub incomplete : Text → Bool
unfolding find
incomplete reason = elim (find reason (codes "unexpected end") 0) [
  | some at ↦ true
  | none ↦ elim (find reason (codes "truncated") 0) [ some at ↦ true | none ↦ false ]
]

unfoldable pub decode_failure : Text → ℕ → ℕ → UnicodeDecodeError → DecodeError
unfolding incomplete
decode_failure encoding line_start line_number e = record {
  message =
      says (if incomplete e.reason then "incomplete byte sequence" else "invalid byte sequence");
  encoding = encoding;
  byte_offset = line_start + e.start;
  line_number = line_number;
}

unfoldable pub strict_decode : Codec → Bytes → Text → Text → ℕ → ℕ → Result DecodeError Text
unfolding decode_failure
strict_decode codec content decoder_encoding requested line_start line_number =
    elim (codec.decode decoder_encoding content) [
      | ok text ↦ ok text
      | err e ↦ err (decode_failure requested line_start line_number e)
    ]

-- `canonical in {"utf-8", "utf-8-sig"}`
unfoldable pub is_utf8 : Text → Bool
is_utf8 canonical = text_eq canonical (codes "utf-8") || text_eq canonical (codes "utf-8-sig")

unfoldable pub decode : Codec → Bytes → Text → Text → ℕ → ℕ → Bool → Result DecodeError Text
unfolding strict_decode is_utf8
decode codec content encoding canonical line_start line_number first =
    let decoder_encoding =
      if is_utf8 canonical
      then (if first then codes "utf-8-sig" else codes "utf-8")
      else encoding in
    strict_decode codec content decoder_encoding encoding line_start line_number
