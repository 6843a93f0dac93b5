-- ===== src/Decoding/Lines/Reading.antt =====
-- What a stream of lines of bytes means, told from all of its bytes.
use snapshot_fs.Prelude.{
  ℕ, ◌+◌, ◌-◌, ◌≤◌, ◌<◌, ◌≡◌, ◌≢◌, ◌⊎◌, refl, sym, ◌∙◌, ap, Bool, true, false, Option, none, some,
  List, [], ◌∷◌, ◌++◌, Text, Bytes, Result, ok, err, ◌>>=◌, codes, length, take, drop, arith, inl,
  inr, Bool-cases, if◌then◌else◌, ltb, text_eq, text_eq_refl, text_eq→eq, take-append-drop,
  length-append,
}
use snapshot_fs.Decoding.{
  Codec, UnicodeDecodeError, DecodedLine, DecodeError, ends_with, without_suffix, limit_error,
  check_limit, decode, strict_decode, decode_failure, is_utf8,
}
use snapshot_fs.Decoding.Lines.{carriage_return}
use snapshot_fs.Decoding.Lines.Finding.{Clean, drop-length}

-- The bytes of a line without the carriage return at its end, if there is one.
abbrev pub Stripped : Bytes → Bytes → Type 0
Stripped raw content =
    (raw ≡ content ++ 13 ∷ []) ⊎ ((raw ≡ content) × ((front : Bytes) → raw ≢ front ++ 13 ∷ []))

ends_with-append : (front : Bytes) → ends_with (front ++ 13 ∷ []) carriage_return ≡ true
unfolding ends_with
ends_with-append front =
    let at : length (front ++ 13 ∷ []) - 1 ≡ length front =
      omega (arith, length-append front (13 ∷ [])) in
    ap (λ n. text_eq (drop n (front ++ 13 ∷ [])) carriage_return) at
    ∙ ap (λ l. text_eq l carriage_return) (drop-length front (13 ∷ []))
    ∙ text_eq_refl carriage_return

pub without_suffix-Stripped : (raw : Bytes) → Stripped raw (without_suffix raw carriage_return)
unfolding without_suffix ends_with
without_suffix-Stripped raw = elim (Bool-cases (ends_with raw carriage_return)) [
  | inl marked ↦ rw marked (
      inl (
        sym (take-append-drop (length raw - 1) raw)
        ∙ ap (λ l. take (length raw - 1) raw ++ l) (text_eq→eq _ _ marked)))
  | inr bare ↦ rw bare (
      inr (
        refl,
        λ front same. cc (bare, ap (λ l. ends_with l carriage_return) same, ends_with-append front),
      ))
]

module _ (codec : Codec) (encoding canonical : Text) (limit : ℕ) where
  -- Only the first line of UTF-8 may begin with a byte order mark.
  abbrev pub decoder : Bool → Text
  decoder first =
      if is_utf8 canonical then (if first then codes "utf-8-sig" else codes "utf-8") else encoding

  -- The line `number`, which begins `start` bytes into the stream, has the bytes `content` and
  -- the text `text`, or else the error `e`.
  abbrev pub Told : ℕ → ℕ → Bool → Bytes → Result DecodeError Text → Type 0
  Told start number first content (ok text) =
      (length content ≤ limit) × (codec.decode (decoder first) content ≡ ok text)
  Told start number first content (err e) =
      (e.line_number ≡ number)
      × (e.encoding ≡ encoding)
      × (((limit < length content) × (e.byte_offset ≡ start + limit))
          ⊎ ((u : UnicodeDecodeError) × (codec.decode (decoder first) content ≡ err u)
              × (e.byte_offset ≡ start + u.start)))

  -- The lines that the bytes `stream` give, from the line `number` on, which
  -- begins `start` bytes into the stream, and the error that ends them. A line ends before a
  -- newline; what follows the last newline is a line if it is not empty.
  pub data Reads : ℕ → ℕ → Bool → Bytes → List DecodedLine → Option DecodeError → Type 0 where
    finished : {start number : ℕ} {first : Bool} → Reads start number first [] [] none
    line :
        {start number : ℕ} {first : Bool} {stream : Bytes} {text : Text} {lines : List DecodedLine}
        {end : Option DecodeError} (raw content rest : Bytes)
        → stream ≡ raw ++ 10 ∷ rest
        → Clean raw
        → Stripped raw content
        → Told start number first content (ok text)
        → Reads (start + (length raw + 1)) (number + 1) false rest lines end
        → Reads start number first stream (record { number = number; text = text } ∷ lines) end
    last :
        {start number : ℕ} {first : Bool} {stream : Bytes} {text : Text}
        → 0 < length stream
        → Clean stream
        → Told start number first stream (ok text)
        → Reads start number first stream (record { number = number; text = text } ∷ []) none
    bad_line :
        {start number : ℕ} {first : Bool} {stream : Bytes} {e : DecodeError}
        (raw content rest : Bytes)
        → stream ≡ raw ++ 10 ∷ rest
        → Clean raw
        → Stripped raw content
        → Told start number first content (err e)
        → Reads start number first stream [] (some e)
    bad_last :
        {start number : ℕ} {first : Bool} {stream : Bytes} {e : DecodeError}
        → Clean stream
        → Told start number first stream (err e)
        → Reads start number first stream [] (some e)
    too_long :
        {start number : ℕ} {first : Bool} {stream : Bytes} {e : DecodeError} (raw rest : Bytes)
        → stream ≡ raw ++ rest
        → Clean raw
        → limit < length raw
        → e.line_number ≡ number
        → e.encoding ≡ encoding
        → e.byte_offset ≡ start + limit
        → Reads start number first stream [] (some e)

  -- The text of a line, as both places of the code compute it.
  abbrev pub text_of : ℕ → ℕ → Bool → Bytes → Result DecodeError Text
  text_of start number first content = do
    _ ← check_limit content encoding start number limit
    decode codec content encoding canonical start number first

  strict_decode-Told :
      (start number : ℕ) (first : Bool) (content : Bytes) (r : Result UnicodeDecodeError Text)
      → codec.decode (decoder first) content ≡ r
      → length content ≤ limit
      → Told start number first content
          (elim r [ ok text ↦ ok text | err e ↦ err (decode_failure encoding start number e) ])
  unfolding decode_failure
  strict_decode-Told start number first content (ok text) same h = (h, same)
  strict_decode-Told start number first content (err u) same h = (refl, refl, inr (u, same, refl))

  pub text_of-Told :
      (start number : ℕ) (first : Bool) (content : Bytes)
      → Told start number first content (text_of start number first content)
  unfolding check_limit decode strict_decode limit_error
  text_of-Told start number first content = elim (Bool-cases (ltb limit (length content))) [
    | inl long ↦ rw long (refl, refl, inl (ground arith, refl))
    | inr short ↦ rw short (
        strict_decode-Told start number first content (codec.decode (decoder first) content) refl
          (ground arith))
  ]
