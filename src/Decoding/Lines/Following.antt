-- ===== src/Decoding/Lines/Following.antt =====
-- The inner loop of `_iter_byte_lines` against what its bytes mean.
use snapshot_fs.Prelude.{
  ℕ, zero, suc, ◌+◌, ◌≤◌, ◌≡◌, refl, sym, ◌∙◌, ap, subst, false, Option, none, some, List, [], ◌∷◌,
  ◌++◌, Text, Bytes, Result, ok, err, length, take, drop, arith, inl, inr, Option-cases,
  length-append, Result-cases,
}
use snapshot_fs.Decoding.{
  Codec, DecodedLine, DecodeError, find, without_suffix, check_limit, decode,
}
use snapshot_fs.Decoding.Lines.{Cursor, newline, carriage_return, byte_line, byte_lines}
use snapshot_fs.Decoding.Lines.Finding.{Clean, Scanned, append_assoc, find-cuts, find-none}
use snapshot_fs.Decoding.Lines.Reading.{
  without_suffix-Stripped, Told, Reads, line, bad_line, text_of, text_of-Told,
}

abbrev pub Ran : Type 0
Ran = List DecodedLine × Result DecodeError Cursor

module _ (codec : Codec) (encoding canonical : Text) (limit : ℕ) where
  abbrev loop : ℕ → Cursor → Ran
  loop fuel s = byte_lines codec encoding canonical limit fuel s

  -- What is read from the cursor on.
  abbrev pub From : Cursor → Bytes → List DecodedLine → Option DecodeError → Type 0
  From s stream lines end =
      Reads codec encoding canonical limit s.line_start s.line_number s.first stream lines end

  abbrev pub TextTold : Cursor → Bytes → Result DecodeError Text → Type 0
  TextTold s content r =
      Told codec encoding canonical limit s.line_start s.line_number s.first content r

  abbrev pub line_text : Cursor → Bytes → Result DecodeError Text
  line_text s content =
      text_of codec encoding canonical limit s.line_start s.line_number s.first content

  -- The cursor after the line that ends at `at`.
  abbrev next : ℕ → Cursor → Cursor
  next at s = record {
    pending = drop (at + 1) s.pending;
    line_start = s.line_start + (length (take at s.pending) + 1);
    line_number = s.line_number + 1;
    first = false;
    search_from = 0;
  }

  abbrev lined : ℕ → Cursor → Result DecodeError Text → Result DecodeError (DecodedLine × Cursor)
  lined at s (ok text) = ok (record { number = s.line_number; text = text }, next at s)
  lined at s (err e) = err e

  abbrev content_of : ℕ → Cursor → Bytes
  content_of at s = without_suffix (take at s.pending) carriage_return

  byte_line-eq :
      (at : ℕ) (s : Cursor)
      → byte_line codec encoding canonical limit at s ≡ lined at s (line_text s (content_of at s))
  unfolding byte_line
  byte_line-eq at s =
      let content = content_of at s in
      elim (Result-cases (check_limit content encoding s.line_start s.line_number limit)) [
        | inr (e, long) ↦ rw long refl
        | inl (_, short) ↦
            elim (Result-cases
              (decode codec content encoding canonical s.line_start s.line_number s.first)) [
                | inr (e, bad) ↦ rw (short, bad) refl
                | inl (text, good) ↦ rw (short, good) refl
              ]
      ]

  -- What a run from `s` has read, whatever comes after the pending bytes.
  abbrev pub Goes : Cursor → Bytes → Ran → Type 0
  Goes s future (lines, err e) = From s (s.pending ++ future) lines (some e)
  Goes s future (lines, ok t) =
      Clean t.pending
      × ((later : List DecodedLine) (end : Option DecodeError)
          → From t (t.pending ++ future) later end
          → From s (s.pending ++ future) (lines ++ later) end)

  Goes-cons :
      (s t : Cursor) (future : Bytes) (l : DecodedLine) (r : Ran)
      → ((lines : List DecodedLine) (end : Option DecodeError)
          → From t (t.pending ++ future) lines end
          → From s (s.pending ++ future) (l ∷ lines) end)
      → Goes t future r
      → Goes s future (l ∷ r.0, r.1)
  Goes-cons s t future l (lines, err e) extend h = extend lines (some e) h
  Goes-cons s t future l (lines, ok u) extend (clean, h) =
      (clean, λ later end from. extend (lines ++ later) end (h later end from))

  -- The loop after one line.
  abbrev continues : ℕ → Result DecodeError (DecodedLine × Cursor) → Ran
  continues fuel (err e) = ([], err e)
  continues fuel (ok (l, s)) = (l ∷ (loop fuel s).0, (loop fuel s).1)

  byte_lines-found :
      (fuel at : ℕ) (s : Cursor)
      → find s.pending newline s.search_from ≡ some at
      → loop (suc fuel) s ≡ continues fuel (byte_line codec encoding canonical limit at s)
  unfolding byte_lines
  byte_lines-found fuel at s found = ground arith

  byte_lines-none :
      (fuel : ℕ) (s : Cursor)
      → find s.pending newline s.search_from ≡ none
      → loop (suc fuel) s ≡ ([], ok s)
  unfolding byte_lines
  byte_lines-none fuel s nothing = ground arith

  byte_lines-zero : (s : Cursor) → loop zero s ≡ ([], ok s)
  unfolding byte_lines
  byte_lines-zero s = refl

  Clean-empty : (xs : Bytes) → length xs ≤ 0 → Clean xs
  Clean-empty [] h = tt
  Clean-empty (x ∷ xs) h = absurd (omega arith)

  line-Goes :
      (fuel at : ℕ) (s : Cursor) (future : Bytes) (r : Result DecodeError Text)
      → s.pending ≡ take at s.pending ++ 10 ∷ drop (at + 1) s.pending
      → Clean (take at s.pending)
      → TextTold s (content_of at s) r
      → Goes (next at s) future (loop fuel (next at s))
      → Goes s future (continues fuel (lined at s r))
  line-Goes fuel at s future r cut clean told ih =
      let raw = take at s.pending in
      let rest = drop (at + 1) s.pending in
      let was : s.pending ++ future ≡ raw ++ 10 ∷ (rest ++ future) =
        ap (λ l. l ++ future) cut ∙ append_assoc raw (10 ∷ rest) future in
      go r was told
    where
      go :
          (r : Result DecodeError Text)
          → s.pending ++ future ≡ take at s.pending ++ 10 ∷ (drop (at + 1) s.pending ++ future)
          → TextTold s (content_of at s) r
          → Goes s future (continues fuel (lined at s r))
      go (err e) was told =
          bad_line (take at s.pending) (content_of at s) (drop (at + 1) s.pending ++ future) was
            clean (without_suffix-Stripped (take at s.pending)) told
      go (ok text) was told =
          Goes-cons s (next at s) future (record { number = s.line_number; text = text })
            (loop fuel (next at s))
            (λ lines end from.
              line (take at s.pending) (content_of at s) (drop (at + 1) s.pending ++ future) was
                clean (without_suffix-Stripped (take at s.pending)) told from)
            ih

  stays : (s : Cursor) (future : Bytes) → Clean s.pending → Goes s future ([], ok s)
  stays s future clean = (clean, λ later end from. from)

  pub byte_lines-Goes :
      (fuel : ℕ) (s : Cursor) (future : Bytes)
      → length s.pending ≤ fuel
      → Scanned s.pending s.search_from
      → Goes s future (loop fuel s)
  byte_lines-Goes zero s future h scanned =
      subst (Goes s future) (sym (byte_lines-zero s)) (stays s future (Clean-empty s.pending h))
  byte_lines-Goes (suc fuel) s future h scanned =
      elim (Option-cases (find s.pending newline s.search_from)) [
        | inl nothing ↦
            subst (Goes s future) (sym (byte_lines-none fuel s nothing))
              (stays s future (find-none s.pending s.search_from scanned nothing))
        | inr (at, found) ↦
            let (cut, clean) = find-cuts s.pending s.search_from at scanned found in
            let shorter : length (drop (at + 1) s.pending) ≤ fuel = omega (
              arith,
              ap (λ (l : Bytes). length l) cut,
              length-append (take at s.pending) (10 ∷ drop (at + 1) s.pending),
              h,
            ) in
            subst (Goes s future)
              (sym (byte_lines-found fuel at s found ∙ ap (continues fuel) (byte_line-eq at s)))
              (line-Goes fuel at s future (line_text s (content_of at s)) cut clean
                (text_of-Told codec encoding canonical limit s.line_start s.line_number s.first
                  (content_of at s))
                (byte_lines-Goes fuel (next at s) future shorter (record {
                  before = [];
                  after = drop (at + 1) s.pending;
                  was = refl;
                  size = refl;
                  clean = tt;
                })))
      ]
