-- ===== src/Decoding/Lines/Finding.antt =====
-- Where `find` finds a newline.
use snapshot_fs.Prelude.{
  ℕ, suc, ◌+◌, ◌≡◌, ◌≢◌, ◌⊎◌, refl, sym, ◌∙◌, ap, subst, true, false, none, some, List, [], ◌∷◌,
  ◌++◌, Bytes, length, take, drop, arith, inl, inr, Bool-cases, ◌==◌,
}
use snapshot_fs.Decoding.{starts_with, find, find_at}
use snapshot_fs.Decoding.Lines.{newline}

-- No byte is a newline.
abbrev pub Clean : Bytes → Type 0
Clean [] = Unit {0}
Clean (b ∷ bs) = (b ≢ 10) × Clean bs

pub Clean-append : (xs ys : Bytes) → Clean xs → Clean ys → Clean (xs ++ ys)
Clean-append [] ys h k = k
Clean-append (x ∷ xs) ys (first, h) k = (first, Clean-append xs ys h k)

pub take-length : (xs ys : Bytes) → take (length xs) (xs ++ ys) ≡ xs
take-length [] ys = refl
take-length (x ∷ xs) ys = ap (λ l. x ∷ l) (take-length xs ys)

pub drop-length : (xs ys : Bytes) → drop (length xs) (xs ++ ys) ≡ ys
drop-length [] ys = refl
drop-length (x ∷ xs) ys = drop-length xs ys

pub append_assoc : (xs ys zs : Bytes) → (xs ++ ys) ++ zs ≡ xs ++ (ys ++ zs)
append_assoc [] ys zs = refl
append_assoc (x ∷ xs) ys zs = ap (λ l. x ∷ l) (append_assoc xs ys zs)

pub append_nil : {A : Type 0} (xs : List A) → xs ++ [] ≡ xs
append_nil [] = refl
append_nil (x ∷ xs) = ap (λ l. x ∷ l) (append_nil xs)

-- The first newline, `at` bytes on.
pub record Split (xs : Bytes) (at : ℕ) : Type 0 where
  pub raw : Bytes
  pub rest : Bytes
  pub was : xs ≡ raw ++ 10 ∷ rest
  pub size : length raw ≡ at
  pub clean : Clean raw

starts_with_cases :
    (x : ℕ) (xs : Bytes)
    → ((starts_with newline (x ∷ xs) ≡ true) × (x ≡ 10))
      ⊎ ((starts_with newline (x ∷ xs) ≡ false) × (x ≢ 10))
unfolding starts_with
starts_with_cases x xs = elim (Bool-cases (10 == x)) [
  | inl equal ↦ inl (ground arith, ground arith)
  | inr differ ↦ inr (ground arith, ground arith)
]

find_at-here :
    (x i : ℕ) (xs : Bytes)
    → starts_with newline (x ∷ xs) ≡ true
    → find_at newline (x ∷ xs) i ≡ some i
unfolding find_at
find_at-here x i xs h = rw h refl

find_at-later :
    (x i : ℕ) (xs : Bytes)
    → starts_with newline (x ∷ xs) ≡ false
    → find_at newline (x ∷ xs) i ≡ find_at newline xs (i + 1)
unfolding find_at
find_at-later x i xs h = rw h refl

find_at-some :
    (xs : Bytes) (i at : ℕ) → find_at newline xs i ≡ some at → (k : ℕ) × (at ≡ i + k) × Split xs k
find_at-some [] i at h = unfold find_at in cc h
find_at-some (x ∷ xs) i at h = elim (starts_with_cases x xs) [
  | inl (hit, ten) ↦ (
    0,
    ground (arith, find_at-here x i xs hit),
    record { raw = []; rest = xs; was = ap (λ y. y ∷ xs) ten; size = refl; clean = tt },
  )
  | inr (miss, other) ↦
      let (k, same, s) = find_at-some xs (i + 1) at (sym (find_at-later x i xs miss) ∙ h) in
      (
        suc k,
        omega (arith, same),
        record {
          raw = x ∷ s.raw;
          rest = s.rest;
          was = ap (λ l. x ∷ l) s.was;
          size = ap suc s.size;
          clean = (other, s.clean);
        },
      )
]

find_at-none : (xs : Bytes) (i : ℕ) → find_at newline xs i ≡ none → Clean xs
find_at-none [] i h = tt
find_at-none (x ∷ xs) i h = elim (starts_with_cases x xs) [
  | inl (hit, ten) ↦ cc (h, find_at-here x i xs hit)
  | inr (miss, other) ↦ (other, find_at-none xs (i + 1) (sym (find_at-later x i xs miss) ∙ h))
]

-- The first `n` bytes are there, and have no newline.
pub record Scanned (xs : Bytes) (n : ℕ) : Type 0 where
  pub before : Bytes
  pub after : Bytes
  pub was : xs ≡ before ++ after
  pub size : length before ≡ n
  pub clean : Clean before

find-after : (xs : Bytes) (n : ℕ) (s : Scanned xs n) → find xs newline n ≡ find_at newline s.after n
unfolding find
find-after xs n s =
    ap (λ l. find_at newline l n)
      (ap (λ l. drop n l) s.was
        ∙ ap (λ m. drop m (s.before ++ s.after)) (sym s.size)
        ∙ drop-length s.before s.after)

length-join : (xs ys : Bytes) → length (xs ++ ys) ≡ length xs + length ys
length-join [] ys = omega arith
length-join (x ∷ xs) ys = omega (arith, length-join xs ys)

pub find-some : (xs : Bytes) (n at : ℕ) → Scanned xs n → find xs newline n ≡ some at → Split xs at
find-some xs n at s h =
    let (k, same, split) = find_at-some s.after n at (sym (find-after xs n s) ∙ h) in
    record {
      raw = s.before ++ split.raw;
      rest = split.rest;
      was =
          s.was
          ∙ ap (λ l. s.before ++ l) split.was
          ∙ sym (append_assoc s.before split.raw (10 ∷ split.rest));
      size = omega (arith, length-join s.before split.raw, same, s.size, split.size);
      clean = Clean-append s.before split.raw s.clean split.clean;
    }

pub find-none : (xs : Bytes) (n : ℕ) → Scanned xs n → find xs newline n ≡ none → Clean xs
find-none xs n s h =
    subst Clean (sym s.was)
      (Clean-append s.before s.after s.clean (find_at-none s.after n (sym (find-after xs n s) ∙ h)))

-- `find` cuts the bytes at the first newline.
pub find-cuts :
    (xs : Bytes) (n at : ℕ)
    → Scanned xs n
    → find xs newline n ≡ some at
    → (xs ≡ take at xs ++ 10 ∷ drop (at + 1) xs) × Clean (take at xs)
find-cuts xs n at scanned h =
    let s = find-some xs n at scanned h in
    let taken : take at xs ≡ s.raw =
      ap (λ l. take at l) s.was
      ∙ ap (λ m. take m (s.raw ++ 10 ∷ s.rest)) (sym s.size)
      ∙ take-length s.raw (10 ∷ s.rest) in
    let shifted : s.raw ++ 10 ∷ s.rest ≡ (s.raw ++ 10 ∷ []) ++ s.rest =
      sym (append_assoc s.raw (10 ∷ []) s.rest) in
    let one_more : at + 1 ≡ length (s.raw ++ 10 ∷ []) =
      omega (arith, length-join s.raw (10 ∷ []), s.size) in
    let dropped : drop (at + 1) xs ≡ s.rest =
      ap (λ l. drop (at + 1) l) (s.was ∙ shifted)
      ∙ ap (λ m. drop m ((s.raw ++ 10 ∷ []) ++ s.rest)) one_more
      ∙ drop-length (s.raw ++ 10 ∷ []) s.rest in
    (
      s.was ∙ ap (λ l. l ++ 10 ∷ s.rest) (sym taken) ∙ ap (λ l. take at xs ++ 10 ∷ l) (sym dropped),
      subst Clean (sym taken) s.clean,
    )
