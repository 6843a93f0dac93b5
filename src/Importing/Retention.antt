-- ===== src/Importing/Retention.antt =====
-- How many diagnostics a failing import reports once the builder's own has to fit in.
use snapshot_fs.Prelude.{
  ℕ, zero, suc, ◌≤◌, ◌<◌, ◌≡◌, ◌⊎◌, refl, Option, none, some, List, [], ◌∷◌, inl, inr, arith,
  length, Option-cases, length-append, ap,
}
use snapshot_fs.Diagnostics.{ImportDiagnostic, max_diagnostics}
use snapshot_fs.Importing.{last_warning, replacement, replace_at, retain}

abbrev pub Among : {A : Type 0} → A → List A → Type 0
Among x [] = ⊥
Among x (y ∷ ys) = (x ≡ y) ⊎ Among x ys

length-replace_at :
    (i : ℕ) (d : ImportDiagnostic) (ds : List ImportDiagnostic)
    → i < length ds
    → length (replace_at i d ds) ≡ length ds
length-replace_at i d [] h = absurd (omega arith)
length-replace_at zero d (x ∷ ds) h = refl
length-replace_at (suc i) d (x ∷ ds) h = ap suc (length-replace_at i d ds (omega arith))

last_warning-lt : (ds : List ImportDiagnostic) (i : ℕ) → last_warning ds ≡ some i → i < length ds
unfolding last_warning
last_warning-lt [] i h = cc
last_warning-lt (d ∷ ds) i h = elim (Option-cases (last_warning ds)) [
  | inl nothing ↦ ground arith
  | inr (j, at) ↦ ground (arith, last_warning-lt ds j)
]

replacement-lt : (ds : List ImportDiagnostic) → 0 < length ds → replacement ds < length ds
unfolding replacement
replacement-lt ds h = elim (Option-cases (last_warning ds)) [
  | inl nothing ↦ ground arith
  | inr (j, at) ↦ ground (arith, last_warning-lt ds j)
]

-- If the diagnostics are no more than the bound, then so are those that a failing import
-- reports.
pub length-retain-le :
    (found : Option ImportDiagnostic) (ds : List ImportDiagnostic)
    → length ds ≤ max_diagnostics
    → length (retain found ds) ≤ max_diagnostics
unfolding retain
length-retain-le none ds h = h
length-retain-le (some d) ds h =
    ground
      (arith, length-append ds (d ∷ []), replacement-lt ds, length-replace_at (replacement ds) d ds)
