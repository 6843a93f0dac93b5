-- ===== src/Importing/Reporting.antt =====
-- How the builder's diagnostic gets into the report of a failing import.
use snapshot_fs.Prelude.{
  ◌+◌, ◌-◌, ◌≤◌, ◌<◌, ◌≡◌, ◌⊎◌, refl, sym, ◌∙◌, none, some, List, [], ◌∷◌, ◌++◌, inl, inr, arith,
  ltb, length, Bool-cases, ap, subst,
}
use snapshot_fs.Model.Enums.{Severity, warning, error}
use snapshot_fs.Diagnostics.{ImportDiagnostic, max_diagnostics}
use snapshot_fs.Importing.{last_warning, replacement, replace_at, retain}
use snapshot_fs.Importing.Retention.{Among}

-- None is a warning.
abbrev pub AllErrors : List ImportDiagnostic → Type 0
AllErrors [] = Unit {0}
AllErrors (x ∷ xs) = (x.severity ≡ error) × AllErrors xs

-- `ds` is `old` with `d` in the place of `x`, which is the last warning, or else the last of all.
pub record Replaced (d : ImportDiagnostic) (old ds : List ImportDiagnostic) : Type 0 where
  pub before : List ImportDiagnostic
  pub x : ImportDiagnostic
  pub after : List ImportDiagnostic
  pub was : old ≡ before ++ x ∷ after
  pub now : ds ≡ before ++ d ∷ after
  pub last :
      ((x.severity ≡ warning) × AllErrors after)
      ⊎ (AllErrors before × (x.severity ≡ error) × (after ≡ []))

-- `ds` is `old` with `d` added within the bound.
abbrev pub Reports : ImportDiagnostic → List ImportDiagnostic → List ImportDiagnostic → Type 0
Reports d old ds =
    ((length old < max_diagnostics) × (ds ≡ old ++ d ∷ []))
    ⊎ ((max_diagnostics ≤ length old) × Replaced d old ds)

-- Where the last warning stands.
record WarningAt (ds : List ImportDiagnostic) : Type 0 where
  before : List ImportDiagnostic
  x : ImportDiagnostic
  after : List ImportDiagnostic
  was : ds ≡ before ++ x ∷ after
  found : last_warning ds ≡ some (length before)
  warns : x.severity ≡ warning
  later : AllErrors after

severity_cases : (s : Severity) → (s ≡ warning) ⊎ (s ≡ error)
severity_cases warning = inl refl
severity_cases error = inr refl

last_warning_cases :
    (ds : List ImportDiagnostic) → WarningAt ds ⊎ ((last_warning ds ≡ none) × AllErrors ds)
unfolding last_warning
last_warning_cases [] = inr (refl, tt)
last_warning_cases (y ∷ ds) = elim (last_warning_cases ds) [
  | inl w ↦ inl (record {
    before = y ∷ w.before;
    x = w.x;
    after = w.after;
    was = ap (λ l. y ∷ l) w.was;
    found = ground (arith, w.found);
    warns = w.warns;
    later = w.later;
  })
  | inr (nothing, errors) ↦ elim (severity_cases y.severity) [
    | inl warns ↦ inl (record {
      before = [];
      x = y;
      after = ds;
      was = refl;
      found = rw (nothing, last_warning, warns) refl;
      warns = warns;
      later = errors;
    })
    | inr bad ↦ inr (rw (nothing, last_warning, bad) refl, (bad, errors))
  ]
]

replace_at-append :
    (d x : ImportDiagnostic) (before after : List ImportDiagnostic)
    → replace_at (length before) d (before ++ x ∷ after) ≡ before ++ d ∷ after
replace_at-append d x [] after = refl
replace_at-append d x (y ∷ before) after = ap (λ l. y ∷ l) (replace_at-append d x before after)

-- The last item of a list of errors.
record LastAt (ds : List ImportDiagnostic) : Type 0 where
  before : List ImportDiagnostic
  x : ImportDiagnostic
  was : ds ≡ before ++ x ∷ []
  count : length ds ≡ length before + 1
  bad : AllErrors before × (x.severity ≡ error)

last_error : (ds : List ImportDiagnostic) → 0 < length ds → AllErrors ds → LastAt ds
last_error [] h errors = absurd (omega arith)
last_error (y ∷ []) h (bad, _) = record {
  before = [];
  x = y;
  was = refl;
  count = refl;
  bad = (tt, bad);
}
last_error (y ∷ z ∷ ds) h (bad, errors) =
    let l = last_error (z ∷ ds) (omega arith) errors in
    record {
      before = y ∷ l.before;
      x = l.x;
      was = ap (λ k. y ∷ k) l.was;
      count = omega (arith, l.count);
      bad = ((bad, l.bad.0), l.bad.1);
    }

replaces :
    (d : ImportDiagnostic) (old : List ImportDiagnostic)
    → 0 < length old
    → Replaced d old (replace_at (replacement old) d old)
unfolding replacement
replaces d old h = elim (last_warning_cases old) [
  | inl w ↦ record {
    before = w.before;
    x = w.x;
    after = w.after;
    was = w.was;
    now =
        rw (w.found, replacement)
          (ap (replace_at (length w.before) d) w.was ∙ replace_at-append d w.x w.before w.after);
    last = inl (w.warns, w.later);
  }
  | inr (nothing, errors) ↦
      let l = last_error old h errors in
      let at : length old - 1 ≡ length l.before = omega (arith, l.count) in
      record {
        before = l.before;
        x = l.x;
        after = [];
        was = l.was;
        now =
            rw (nothing, replacement)
              (ap (λ i. replace_at i d old) at
                ∙ ap (replace_at (length l.before) d) l.was
                ∙ replace_at-append d l.x l.before []);
        last = inr (l.bad.0, l.bad.1, refl);
      }
]

pub retain-Reports :
    (d : ImportDiagnostic) (old : List ImportDiagnostic) → Reports d old (retain (some d) old)
unfolding retain
retain-Reports d old = elim (Bool-cases (ltb (length old) max_diagnostics)) [
  | inl room ↦ inl (ground arith, rw room refl)
  | inr full ↦
      let many : max_diagnostics ≤ length old = ground arith in
      inr (many, rw full (replaces d old (omega (arith, many))))
]

pub Among-after : {A : Type 0} (x : A) (xs ys : List A) → Among x ys → Among x (xs ++ ys)
Among-after x [] ys m = m
Among-after x (y ∷ xs) ys m = inr (Among-after x xs ys m)

pub Among-before : {A : Type 0} (x : A) (xs ys : List A) → Among x xs → Among x (xs ++ ys)
Among-before x [] ys m = absurd m
Among-before x (y ∷ xs) ys (inl same) = inl same
Among-before x (y ∷ xs) ys (inr m) = inr (Among-before x xs ys m)

Among-cases : {A : Type 0} (x : A) (xs ys : List A) → Among x (xs ++ ys) → Among x xs ⊎ Among x ys
Among-cases x [] ys m = inr m
Among-cases x (y ∷ xs) ys (inl same) = inl (inl same)
Among-cases x (y ∷ xs) ys (inr m) = elim (Among-cases x xs ys m) [
  | inl early ↦ inl (inr early)
  | inr late ↦ inr late
]

-- Replacing one item keeps all others.
Among-replaced :
    (e d x : ImportDiagnostic) (before after : List ImportDiagnostic)
    → Among e (before ++ x ∷ after)
    → (e ≡ x) ⊎ Among e (before ++ d ∷ after)
Among-replaced e d x before after m = elim (Among-cases e before (x ∷ after) m) [
  | inl early ↦ inr (Among-before e before (d ∷ after) early)
  | inr (inl same) ↦ inl same
  | inr (inr late) ↦ inr (Among-after e before (d ∷ after) (inr late))
]

Among-AllErrors :
    (w : ImportDiagnostic) (ds : List ImportDiagnostic)
    → AllErrors ds
    → Among w ds
    → w.severity ≡ error
Among-AllErrors w [] errors m = absurd m
Among-AllErrors w (y ∷ ds) (bad, errors) (inl same) = ap (λ k. k.severity) same ∙ bad
Among-AllErrors w (y ∷ ds) (bad, errors) (inr m) = Among-AllErrors w ds errors m

warning≢error : {s : Severity} → s ≡ warning → s ≡ error → ⊥
warning≢error h k = cc (h, k)

-- With a warning in the list, no error gives way.
pub Replaced-errors :
    (e w d : ImportDiagnostic) (old ds : List ImportDiagnostic)
    → Replaced d old ds
    → Among w old
    → w.severity ≡ warning
    → Among e old
    → e.severity ≡ error
    → Among e ds
Replaced-errors e w d old ds r has warns m bad = elim r.last [
  | inl (gives, _) ↦ elim (Among-replaced e d r.x r.before r.after (subst (Among e) r.was m)) [
    | inl same ↦ absurd (warning≢error (ap (λ k. k.severity) same ∙ gives) bad)
    | inr kept ↦ subst (Among e) (sym r.now) kept
  ]
  | inr (errors, worst, alone) ↦
      let in_list = subst (Among w) (r.was ∙ ap (λ l. r.before ++ r.x ∷ l) alone) has in
      absurd (elim (Among-cases w r.before (r.x ∷ []) in_list) [
        | inl early ↦ warning≢error warns (Among-AllErrors w r.before errors early)
        | inr (inl same) ↦ warning≢error warns (ap (λ k. k.severity) same ∙ worst)
        | inr (inr none_left) ↦ absurd none_left
      ])
]
