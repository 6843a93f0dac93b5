-- ===== src/Diagnostics/Log.antt =====
-- The collector against the log of all diagnostics that it was given.
use snapshot_fs.Prelude.{
  ℕ, zero, suc, ◌≡◌, refl, sym, Bool, true, Option, none, some, List, [], ◌∷◌, ◌++◌, Text, arith,
  if◌then◌else◌, ltb, length, length-append, take, any,
}
use mathlib.Core.List.{append-nil, append_assoc}
use snapshot_fs.Diagnostics.{
  ImportDiagnostic, DiagnosticCollector, collector, observe_line, excerpt, with_input, is_error,
  add,
}

-- What a parser does to its collector.
pub data Event : Type 0 where
  line : ℕ → Text → Event
  diagnostic : ImportDiagnostic → Event

pub collect : List Event → DiagnosticCollector → DiagnosticCollector
collect [] c = c
collect (line number text ∷ es) c = collect es (observe_line number text c)
collect (diagnostic d ∷ es) c = collect es (add d c)

-- The diagnostics of the events, each with the excerpt of its line if that is the current one.
pub annotated : Option (ℕ × Text) → List Event → List ImportDiagnostic
annotated source [] = []
annotated source (line number text ∷ es) = annotated (some (number, excerpt text)) es
annotated source (diagnostic d ∷ es) = with_input source d ∷ annotated source es

abbrev pub any_error : List ImportDiagnostic → Bool
any_error ds = any (λ d. is_error d.severity) ds

-- The collector's view of a log: its first `limit` items, its length, and whether it has an
-- error.
pub record Represents (c : DiagnosticCollector) (limit : ℕ) (log : List ImportDiagnostic)
    : Type 0 where
  pub bound : c.limit ≡ limit
  pub items : c.items ≡ take limit log
  pub total : c.total ≡ length log
  pub has_errors : c.has_errors ≡ any_error log

take-nil {ℓ} : {A : Type ℓ} (n : ℕ) → take {A = A} n [] ≡ []
take-nil zero = refl
take-nil (suc n) = refl

take-snoc {ℓ} :
    {A : Type ℓ} (n : ℕ) (xs : List A) (x : A)
    → take n (xs ++ x ∷ [])
      ≡ (if ltb (length (take n xs)) n then take n xs ++ x ∷ [] else take n xs)
take-snoc zero xs x = refl
take-snoc {A} (suc n) [] x = ground (arith, take-nil {A = A} n)
take-snoc (suc n) (y ∷ xs) x = ground (arith, take-snoc n xs x)

any_error-snoc :
    (log : List ImportDiagnostic) (d : ImportDiagnostic)
    → any_error (log ++ d ∷ []) ≡ (if is_error d.severity then true else any_error log)
any_error-snoc [] d = ground arith
any_error-snoc (e ∷ log) d = ground (arith, any_error-snoc log d)

add-Represents :
    (c : DiagnosticCollector) (limit : ℕ) (log : List ImportDiagnostic) (d : ImportDiagnostic)
    → Represents c limit log
    → Represents (add d c) limit (log ++ with_input c.source_line d ∷ [])
unfolding add
add-Represents c limit log d r =
    let d' = with_input c.source_line d in
    record {
      bound = r.bound;
      items = rw (r.bound, r.items) (sym (take-snoc limit log d'));
      total = omega (arith, r.total, length-append log (d' ∷ []));
      has_errors = rw r.has_errors (sym (any_error-snoc log d'));
    }

collect-Represents_from :
    (es : List Event) (c : DiagnosticCollector) (limit : ℕ) (log : List ImportDiagnostic)
    → Represents c limit log
    → Represents (collect es c) limit (log ++ annotated c.source_line es)
unfolding collect annotated observe_line add
collect-Represents_from [] c limit log r = rw append-nil r
collect-Represents_from (line number text ∷ es) c limit log r =
    collect-Represents_from es (observe_line number text c) limit log
      (record { bound = r.bound; items = r.items; total = r.total; has_errors = r.has_errors })
collect-Represents_from (diagnostic d ∷ es) c limit log r = rw append_assoc at (
    collect-Represents_from es (add d c) limit (log ++ with_input c.source_line d ∷ [])
      (add-Represents c limit log d r))

-- A fresh collector, after any lines and diagnostics, holds the first `limit` of the
-- annotated diagnostics in order, has counted all of them, and knows whether one is an
-- error.
pub collect-Represents :
    (limit : ℕ) (es : List Event)
    → Represents (collect es (collector limit)) limit (annotated none es)
unfolding collector
collect-Represents limit es =
    collect-Represents_from es (collector limit) limit []
      (record { bound = refl; items = sym (take-nil limit); total = refl; has_errors = refl })
