-- ===== src/Importing/Publishing.antt =====
-- When an import publishes a store, and what a failing one leaves.
use snapshot_fs.Prelude.{
  ◌≡◌, ◌↔◌, refl, sym, ◌∙◌, ap, subst, ◌⊎◌, is_some, ◌||◌, false, Option, none, some, List, [], ◌∷◌,
  Result, ok, err, arith, Bool-cases, inl, inr,
}
use snapshot_fs.Model.Entry.{ParsedEntry}
use snapshot_fs.Diagnostics.{ImportDiagnostic}
use snapshot_fs.Store.Building.{Exception, build_error}
use snapshot_fs.Importing.{
  SnapshotBuilder, ParseResult, Stream, unopened, parsed, Outcome, published, failed, consume,
  conclude, run, retain, count_with,
}

module _ (B : SnapshotBuilder) where
  -- All entries are added, in order, and no call raises.
  abbrev pub AddsAll : List ParsedEntry → B.Builder → B.Builder → Type 0
  AddsAll [] b d = b ≡ d
  AddsAll (entry ∷ entries) b d =
      (c : B.Builder) × (B.add entry b ≡ (ok tt, c)) × AddsAll entries c d

  pub consume-found :
      (entries : List ParsedEntry) (d : ImportDiagnostic) (b : B.Builder)
      → consume B entries (some d) b ≡ (ok (some d), b)
  unfolding consume
  consume-found [] d b = refl
  consume-found (e ∷ es) d b = consume-found es d b

  -- The loop's body on an outcome of `add`.
  abbrev pub after_add :
      List ParsedEntry
      → Result Exception (Unit {0}) × B.Builder
      → Result Exception (Option ImportDiagnostic) × B.Builder
  after_add es (ok _, m) = consume B es none m
  after_add es (err (build_error d), m) = consume B es (some d) m
  after_add es (err other, m) = (err other, m)

  pub consume-cons :
      (e : ParsedEntry) (es : List ParsedEntry) (b : B.Builder)
      → consume B (e ∷ es) none b ≡ after_add es (B.add e b)
  unfolding consume
  consume-cons e es b = ground arith

  added_cases :
      (es : List ParsedEntry) (out : Result Exception (Unit {0}) × B.Builder) (c : B.Builder)
      → after_add es out ≡ (ok none, c)
      → (m : B.Builder) × (out ≡ (ok tt, m)) × (consume B es none m ≡ (ok none, c))
  added_cases es (ok _, m) c h = (m, refl, h)
  added_cases es (err (build_error d), m) c h = cc (h, consume-found es d m)
  added_cases es (err other, m) c h = cc h

  pub consume→AddsAll :
      (entries : List ParsedEntry) (b c : B.Builder)
      → consume B entries none b ≡ (ok none, c)
      → AddsAll entries b c
  consume→AddsAll [] b c h = unfold consume in cc h
  consume→AddsAll (e ∷ es) b c h =
      let (m, added, rest) = added_cases es (B.add e b) c (sym (consume-cons e es b) ∙ h) in
      (m, added, consume→AddsAll es m c rest)

  pub AddsAll→consume :
      (entries : List ParsedEntry) (b c : B.Builder)
      → AddsAll entries b c
      → consume B entries none b ≡ (ok none, c)
  AddsAll→consume [] b c h = unfold consume in cc h
  AddsAll→consume (e ∷ es) b c (m, added, rest) =
      consume-cons e es b ∙ ap (after_add es) added ∙ AddsAll→consume es m c rest

  -- What has to go well for an import to publish `store`.
  pub record Succeeds (stream : Stream) (b : B.Builder) (store : B.Store) (end : B.Builder)
      : Type 0 where
    pub entries : List ParsedEntry
    pub result : ParseResult
    pub filled : B.Builder
    pub opened : stream ≡ parsed entries (ok result)
    pub added : AddsAll entries b filled
    pub clean : result.has_errors ≡ false
    pub finished : B.finish result.diagnostics result.diagnostic_count filled ≡ (ok store, end)

  abbrev pub after_consume :
      Result Exception ParseResult
      → Result Exception (Option ImportDiagnostic) × B.Builder
      → Outcome B.Store × B.Builder
  after_consume end (err e, b) = (failed e, B.abort b)
  after_consume (err e) (ok found, b) = (failed e, B.abort b)
  after_consume (ok result) (ok found, b) = conclude B found result b

  pub run-parsed :
      (entries : List ParsedEntry) (end : Result Exception ParseResult) (b : B.Builder)
      → run B (parsed entries end) b ≡ after_consume end (consume B entries none b)
  unfolding run
  run-parsed entries end b = ground arith

  conclude_published :
      (found : Option ImportDiagnostic) (result : ParseResult) (b end : B.Builder) (store : B.Store)
      → conclude B found result b ≡ (published store, end)
      → (found ≡ none)
        × (result.has_errors ≡ false)
        × (B.finish result.diagnostics result.diagnostic_count b ≡ (ok store, end))
  unfolding conclude
  conclude_published none result b end store h = ground arith
  conclude_published (some d) result b end store h = ground arith

  run_published :
      (stream : Stream) (b end : B.Builder) (store : B.Store)
      → run B stream b ≡ (published store, end)
      → Succeeds stream b store end
  run_published (unopened e) b end store h = unfold run in cc h
  run_published (parsed entries r) b end store h =
      go r (consume B entries none b) refl (sym (run-parsed entries r b) ∙ h)
    where
      go :
          (r : Result Exception ParseResult)
          (o : Result Exception (Option ImportDiagnostic) × B.Builder)
          → consume B entries none b ≡ o
          → after_consume r o ≡ (published store, end)
          → Succeeds (parsed entries r) b store end
      go r (err e, c) at k = cc k
      go (err e) (ok found, c) at k = cc k
      go (ok result) (ok found, c) at k =
          let (nothing, clean, finished) = conclude_published found result c end store k in
          record {
            entries = entries;
            result = result;
            filled = c;
            opened = refl;
            added = consume→AddsAll entries b c (at ∙ ap (λ f. (ok f, c)) nothing);
            clean = clean;
            finished = finished;
          }

  conclude-clean :
      (result : ParseResult) (b end : B.Builder) (store : B.Store)
      → result.has_errors ≡ false
      → B.finish result.diagnostics result.diagnostic_count b ≡ (ok store, end)
      → conclude B none result b ≡ (published store, end)
  unfolding conclude
  conclude-clean result b end store clean finished = ground arith

  Succeeds-run :
      (stream : Stream) (b end : B.Builder) (store : B.Store)
      → Succeeds stream b store end
      → run B stream b ≡ (published store, end)
  Succeeds-run stream b end store s =
      ap (λ t. run B t b) s.opened
      ∙ run-parsed s.entries (ok s.result) b
      ∙ ap (after_consume (ok s.result)) (AddsAll→consume s.entries b s.filled s.added)
      ∙ conclude-clean s.result s.filled end store s.clean s.finished

  -- For any builder, an import ends with a published store exactly when the source opens, the
  -- parser ends without errors, every `add` returns and `finish`, given the parser's
  -- diagnostics, returns that store.
  pub publishes_iff :
      (stream : Stream) (b end : B.Builder) (store : B.Store)
      → (run B stream b ≡ (published store, end)) ↔ Succeeds stream b store end
  publishes_iff stream b end store =
      (run_published stream b end store, Succeeds-run stream b end store)

  abbrev Settled : Outcome B.Store × B.Builder → Type 0
  Settled out =
      ((store : B.Store) × (out.0 ≡ published store)) ⊎ ((c : B.Builder) × (out.1 ≡ B.abort c))

  finish-Settled :
      (out : Result Exception B.Store × B.Builder)
      → Settled
          (elim out.0 [ ok store ↦ (published store, out.1) | err e ↦ (failed e, B.abort out.1) ])
  finish-Settled (ok store, c) = inl (store, refl)
  finish-Settled (err e, c) = inr (c, refl)

  conclude-Settled :
      (found : Option ImportDiagnostic) (result : ParseResult) (b : B.Builder)
      → Settled (conclude B found result b)
  unfolding conclude
  conclude-Settled found result b = elim (Bool-cases (result.has_errors || is_some found)) [
    | inl bad ↦ simp bad (inr (b, refl))
    | inr good ↦ simp good (
        finish-Settled
          (B.finish (retain found result.diagnostics) (count_with found result.diagnostic_count) b))
  ]

  after_consume-Settled :
      (end : Result Exception ParseResult)
      (o : Result Exception (Option ImportDiagnostic) × B.Builder)
      → Settled (after_consume end o)
  after_consume-Settled end (err e, c) = inr (c, refl)
  after_consume-Settled (err e) (ok found, c) = inr (c, refl)
  after_consume-Settled (ok result) (ok found, c) = conclude-Settled found result c

  -- For any builder, every import either publishes a store or ends with a builder that was
  -- aborted.
  pub run_settled :
      (stream : Stream) (b : B.Builder)
      → ((store : B.Store) × ((run B stream b).0 ≡ published store))
        ⊎ ((c : B.Builder) × ((run B stream b).1 ≡ B.abort c))
  run_settled (unopened e) b = unfold run in inr (b, refl)
  run_settled (parsed entries r) b =
      subst Settled (sym (run-parsed entries r b))
        (after_consume-Settled r (consume B entries none b))
