-- ===== src/Importing/Refusing.antt =====
-- What an import reports when the builder refuses an entry.
use snapshot_fs.Prelude.{
  ◌<◌, length, ◌+◌, ◌≡◌, ◌⊎◌, sym, ◌∙◌, none, some, List, [], ◌∷◌, inl, inr, arith, ap, subst, refl,
  ok, err,
}
use snapshot_fs.Model.Enums.{warning, error}
use snapshot_fs.Model.Entry.{ParsedEntry}
use snapshot_fs.Diagnostics.{ImportDiagnostic, max_diagnostics}
use snapshot_fs.Store.Building.{build_error}
use snapshot_fs.Importing.{
  SnapshotBuilder, ParseResult, parsed, import_failure, consume, conclude, run, retain,
}
use snapshot_fs.Importing.Retention.{Among}
use snapshot_fs.Importing.Publishing.{
  after_add, consume-cons, consume-found, after_consume, run-parsed,
}
use snapshot_fs.Importing.Reporting.{
  Reports, retain-Reports, Among-after, Among-before, Replaced-errors,
}

module _ (B : SnapshotBuilder) where
  -- `add` refuses an entry with the diagnostic `d` after it has added those before it, and
  -- leaves `c`.
  abbrev pub Refuses : List ParsedEntry → ImportDiagnostic → B.Builder → B.Builder → Type 0
  Refuses [] d b c = ⊥
  Refuses (entry ∷ entries) d b c =
      (B.add entry b ≡ (err (build_error d), c))
      ⊎ ((m : B.Builder) × (B.add entry b ≡ (ok tt, m)) × Refuses entries d m c)

  Refuses→consume :
      (entries : List ParsedEntry) (d : ImportDiagnostic) (b c : B.Builder)
      → Refuses entries d b c
      → consume B entries none b ≡ (ok (some d), c)
  Refuses→consume [] d b c r = absurd r
  Refuses→consume (e ∷ es) d b c (inl refused) =
      consume-cons B e es b ∙ ap (after_add B es) refused ∙ consume-found B es d c
  Refuses→consume (e ∷ es) d b c (inr (m, added, later)) =
      consume-cons B e es b ∙ ap (after_add B es) added ∙ Refuses→consume es d m c later

  conclude-found :
      (d : ImportDiagnostic) (result : ParseResult) (c : B.Builder)
      → conclude B (some d) result c ≡ (
        import_failure (retain (some d) result.diagnostics) (result.diagnostic_count + 1),
        B.abort c,
      )
  unfolding conclude
  conclude-found d result c = ground arith

  -- For any builder, if `add` refuses an entry with a diagnostic after it has added those
  -- before, and the parser ends with a result, then the import aborts the builder as `add`
  -- left it and fails with one more than the parser counted and with a report: while the
  -- diagnostics of the parser are fewer than the bound, these and the one of the builder
  -- after them; otherwise these with the one of the builder in the place of the last warning,
  -- or of the last item if none is a warning.
  pub run-Reports :
      (entries : List ParsedEntry) (result : ParseResult) (d : ImportDiagnostic) (b c : B.Builder)
      → Refuses entries d b c
      → (ds : List ImportDiagnostic) × (run B (parsed entries (ok result)) b
          ≡ (import_failure ds (result.diagnostic_count + 1), B.abort c))
        × Reports d result.diagnostics ds
  run-Reports entries result d b c refused = (
    retain (some d) result.diagnostics,
    run-parsed B entries (ok result) b
        ∙ ap (after_consume B (ok result)) (Refuses→consume entries d b c refused)
        ∙ conclude-found d result c,
    retain-Reports d result.diagnostics,
  )

  -- For any builder, if `add` refuses an entry with a diagnostic after it has added those
  -- before, the parser ends with a result, and its diagnostics are fewer than the bound or
  -- have a warning among them, then the import fails with a report that has every error of
  -- the parser and the diagnostic of the builder.
  pub run_keeps_errors :
      (entries : List ParsedEntry) (result : ParseResult) (d e : ImportDiagnostic) (b c : B.Builder)
      → Refuses entries d b c
      → (length result.diagnostics < max_diagnostics)
        ⊎ ((w : ImportDiagnostic) × Among w result.diagnostics × (w.severity ≡ warning))
      → Among e result.diagnostics
      → e.severity ≡ error
      → (ds : List ImportDiagnostic) × (run B (parsed entries (ok result)) b
          ≡ (import_failure ds (result.diagnostic_count + 1), B.abort c))
        × (Among e ds × Among d ds)
  run_keeps_errors entries result d e b c refused space m bad =
      let (ds, ran, reports) = run-Reports entries result d b c refused in
      (
        ds,
        ran,
        elim reports [
          | inl (room, grown) ↦ (
            subst (Among e) (sym grown) (Among-before e result.diagnostics (d ∷ []) m),
            subst (Among d) (sym grown) (Among-after d result.diagnostics (d ∷ []) (inl refl)),
          )
          | inr (full, r) ↦ (
            elim space [
              | inl room ↦ absurd (omega (arith, room, full))
              | inr (w, has, warns) ↦ Replaced-errors e w d result.diagnostics ds r has warns m bad
            ],
            subst (Among d) (sym r.now) (Among-after d r.before (d ∷ r.after) (inl refl)),
          )
        ],
      )
