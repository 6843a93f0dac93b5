-- ===== src/Store/Sqlite/Builder/Refining.antt =====
-- `add` of the builder in SQLite does what `add` of the builder in memory does.
use snapshot_fs.Prelude.{
  ℕ, ◌+◌, ◌≡◌, refl, sym, ◌∙◌, ap, subst, Bool, true, false, not, Option, none, some, List, [], ◌∷◌,
  Bytes, Result, ok, err, if◌then◌else◌, inl, inr, ◌==◌, ok≢err, err-injective, ok-injective,
  Bool-cases, some-injective,
}
use snapshot_fs.Dict.{nat_key}
use snapshot_fs.Dict.Laws.{get-put}
use snapshot_fs.Model.Enums.{NodeKind}
use snapshot_fs.Model.Entry.{ParsedEntry}
use snapshot_fs.Store.Building.{Exception, MutableNode, components}
use snapshot_fs.Store.Memory.Builder.{
  Builder, fresh_node, created, create, existing, merge_into, settle, enter, visit, add_from,
  set_default, is_last, finished_error,
}
use snapshot_fs.Store.Memory.Builder.Tree.{
  child_at, IsTree, IsDirectory, SameTree-set_default, IsTree-same, IsDirectory-grow,
}
use snapshot_fs.Store.Memory.Builder.Steps.{visit-Enters}
use snapshot_fs.Store.Memory.Builder.Adding.{components-cons}
use snapshot_fs.Store.Sqlite.Builder.{
  SqliteBuilder, is_active, node_row, empty_json, mutable, update_node, settle_row, insert_node,
  reuse_row, visit_row, add_rows, add_entry,
}
use snapshot_fs.Store.Sqlite.Builder.Rereading.{ComparesAlike}
use snapshot_fs.Store.Sqlite.Builder.Mirroring.{Mirrors}
use snapshot_fs.Store.Sqlite.Builder.Settling.{IsPersistable, Agrees}
use snapshot_fs.Store.Sqlite.Builder.Entering.{
  AllAlike, Mirrors-set_default, visit-enter, enter-Agrees,
}

module _ (entry : ParsedEntry) where
  AllAlike-set_default : (p : ℕ) (b : Builder) → AllAlike b entry → AllAlike (set_default p b) entry
  AllAlike-set_default p b alike =
      λ i n held. alike i n (sym ((SameTree-set_default p b).nodes i) ∙ held)

  AllAlike-create :
      (index : ℕ) (kind : NodeKind) (name : Bytes) (p : ℕ) (b : Builder)
      → AllAlike b entry
      → AllAlike (create p (created entry index kind name p b) b) entry
  unfolding created create
  AllAlike-create index kind name p b alike = λ i n held. elim (Bool-cases (b.next_id == i)) [
    | inl here ↦
        subst (λ x. ComparesAlike x entry)
          (some-injective _ _ (
            sym (rw here at (get-put i b.next_id (created entry index kind name p b) b.nodes))
            ∙ held))
          refl
    | inr other ↦
        alike i n (
          sym (rw other at (get-put i b.next_id (created entry index kind name p b) b.nodes))
          ∙ held)
  ]

  settle_undone : (r : Result Exception MutableNode) (b : Builder) → (settle entry false r b).1 ≡ b
  unfolding settle
  settle_undone (ok n) b = refl
  settle_undone (err e) b = refl

  AllAlike-enter :
      (index : ℕ) (name : Bytes) (p : ℕ) (b : Builder) (o : Option ℕ)
      → AllAlike b entry
      → AllAlike (enter entry index false name p o b).1 entry
  unfolding enter
  AllAlike-enter index name p b none alike =
      subst (λ c. AllAlike c entry)
        (sym (
          settle_undone (ok (created entry index NodeKind.directory name p b))
            (create p (created entry index NodeKind.directory name p b) b)))
        (AllAlike-create index NodeKind.directory name p b alike)
  AllAlike-enter index name p b (some i) alike =
      subst (λ c. AllAlike c entry) (sym (settle_undone (existing entry NodeKind.directory i b) b))
        alike

  AllAlike-visit :
      (index : ℕ) (name : Bytes) (p : ℕ) (b : Builder)
      → AllAlike b entry
      → AllAlike (visit entry index false name p b).1 entry
  AllAlike-visit index name p b alike =
      subst (λ (o : Result Exception ℕ × Builder). AllAlike o.1 entry)
        (sym (visit-enter entry index false name p b))
        (AllAlike-enter index name p (set_default p b) (child_at p name (set_default p b))
          (AllAlike-set_default p b alike))

  visit-Agrees :
      (pe : IsPersistable entry) (index : ℕ) (final : Bool) (name : Bytes) (p : ℕ) (b : Builder)
      (s : SqliteBuilder)
      → Mirrors b s
      → IsTree b
      → IsDirectory b p
      → AllAlike b entry
      → Agrees (visit entry index final name p b) (visit_row entry index final name p s)
  visit-Agrees pe index final name p b s m t dir alike =
      let same = SameTree-set_default p b in
      subst (λ o. Agrees o (visit_row entry index final name p s))
        (sym (visit-enter entry index final name p b))
        (enter-Agrees entry pe index final name p (set_default p b) s (Mirrors-set_default p b s m)
          (IsTree-same same t) (IsDirectory-grow (λ i n held. same.nodes i ∙ held) dir)
          (AllAlike-set_default p b alike))

  -- What is done with the outcome of a step.
  after-Agrees :
      (out : Result Exception ℕ × Builder) (out' : Result Exception ℕ × SqliteBuilder)
      (rest : ℕ → Builder → Result Exception (Unit {0}) × Builder)
      (rest' : ℕ → SqliteBuilder → Result Exception (Unit {0}) × SqliteBuilder)
      → Agrees out out'
      → ((k : ℕ) → out.0 ≡ ok k → Mirrors out.1 out'.1 → Agrees (rest k out.1) (rest' k out'.1))
      → Agrees {A = Unit {0}}
          (elim out.0 [ ok k ↦ rest k out.1 | err e ↦ (err e, out.1) ])
          (elim out'.0 [ ok k ↦ rest' k out'.1 | err e ↦ (err e, out'.1) ])
  after-Agrees (ok k, c) (ok j, d) rest rest' (same, m) h =
      subst (λ i. Agrees (rest k c) (rest' i d)) (ok-injective (sym same)) (h k refl m)
  after-Agrees (err e, c) (err f, d) rest rest' (same, m) h = (ap err (err-injective same), m)
  after-Agrees (ok k, c) (err f, d) rest rest' (same, m) h = absurd (ok≢err same)
  after-Agrees (err e, c) (ok k, d) rest rest' (same, m) h = absurd (ok≢err (sym same))

  add_from-Agrees :
      (pe : IsPersistable entry) (index : ℕ) (name : Bytes) (names : List Bytes) (p : ℕ)
      (b : Builder) (s : SqliteBuilder)
      → Mirrors b s
      → IsTree b
      → IsDirectory b p
      → AllAlike b entry
      → Agrees (add_from entry index (name ∷ names) p b) (add_rows entry index (name ∷ names) p s)
  unfolding add_from add_rows
  add_from-Agrees pe index name [] p b s m t dir alike =
      after-Agrees (visit entry index true name p b) (visit_row entry index true name p s)
        (λ k c. (ok tt, c)) (λ k c. (ok tt, c))
        (visit-Agrees pe index true name p b s m t dir alike) (λ k h n. (refl, n))
  add_from-Agrees pe index name (next ∷ names) p b s m t dir alike =
      let e = visit-Enters entry index false name p b t dir in
      after-Agrees (visit entry index false name p b) (visit_row entry index false name p s)
        (add_from entry (index + 1) (next ∷ names)) (add_rows entry (index + 1) (next ∷ names))
        (visit-Agrees pe index false name p b s m t dir alike)
        λ k h n.
          add_from-Agrees pe (index + 1) next names k (visit entry index false name p b).1
            (visit_row entry index false name p s).1 n e.tree (e.lands k h).1
            (AllAlike-visit index name p b alike)

  -- The two bodies of `add` before the loop: the same tests.
  abbrev opened : Result Exception (List Bytes) → Builder → Result Exception (Unit {0}) × Builder
  opened r b = elim r [ ok names ↦ add_from entry 0 names 1 b | err e ↦ (err e, b) ]

  abbrev opened_rows :
      Result Exception (List Bytes) → SqliteBuilder → Result Exception (Unit {0}) × SqliteBuilder
  opened_rows r s = elim r [ ok names ↦ add_rows entry 0 names 1 s | err e ↦ (err e, s) ]

  opened-Agrees :
      (pe : IsPersistable entry) (b : Builder) (s : SqliteBuilder)
      (r : Result Exception (List Bytes))
      → components entry entry.path ≡ r
      → Mirrors b s
      → IsTree b
      → AllAlike b entry
      → Agrees (opened r b) (opened_rows r s)
  opened-Agrees pe b s (err e) checked m t alike = (refl, m)
  opened-Agrees pe b s (ok names) checked m t alike =
      let (name, rest, split) = components-cons entry entry.path names checked in
      rw split (add_from-Agrees pe 0 name rest 1 b s m t t.root alike)

  choose-Agrees :
      (done : Bool) (b : Builder) (s : SqliteBuilder) (active : Bool)
      (r : Result Exception (List Bytes))
      → active ≡ not done
      → Mirrors b s
      → Agrees (opened r b) (opened_rows r s)
      → Agrees
          (if done then (err finished_error, b) else opened r b)
          (if active then opened_rows r s else (err finished_error, s))
  choose-Agrees true b s active r h m agrees = rw h (refl, m)
  choose-Agrees false b s active r h m agrees = rw h agrees

  add_entry-Agrees :
      (pe : IsPersistable entry) (b : Builder) (s : SqliteBuilder)
      → Mirrors b s
      → IsTree b
      → AllAlike b entry
      → Agrees (snapshot_fs.Store.Memory.Builder.add entry b) (add_entry entry s)
  unfolding add_entry snapshot_fs.Store.Memory.Builder.add
  add_entry-Agrees pe b s m t alike =
      choose-Agrees b.finished b s (is_active s) (components entry entry.path) m.active m
        (opened-Agrees pe b s (components entry entry.path) refl m t alike)

  add-add_entry :
      IsPersistable entry
      → (s : SqliteBuilder) → snapshot_fs.Store.Sqlite.Builder.add entry s ≡ add_entry entry s
  unfolding snapshot_fs.Store.Sqlite.Builder.add
  add-add_entry pe s = rw (pe.encoded, snapshot_fs.Store.Sqlite.Builder.add) refl

  -- If a builder in memory is a tree, an SQLite builder mirrors it, the entry can be written,
  -- and every time in the builder compares with the entry's as it does once it is read back,
  -- then `add` has the same outcome on both, an exception included, and the builders that it
  -- leaves mirror each other: the same next inode, and a table with one row for each node.
  pub add-Mirrors :
      (b : Builder) (s : SqliteBuilder)
      → IsTree b
      → Mirrors b s
      → IsPersistable entry
      → AllAlike b entry
      → ((snapshot_fs.Store.Sqlite.Builder.add entry s).0
          ≡ (snapshot_fs.Store.Memory.Builder.add entry b).0)
        × Mirrors
            (snapshot_fs.Store.Memory.Builder.add entry b).1
            (snapshot_fs.Store.Sqlite.Builder.add entry s).1
  add-Mirrors b s t m pe alike =
      subst (Agrees (snapshot_fs.Store.Memory.Builder.add entry b)) (sym (add-add_entry pe s))
        (add_entry-Agrees pe b s m t alike)
