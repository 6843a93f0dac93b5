-- ===== src/Store/Memory/Builder/Adding.antt =====
-- `add` on the tree: where the path of an added entry leads.
use snapshot_fs.Prelude.{
  ℕ, Text, ◌+◌, ◌≡◌, refl, sym, ◌∙◌, ap, subst, Bool, true, false, Option, none, some, List, [],
  ◌∷◌, Bytes, Result, ok, err, ok≢err, arith, Bool-cases, Result-cases, inl, inr,
}
use snapshot_fs.Dict.{get, nat_key, text_key}
use snapshot_fs.Model.Entry.{ParsedEntry}
use snapshot_fs.Model.Snapshot.{Snapshot}
use snapshot_fs.Store.Building.{Exception, components, components_of}
use snapshot_fs.Store.Memory.Builder.{
  Builder, children_of, visit, add_from, add, builder, finished_error,
}
use snapshot_fs.Store.Memory.Builder.Tree.{child_at, IsDirectory, IsTree}
use snapshot_fs.Store.Memory.Builder.Steps.{
  Grows, Grows-refl, Grows-trans, Reflects, Enters, visit-Enters,
}

-- Following the child tables from a node.
unfoldable pub resolve_from : Builder → ℕ → List Bytes → Option ℕ
unfolding child_at
resolve_from b p [] = some p
resolve_from b p (name ∷ names) = elim (child_at p name b) [
  | none ↦ none
  | some k ↦ resolve_from b k names
]

pub resolve_from-cons :
    (b : Builder) (p : ℕ) (name : Bytes) (names : List Bytes) {k : ℕ}
    → resolve_from b p (name ∷ names) ≡ some k
    → (j : ℕ) × (child_at p name b ≡ some j) × (resolve_from b j names ≡ some k)
unfolding resolve_from
resolve_from-cons b p name names h = ground arith

pub resolve_from-Grows :
    {b c : Builder} (p : ℕ) (names : List Bytes) (k : ℕ)
    → Grows b c
    → resolve_from b p names ≡ some k
    → resolve_from c p names ≡ some k
unfolding resolve_from
resolve_from-Grows p [] k g h = h
resolve_from-Grows {b} {c} p (name ∷ names) k g h =
    let (j, at, e) = resolve_from-cons b p name names h in
    rw (g.edges p name j at, resolve_from) (resolve_from-Grows j names k g e)

pub record Adds (entry : ParsedEntry) (names : List Bytes) (p : ℕ) (b : Builder)
    (out : Result Exception (Unit {0}) × Builder) : Type 0 where
  pub tree : IsTree out.1
  pub grows : Grows b out.1
  pub lands :
      out.0 ≡ ok tt → (k : ℕ) × (resolve_from out.1 p names ≡ some k) × Reflects entry out.1 k

-- The loop: a step that enters `name`, and what is done from there.
Adds-cons :
    (entry : ParsedEntry) (final : Bool) (name : Bytes) (names : List Bytes) (p : ℕ) (b : Builder)
    (out : Result Exception ℕ × Builder)
    (rest : ℕ → Builder → Result Exception (Unit {0}) × Builder)
    → Enters entry final name p b out
    → ((k : ℕ) → out.0 ≡ ok k → Adds entry names k out.1 (rest k out.1))
    → Adds entry (name ∷ names) p b (elim out.0 [ ok k ↦ rest k out.1 | err e ↦ (err e, out.1) ])
unfolding resolve_from
Adds-cons entry final name names p b (ok k, c) rest e h =
    let r = h k refl in
    let at = r.grows.edges p name k (e.lands k refl).0 in
    record {
      tree = r.tree;
      grows = Grows-trans e.grows r.grows;
      lands = λ done.
          let (j, there, reflects) = r.lands done in (j, rw (at, resolve_from) there, reflects);
    }
Adds-cons entry final name names p b (err x, c) rest e h = record {
  tree = e.tree;
  grows = e.grows;
  lands = λ done. absurd (ok≢err done);
}

pub add_from-Adds :
    (entry : ParsedEntry) (index : ℕ) (name : Bytes) (names : List Bytes) (p : ℕ) (b : Builder)
    → IsTree b
    → IsDirectory b p
    → Adds entry (name ∷ names) p b (add_from entry index (name ∷ names) p b)
unfolding add_from resolve_from
add_from-Adds entry index name [] p b t dir =
    let e = visit-Enters entry index true name p b t dir in
    Adds-cons entry true name [] p b (visit entry index true name p b) (λ k c. (ok tt, c)) e
      λ k h. record { tree = e.tree; grows = Grows-refl _; lands = λ _. (k, refl, (e.lands k h).1) }
add_from-Adds entry index name (next ∷ names) p b t dir =
    let e = visit-Enters entry index false name p b t dir in
    Adds-cons entry false name (next ∷ names) p b (visit entry index false name p b)
      (add_from entry (index + 1) (next ∷ names)) e
      λ k h.
        add_from-Adds entry (index + 1) next names k (visit entry index false name p b).1 e.tree
          (e.lands k h).1

pub IsTree-builder : (s : Snapshot) → IsTree (builder s)
unfolding builder child_at children_of get
IsTree-builder s = record {
  bounded = λ i n h. ground arith;
  numbered = λ i n h. ground arith;
  root = record { at = _; held = refl; directory = refl };
  rooted = λ i n h e. ground arith;
  edge = λ p name c h. ground arith;
  listed = λ i n p h e. ground arith;
}

-- Components are never empty, so the loop runs at least once.
pub components-cons :
    (entry : ParsedEntry) (path : List Text) (names : List Bytes)
    → components entry path ≡ ok names
    → (name : Bytes) × (rest : List Bytes) × (names ≡ name ∷ rest)
unfolding components components_of
components-cons entry path names h = ground arith

abbrev pub resolve : Builder → List Bytes → Option ℕ
resolve b = resolve_from b 1

-- Either nothing is touched, or the loop runs over the checked components.
data AddCase (entry : ParsedEntry) (b : Builder) (out : Result Exception (Unit {0}) × Builder)
    : Type 0 where
  refused : (e : Exception) → out ≡ (err e, b) → AddCase entry b out
  ran :
      (name : Bytes) (rest : List Bytes)
      → components entry entry.path ≡ ok (name ∷ rest)
      → out ≡ add_from entry 0 (name ∷ rest) 1 b
      → AddCase entry b out

add_case : (entry : ParsedEntry) (b : Builder) → AddCase entry b (add entry b)
unfolding add
add_case entry b = elim (Bool-cases b.finished) [
  | inl done ↦ refused finished_error (simp done)
  | inr open' ↦ elim (Result-cases (components entry entry.path)) [
    | inl (names, checked) ↦
        let (name, rest, split) = components-cons entry entry.path names checked in
        ran name rest (checked ∙ ap ok split) (simp (open', checked) (rw split))
    | inr (e, failed) ↦ refused e (simp (open', failed))
  ]
]

-- If a builder is a tree, then so is the builder after `add`, whether `add` returns or
-- raises.
pub add-IsTree : (entry : ParsedEntry) (b : Builder) → IsTree b → IsTree (add entry b).1
add-IsTree entry b t = elim (add_case entry b) [
  | refused e same ↦ rw same t
  | ran name rest checked same ↦ rw same (add_from-Adds entry 0 name rest 1 b t t.root).tree
]

-- If a builder is a tree, then after `add` every node is still there with its parent, name
-- and kind, and so is every edge, whether `add` returns or raises.
pub add-Grows : (entry : ParsedEntry) (b : Builder) → IsTree b → Grows b (add entry b).1
add-Grows entry b t = elim (add_case entry b) [
  | refused e same ↦ rw same (Grows-refl b)
  | ran name rest checked same ↦ rw same (add_from-Adds entry 0 name rest 1 b t t.root).grows
]

-- If a builder is a tree and `add` returns, then the path of the entry has valid
-- components, and these lead from the root to a node of the entry's kind that has been
-- observed and, for a file, has the entry's size and content and a time that compares
-- equal.
pub add-resolves :
    (entry : ParsedEntry) (b : Builder)
    → IsTree b
    → (add entry b).0 ≡ ok tt
    → (names : List Bytes) × (components entry entry.path ≡ ok names)
      × ((k : ℕ) × (resolve (add entry b).1 names ≡ some k) × Reflects entry (add entry b).1 k)
add-resolves entry b t done = elim (add_case entry b) [
  | refused e same ↦
      absurd (ok≢err (sym (ap (λ (o : Result Exception (Unit {0}) × Builder). o.0) same) ∙ done))
  | ran name rest checked same ↦ (
    name ∷ rest,
    checked,
    subst (λ o. (k : ℕ) × (resolve o.1 (name ∷ rest) ≡ some k) × Reflects entry o.1 k) (sym same)
        ((add_from-Adds entry 0 name rest 1 b t t.root).lands
          (sym (ap (λ (o : Result Exception (Unit {0}) × Builder). o.0) same) ∙ done)),
  )
]
