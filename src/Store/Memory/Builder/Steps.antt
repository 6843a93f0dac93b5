-- ===== src/Store/Memory/Builder/Steps.antt =====
-- One step of `add`: the tree that it keeps, and the node that it arrives at.
use snapshot_fs.Prelude.{
  ℕ, ◌≡◌, refl, sym, ◌∙◌, subst, Bool, true, false, Option, none, some, Bytes, Result, ok, err,
  ok-injective, ok≢err, arith, if◌then◌else◌, Bool-cases, inl, inr, is_some,
}
use snapshot_fs.Dict.{get, put, nat_key, text_key}
use snapshot_fs.Dict.Laws.{get-put_self}
use snapshot_fs.Model.Enums.{NodeKind, kind_is, kind_is→eq}
use snapshot_fs.Model.Entry.{ParsedEntry}
use snapshot_fs.Store.Building.{Exception, MutableNode, merge, conflict}
use snapshot_fs.Store.Building.Merging.{
  SamePlace, SamePlace-refl, SameData, merge-SamePlace, merge-SameData, merge-observed,
}
use snapshot_fs.Store.Memory.Builder.{
  Builder, set_default, created, create, existing, merge_into, settle, enter, visit,
}
use snapshot_fs.Store.Memory.Builder.Tree.{
  child_at, IsDirectory, IsTree, SameTree, SameTree-set_default, IsTree-same, IsTree-create,
  create-grows, get-create_self, create-keeps, child_at-create_self, child_at-replace,
  IsTree-replace, replace_keeps, replace,
}

-- Nodes keep their place and edges are never removed.
pub record Grows (b c : Builder) : Type 0 where
  pub places :
      (i : ℕ) (n : MutableNode)
      → get i b.nodes ≡ some n
      → (m : MutableNode) × (get i c.nodes ≡ some m) × SamePlace n m
  pub edges :
      (p : ℕ) (name : Bytes) (k : ℕ) → child_at p name b ≡ some k → child_at p name c ≡ some k

pub Grows-refl : (b : Builder) → Grows b b
Grows-refl b = record { places = λ i n h. (n, h, SamePlace-refl n); edges = λ p name k h. h }

SamePlace-trans : {n m k : MutableNode} → SamePlace n m → SamePlace m k → SamePlace n k
SamePlace-trans a b = record {
  id = b.id ∙ a.id;
  parent_id = b.parent_id ∙ a.parent_id;
  mounted_name = b.mounted_name ∙ a.mounted_name;
  kind = b.kind ∙ a.kind;
}

pub Grows-trans : {b c d : Builder} → Grows b c → Grows c d → Grows b d
Grows-trans g h = record {
  places = λ i n held.
      let (m, at_m, first) = g.places i n held in
      let (k, at_k, second) = h.places i m at_m in (k, at_k, SamePlace-trans first second);
  edges = λ p name k e. h.edges p name k (g.edges p name k e);
}

pub IsDirectory-Grows : {b c : Builder} {i : ℕ} → Grows b c → IsDirectory b i → IsDirectory c i
IsDirectory-Grows {i = i} g d =
    let (m, held, same) = g.places i d.at d.held in
    record { at = m; held = held; directory = same.kind ∙ d.directory }

-- What the loop leaves at the node of the last component.
pub record Reflects (entry : ParsedEntry) (b : Builder) (i : ℕ) : Type 0 where
  pub at : MutableNode
  pub held : get i b.nodes ≡ some at
  pub kind : at.kind ≡ entry.kind
  pub observed : is_some at.observation ≡ true
  pub file_data : entry.kind ≡ NodeKind.file → SameData at entry

abbrev pub Arrives : ParsedEntry → Bool → Builder → ℕ → Type 0
Arrives entry final b i = if final then Reflects entry b i else IsDirectory b i

abbrev wanted : ParsedEntry → Bool → NodeKind
wanted entry final = if final then entry.kind else NodeKind.directory

-- The outcome `out` of a step from `b`, meant to end at node `i`.
record Steps (entry : ParsedEntry) (final : Bool) (b : Builder) (i : ℕ)
    (out : Result Exception ℕ × Builder) : Type 0 where
  tree : IsTree out.1
  grows : Grows b out.1
  lands : (k : ℕ) → out.0 ≡ ok k → (k ≡ i) × Arrives entry final out.1 i

module _ (entry : ParsedEntry) (b : Builder) (n : MutableNode) (t : IsTree b)
    (held : get n.id b.nodes ≡ some n) where
  Grows-replace : (m : MutableNode) → SamePlace n m → Grows b (replace m b)
  Grows-replace m place = record {
    places = replace_keeps b n m t held place;
    edges = λ p name k h. child_at-replace b n m t held place p name ∙ h;
  }

  merge_into-Steps : n.kind ≡ entry.kind → Steps entry true b n.id (merge_into entry n b)
  unfolding merge_into
  merge_into-Steps kind = go (merge n entry) refl
    where
      go :
          (r : Result Exception MutableNode)
          → merge n entry ≡ r
          → Steps entry true b n.id (elim r [
            | ok n' ↦ (ok n'.id, record b { nodes = put n'.id n' b.nodes })
            | err e ↦ (err e, b)
          ])
      go (ok m) e =
          let place = merge-SamePlace n m entry e in
          record {
            tree = IsTree-replace b n m t held place;
            grows = Grows-replace m place;
            lands = λ k h. (
              sym (ok-injective h) ∙ place.id,
              record {
                at = m;
                held =
                    subst (λ i. get i (put m.id m b.nodes) ≡ some m) place.id
                      (get-put_self m.id m b.nodes);
                kind = place.kind ∙ kind;
                observed = merge-observed n m entry e;
                file_data = λ is_file. merge-SameData n m entry (kind ∙ is_file) e;
              },
            );
          }
      go (err x) e = record { tree = t; grows = Grows-refl b; lands = λ k h. absurd (ok≢err h) }

  settle-Steps :
      (final : Bool)
      → n.kind ≡ wanted entry final
      → Steps entry final b n.id (settle entry final (ok n) b)
  unfolding settle
  settle-Steps true kind = merge_into-Steps kind
  settle-Steps false kind = record {
    tree = t;
    grows = Grows-refl b;
    lands = λ k h. (sym (ok-injective h), record { at = n; held = held; directory = kind });
  }

Steps-from :
    {entry : ParsedEntry} {final : Bool} {b c : Builder} {i : ℕ}
    {out : Result Exception ℕ × Builder}
    → Grows b c
    → Steps entry final c i out
    → Steps entry final b i out
Steps-from g s = record { tree = s.tree; grows = Grows-trans g s.grows; lands = s.lands }

-- Where the entry's component leads once the step is done.
pub record Enters (entry : ParsedEntry) (final : Bool) (name : Bytes) (p : ℕ) (b : Builder)
    (out : Result Exception ℕ × Builder) : Type 0 where
  pub tree : IsTree out.1
  pub grows : Grows b out.1
  pub lands :
      (k : ℕ) → out.0 ≡ ok k → (child_at p name out.1 ≡ some k) × Arrives entry final out.1 k

Enters-of_Steps :
    {entry : ParsedEntry} {final : Bool} {name : Bytes} {p : ℕ} {b : Builder} {i : ℕ}
    {out : Result Exception ℕ × Builder} (c : Builder)
    → Grows b c
    → child_at p name c ≡ some i
    → Steps entry final c i out
    → Enters entry final name p b out
Enters-of_Steps {entry} {final} {name} {p} {i = i} {out = out} c g at s = record {
  tree = s.tree;
  grows = Grows-trans g s.grows;
  lands = λ k h.
      let (same, arrived) = s.lands k h in
      (rw same (s.grows.edges p name i at), subst (Arrives entry final out.1) (sym same) arrived);
}

module _ (entry : ParsedEntry) (index : ℕ) (final : Bool) (name : Bytes) (p : ℕ) (b : Builder)
    (t : IsTree b) (dir : IsDirectory b p) where
  Grows-create :
      (n : MutableNode)
      → n.id ≡ b.next_id
      → n.parent_id ≡ some p
      → child_at p n.mounted_name b ≡ none
      → Grows b (create p n b)
  Grows-create n id parent absent = record {
    places = λ i m h. (m, create-grows b p n t i m h, SamePlace-refl m);
    edges = create-keeps b p n t id parent dir absent;
  }

  enter-none :
      child_at p name b ≡ none → Enters entry final name p b (enter entry index final name p none b)
  unfolding enter created
  enter-none absent =
      let n = created entry index (wanted entry final) name p b in
      Enters-of_Steps (create p n b) (Grows-create n refl refl absent)
        (child_at-create_self b p n t refl refl dir absent)
        (settle-Steps entry (create p n b) n (IsTree-create b p n t refl refl dir absent)
          (get-create_self b p n t) final refl)

  existing-held :
      (kind : NodeKind) (k : ℕ) (n : MutableNode)
      → get k b.nodes ≡ some n
      → existing entry kind k b ≡ (
          if kind_is n.kind kind
          then ok n
          else err (conflict n entry "file/directory type conflict"))
  unfolding existing
  existing-held kind k n held = ground arith

  enter-some :
      (k : ℕ)
      → child_at p name b ≡ some k
      → Enters entry final name p b (enter entry index final name p (some k) b)
  unfolding enter
  enter-some k at =
      let edge = t.edge p name k at in
      let n = edge.at in
      let id = t.numbered k n edge.held in
      elim (Bool-cases (kind_is n.kind (wanted entry final))) [
        | inl same ↦
            rw (existing-held (wanted entry final) k n edge.held, same)
              (Enters-of_Steps b (Grows-refl b) (rw id at) (
                settle-Steps entry b n t (subst (λ x. get x b.nodes ≡ some n) (sym id) edge.held)
                  final (kind_is→eq _ _ same)))
        | inr differs ↦
            rw (existing-held (wanted entry final) k n edge.held, differs)
              (record { tree = t; grows = Grows-refl b; lands = λ j h. absurd (ok≢err h) })
      ]

  enter-Enters :
      (o : Option ℕ)
      → child_at p name b ≡ o
      → Enters entry final name p b (enter entry index final name p o b)
  enter-Enters none at = enter-none at
  enter-Enters (some k) at = enter-some k at

Grows-SameTree : {b c : Builder} → SameTree b c → Grows b c
Grows-SameTree s = record {
  places = λ i n h. (n, s.nodes i ∙ h, SamePlace-refl n);
  edges = λ p name k h. s.edges p name ∙ h;
}

-- The body of the loop, from a tree and a directory in it.
pub visit-Enters :
    (entry : ParsedEntry) (index : ℕ) (final : Bool) (name : Bytes) (p : ℕ) (b : Builder)
    → IsTree b
    → IsDirectory b p
    → Enters entry final name p b (visit entry index final name p b)
unfolding visit child_at
visit-Enters entry index final name p b t dir =
    let same = SameTree-set_default p b in
    let grows = Grows-SameTree same in
    let c = set_default p b in
    let e =
      enter-Enters entry index final name p c (IsTree-same same t) (IsDirectory-Grows grows dir)
        (child_at p name c) refl in
    record { tree = e.tree; grows = Grows-trans grows e.grows; lands = e.lands }
