-- ===== src/Store/Memory/Builder/Ready.antt =====
-- What `finish` needs beyond the tree: unique keys, and nodes that `Node` accepts.
use snapshot_fs.Prelude.{
  ℕ, ◌+◌, ◌≡◌, refl, sym, ◌∙◌, subst, Bool, true, false, Option, none, some, List, [], ◌∷◌, Bytes,
  Result, ok, err, ◌⊎◌, arith, if◌then◌else◌, ◌==◌, Bool-cases, Option-cases, Result-cases, inl,
  inr, some-injective,
}
use snapshot_fs.Dict.{Dict, get, put, nat_key, text_key}
use snapshot_fs.Dict.Laws.{get-put}
use snapshot_fs.Dict.Unique.{Unique, Unique-put}
use snapshot_fs.Model.Enums.{NodeKind, kind_is, kind_is→eq}
use snapshot_fs.Model.Entry.{ParsedEntry}
use snapshot_fs.Model.Snapshot.{Snapshot}
use snapshot_fs.Store.Building.{Exception, key_error, MutableNode, merge, components, conflict}
use snapshot_fs.Store.Memory.Builder.{
  Builder, builder, children_of, set_default, created, create, existing, merge_into, settle, enter,
  visit, add_from, add, fresh_node, is_last,
}
use snapshot_fs.Store.Memory.Builder.Publishable.{
  IsChecked, IsPublishable, fresh_node-IsPublishable, merge-IsPublishable,
}

pub record IsReady (b : Builder) : Type 0 where
  pub unique_nodes : Unique b.nodes
  pub unique_children : (p : ℕ) → Unique (children_of p b)
  pub publishable : (i : ℕ) (n : MutableNode) → get i b.nodes ≡ some n → IsPublishable n

children_of-put :
    (q p : ℕ) (names : Dict Bytes ℕ) (b : Builder)
    → children_of q (record b { children = put p names b.children })
      ≡ (if p == q then names else children_of q b)
unfolding children_of
children_of-put q p names b = ground (arith, get-put q p names b.children)

IsReady-children :
    (p : ℕ) (names : Dict Bytes ℕ) (b : Builder)
    → Unique names
    → IsReady b
    → IsReady (record b { children = put p names b.children })
IsReady-children p names b u r = record {
  unique_nodes = r.unique_nodes;
  unique_children = λ q. elim (Bool-cases (p == q)) [
    | inl here ↦ rw (children_of-put q p names b, here) u
    | inr other ↦ rw (children_of-put q p names b, other) (r.unique_children q)
  ];
  publishable = r.publishable;
}

IsReady-node :
    (i : ℕ) (n : MutableNode) (b : Builder)
    → IsPublishable n
    → IsReady b
    → IsReady (record b { nodes = put i n b.nodes })
unfolding children_of
IsReady-node i n b p r = record {
  unique_nodes = Unique-put i n b.nodes r.unique_nodes;
  unique_children = r.unique_children;
  publishable = λ j m at. elim (Bool-cases (i == j)) [
    | inl here ↦
        subst IsPublishable (some-injective _ _ (sym (rw here at (get-put j i n b.nodes)) ∙ at)) p
    | inr other ↦ r.publishable j m (sym (rw other at (get-put j i n b.nodes)) ∙ at)
  ];
}

IsReady-next_id : (k : ℕ) (b : Builder) → IsReady b → IsReady (record b { next_id = k })
unfolding children_of
IsReady-next_id k b r = record {
  unique_nodes = r.unique_nodes;
  unique_children = r.unique_children;
  publishable = r.publishable;
}

pub set_default_cases :
    (p : ℕ) (b : Builder)
    → (set_default p b ≡ b) ⊎ (set_default p b ≡ record b { children = put p [] b.children })
unfolding set_default
set_default_cases p b = ground arith

IsReady-set_default : (p : ℕ) (b : Builder) → IsReady b → IsReady (set_default p b)
IsReady-set_default p b r = elim (set_default_cases p b) [
  | inl same ↦ subst IsReady (sym same) r
  | inr new ↦ subst IsReady (sym new) (IsReady-children p [] b tt r)
]

IsReady-create :
    (p : ℕ) (n : MutableNode) (b : Builder) → IsPublishable n → IsReady b → IsReady (create p n b)
unfolding create
IsReady-create p n b ok_node r =
    let names = put n.mounted_name b.next_id (children_of p b) in
    let unique = Unique-put n.mounted_name b.next_id (children_of p b) (r.unique_children p) in
    let linked = IsReady-children p names b unique r in
    let added = record b { children = put p names b.children } in
    let emptied = IsReady-children b.next_id [] added tt linked in
    IsReady-next_id (b.next_id + 1) _ (IsReady-node b.next_id n _ ok_node emptied)

module _ (entry : ParsedEntry) (c : IsChecked entry) where
  IsReady-merge_into :
      (n : MutableNode) (b : Builder)
      → n.kind ≡ entry.kind
      → IsPublishable n
      → IsReady b
      → IsReady (merge_into entry n b).1
  unfolding merge_into
  IsReady-merge_into n b kind p r = elim (Result-cases (merge n entry)) [
    | inl (m, merged) ↦
        rw (merged, merge_into)
          (IsReady-node m.id m b (merge-IsPublishable n m entry merged kind c p) r)
    | inr (e, failed) ↦ rw (failed, merge_into) r
  ]

  IsReady-settle :
      (final : Bool) (n : MutableNode) (b : Builder)
      → n.kind ≡ (if final then entry.kind else NodeKind.directory)
      → IsPublishable n
      → IsReady b
      → IsReady (settle entry final (ok n) b).1
  unfolding settle
  IsReady-settle true n b kind p r = IsReady-merge_into n b kind p r
  IsReady-settle false n b kind p r = r

  existing_found :
      (kind : NodeKind) (k : ℕ) (b : Builder)
      → ((n : MutableNode) × (get k b.nodes ≡ some n)
          × (n.kind ≡ kind)
          × (existing entry kind k b ≡ ok n))
        ⊎ ((e : Exception) × (existing entry kind k b ≡ err e))
  unfolding existing
  existing_found kind k b = elim (Option-cases (get k b.nodes)) [
    | inl nothing ↦ inr (key_error, rw (nothing, existing))
    | inr (n, held) ↦ elim (Bool-cases (kind_is n.kind kind)) [
      | inl same ↦ inl (n, held, kind_is→eq n.kind kind same, rw (held, existing) (rw same))
      | inr differs ↦
          inr (conflict n entry "file/directory type conflict", rw (held, existing) (rw differs))
    ]
  ]

  IsReady-enter :
      (index : ℕ) (final : Bool) (name : Bytes) (p : ℕ) (o : Option ℕ) (b : Builder)
      → IsReady b
      → IsReady (enter entry index final name p o b).1
  unfolding enter created
  IsReady-enter index final name p none b r =
      let kind = if final then entry.kind else NodeKind.directory in
      let n = created entry index kind name p b in
      let fresh = fresh_node-IsPublishable b.next_id (some p) name n.original_path kind in
      IsReady-settle final n (create p n b) refl fresh (IsReady-create p n b fresh r)
  IsReady-enter index final name p (some k) b r =
      let kind = if final then entry.kind else NodeKind.directory in
      elim (existing_found kind k b) [
        | inl (n, held, same, at) ↦ rw at (IsReady-settle final n b same (r.publishable k n held) r)
        | inr (e, failed) ↦ rw failed (unfold settle in r)
      ]

  IsReady-visit :
      (index : ℕ) (final : Bool) (name : Bytes) (p : ℕ) (b : Builder)
      → IsReady b
      → IsReady (visit entry index final name p b).1
  unfolding visit
  IsReady-visit index final name p b r =
      IsReady-enter index final name p (get name (children_of p (set_default p b)))
        (set_default p b) (IsReady-set_default p b r)

  after_visit :
      (out : Result Exception ℕ × Builder)
      (rest : ℕ → Builder → Result Exception (Unit {0}) × Builder)
      → IsReady out.1
      → ((k : ℕ) → IsReady (rest k out.1).1)
      → IsReady
          (let next = elim out.0 as (λ _. Result Exception (Unit {0}) × Builder) [
            | ok k ↦ rest k out.1
            | err e ↦ (err e, out.1)
          ] in
            next).1
  after_visit (ok k, b) rest r h = h k
  after_visit (err e, b) rest r h = r

  IsReady-add_from :
      (index : ℕ) (names : List Bytes) (p : ℕ) (b : Builder)
      → IsReady b
      → IsReady (add_from entry index names p b).1
  unfolding add_from
  IsReady-add_from index [] p b r = r
  IsReady-add_from index (name ∷ rest) p b r =
      let ready = IsReady-visit index (is_last rest) name p b r in
      after_visit (visit entry index (is_last rest) name p b) (add_from entry (index + 1) rest)
        ready
        (λ k.
          IsReady-add_from (index + 1) rest k (visit entry index (is_last rest) name p b).1 ready)

  -- If the tables of a builder have unique keys and nodes that `Node` accepts, then so does
  -- the builder after `add` of an entry as its constructor leaves it, whether `add` returns
  -- or raises.
  pub add-IsReady : (b : Builder) → IsReady b → IsReady (add entry b).1
  unfolding add
  add-IsReady b r = elim (Bool-cases b.finished) [
    | inl done ↦ simp done r
    | inr open' ↦ elim (Result-cases (components entry entry.path)) [
      | inl (names, checked) ↦ simp (open', checked) (IsReady-add_from 0 names 1 b r)
      | inr (e, failed) ↦ simp (open', failed) r
    ]
  ]

module _ (s : Snapshot) where
  no_children : (p : ℕ) → children_of p (builder s) ≡ []
  unfolding builder children_of get
  no_children p = ground arith

  pub only_root :
      (i : ℕ) (n : MutableNode)
      → get i (builder s).nodes ≡ some n
      → fresh_node 1 none [] none NodeKind.directory ≡ n
  unfolding builder get
  only_root i n h = ground arith

  pub IsReady-builder : IsReady (builder s)
  unfolding builder get
  IsReady-builder = record {
    unique_nodes = (refl, tt);
    unique_children = λ p. subst (Unique {K = Bytes}) (sym (no_children p)) tt;
    publishable = λ i n h.
        subst IsPublishable (only_root i n h)
          (fresh_node-IsPublishable 1 none [] none NodeKind.directory);
  }
