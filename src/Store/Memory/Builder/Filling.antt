-- ===== src/Store/Memory/Builder/Filling.antt =====
-- What the loop of `finish` fills: the nodes and the child tables of the store.
use snapshot_fs.Prelude.{
  ℕ, ◌≡◌, refl, sym, ◌∙◌, ap, subst, none, some, List, [], ◌∷◌, Bytes, ok, Bool-cases, Option-cases,
  inl, inr, ◌==◌, ==→eq, none≢some, some-injective,
}
use snapshot_fs.Dict.{Dict, get, put, values, nat_key, text_key}
use snapshot_fs.Dict.Laws.{get-put, get-put_self}
use snapshot_fs.Dict.Unique.{Unique, Each, Each-of_get}
use snapshot_fs.Model.Node.{Node}
use snapshot_fs.Store.Building.{MutableNode}
use snapshot_fs.Store.Memory.Builder.{Builder, children_of, child_map, finish_nodes}
use snapshot_fs.Store.Memory.Builder.Tree.{child_at, IsTree}
use snapshot_fs.Store.Memory.Builder.Publishable.{IsPublishable}
use snapshot_fs.Store.Memory.Builder.Ready.{IsReady}
use snapshot_fs.Store.Memory.Builder.Publishing.{node_of, publish-eq}
use snapshot_fs.Dict.Overlays.{Overlays, Overlays-nil, Overlays-cons}

-- The node under `id` has this name.
abbrev Named : Dict ℕ MutableNode → Bytes → ℕ → Type 0
Named nodes name id = (n : MutableNode) × (get id nodes ≡ some n) × (n.mounted_name ≡ name)

child_map-Overlays :
    (nodes : Dict ℕ MutableNode) (d old : Dict Bytes ℕ)
    → Unique d
    → Each (Named nodes) d
    → (new : Dict Bytes ℕ) × (child_map nodes (values d) old ≡ ok new) × Overlays d old new
unfolding child_map values
child_map-Overlays nodes [] old u each = (old, refl, Overlays-nil old)
child_map-Overlays nodes ((name, id) ∷ d) old (absent, u) ((n, held, named), each) =
    let (new, made, o) = child_map-Overlays nodes d (put name id old) u each in
    (new, rw (held, named) made, Overlays-cons name id d old new absent o)

-- What `finish` makes of the child table of a node: a table with the same children.
abbrev pub Children : Builder → ℕ → Dict Bytes ℕ → Type 0
Children b i names = (name : Bytes) → get name names ≡ child_at i name b

abbrev pub Finishes : Builder → ℕ → MutableNode → Type 0
Finishes b i n =
    (n.id ≡ i)
    × IsPublishable n
    × ((names : Dict Bytes ℕ) × (child_map b.nodes (values (children_of i b)) [] ≡ ok names)
        × Children b i names)

-- The two tables that `finish_nodes` fills from those of `old` and `old_children`.
pub record Filled (b : Builder) (d : Dict ℕ MutableNode) (old new : Dict ℕ Node)
    (old_children new_children : Dict ℕ (Dict Bytes ℕ)) : Type 0 where
  pub node_hit :
      (i : ℕ) (n : MutableNode) → get i d ≡ some n → get i new ≡ some (node_of b.snapshot n)
  pub node_miss : (i : ℕ) → get i d ≡ none → get i new ≡ get i old
  pub children_hit :
      (i : ℕ) (n : MutableNode)
      → get i d ≡ some n
      → (names : Dict Bytes ℕ) × (get i new_children ≡ some names) × Children b i names
  pub children_miss : (i : ℕ) → get i d ≡ none → get i new_children ≡ get i old_children

module _ (b : Builder) where
  Filled-nil :
      (nodes : Dict ℕ Node) (children : Dict ℕ (Dict Bytes ℕ))
      → Filled b [] nodes nodes children children
  unfolding get
  Filled-nil nodes children = record {
    node_hit = λ i n at. absurd (none≢some at);
    node_miss = λ i at. refl;
    children_hit = λ i n at. absurd (none≢some at);
    children_miss = λ i at. refl;
  }

  Filled-cons :
      (i : ℕ) (n : MutableNode) (d : Dict ℕ MutableNode) (old new : Dict ℕ Node)
      (old_children new_children : Dict ℕ (Dict Bytes ℕ)) (names : Dict Bytes ℕ)
      → get i d ≡ none
      → Children b i names
      → Filled b d (put i (node_of b.snapshot n) old) new (put i names old_children) new_children
      → Filled b ((i, n) ∷ d) old new old_children new_children
  unfolding get
  Filled-cons i n d old new old_children new_children names absent children f = record {
    node_hit = λ j m at. elim (Bool-cases (i == j)) [
      | inl here ↦
          subst (λ k. get k new ≡ some (node_of b.snapshot m)) (==→eq i j here)
            (f.node_miss i absent
              ∙ get-put_self i (node_of b.snapshot n) old
              ∙ ap (λ k. some (node_of b.snapshot k)) (some-injective _ _ (rw here at at)))
      | inr other ↦ f.node_hit j m (rw other at at)
    ];
    node_miss = λ j at. elim (Bool-cases (i == j)) [
      | inl here ↦ absurd (none≢some (sym (rw here at at)))
      | inr other ↦
          f.node_miss j (rw other at at) ∙ (rw other at (get-put j i (node_of b.snapshot n) old))
    ];
    children_hit = λ j m at. elim (Bool-cases (i == j)) [
      | inl here ↦
          subst (λ k. (ns : Dict Bytes ℕ) × (get k new_children ≡ some ns) × Children b k ns)
            (==→eq i j here)
            (names, f.children_miss i absent ∙ get-put_self i names old_children, children)
      | inr other ↦ f.children_hit j m (rw other at at)
    ];
    children_miss = λ j at. elim (Bool-cases (i == j)) [
      | inl here ↦ absurd (none≢some (sym (rw here at at)))
      | inr other ↦
          f.children_miss j (rw other at at) ∙ (rw other at (get-put j i names old_children))
    ];
  }

  finish_nodes-step :
      (i : ℕ) (n : MutableNode) (rest : List MutableNode) (nodes : Dict ℕ Node)
      (children : Dict ℕ (Dict Bytes ℕ)) (names : Dict Bytes ℕ)
      → n.id ≡ i
      → IsPublishable n
      → child_map b.nodes (values (children_of i b)) [] ≡ ok names
      → finish_nodes b (n ∷ rest) nodes children
        ≡ finish_nodes b rest (put i (node_of b.snapshot n) nodes) (put i names children)
  unfolding finish_nodes
  finish_nodes-step i n rest nodes children names id ready made =
      (rw
        (
          publish-eq b.snapshot n ready,
          subst (λ k. child_map b.nodes (values (children_of k b)) [] ≡ ok names) (sym id) made,
        )
        refl)
      ∙ ap (λ k. finish_nodes b rest (put k (node_of b.snapshot n) nodes) (put k names children)) id

  pub finish_nodes-Filled :
      (d : Dict ℕ MutableNode) (nodes : Dict ℕ Node) (children : Dict ℕ (Dict Bytes ℕ))
      → Unique d
      → Each (Finishes b) d
      → (new : Dict ℕ Node) × (new_children : Dict ℕ (Dict Bytes ℕ)) × (finish_nodes b
            (values d)
            nodes
            children
          ≡ ok (new, new_children))
        × Filled b d nodes new children new_children
  unfolding finish_nodes values
  finish_nodes-Filled [] nodes children u each = (nodes, children, refl, Filled-nil nodes children)
  finish_nodes-Filled ((i, n) ∷ d) nodes children (absent, u)
        ((id, ready, (names, made, same)), each) =
      let (new, new_children, done, f) =
        finish_nodes-Filled d (put i (node_of b.snapshot n) nodes) (put i names children) u each in
      (
        new,
        new_children,
        finish_nodes-step i n (values d) nodes children names id ready made ∙ done,
        Filled-cons i n d nodes new children new_children names absent same f,
      )

  child_map-Children :
      IsTree b
      → IsReady b
      → (i : ℕ)
      → (names : Dict Bytes ℕ) × (child_map b.nodes (values (children_of i b)) [] ≡ ok names)
        × Children b i names
  unfolding child_at
  child_map-Children t r i =
      let d = children_of i b in
      let named =
        Each-of_get (Named b.nodes) d (r.unique_children i)
          (λ name id at. let e = t.edge i name id at in (e.at, e.held, e.named)) in
      let (names, made, o) = child_map-Overlays b.nodes d [] (r.unique_children i) named in
      (
        names,
        made,
        λ name. elim (Option-cases (get name d)) [
          | inl absent ↦ o.miss name absent ∙ sym absent
          | inr (id, at) ↦ o.hit name id at ∙ sym at
        ],
      )

  pub Each-Finishes : IsTree b → IsReady b → Each (Finishes b) b.nodes
  Each-Finishes t r =
      Each-of_get (Finishes b) b.nodes r.unique_nodes
        (λ i n at. (t.numbered i n at, r.publishable i n at, child_map-Children t r i))
