-- ===== src/Store/Memory/Builder/Tree.antt =====
-- The invariant of the builder: its nodes form one tree of directories under inode 1, and the
-- child tables list exactly the tree's edges.
use snapshot_fs.Prelude.{
  ℕ, ◌+◌, ◌<◌, ◌≡◌, refl, sym, ◌∙◌, ap, subst, Option, none, some, [], Bytes, arith, if◌then◌else◌,
  ◌==◌, ==→eq, text_eq, text_eq→eq, text_eq_refl, ◌⊎◌, Bool-cases, inl, inr,
}
use snapshot_fs.Dict.{get, put, nat_key, text_key}
use snapshot_fs.Dict.Laws.{get-put}
use snapshot_fs.Model.Enums.{NodeKind}
use snapshot_fs.Store.Building.{MutableNode}
use snapshot_fs.Store.Building.Merging.{SamePlace, SamePlace-refl}
use snapshot_fs.Store.Memory.Builder.{Builder, children_of, set_default, create}

unfoldable pub child_at : ℕ → Bytes → Builder → Option ℕ
unfolding get children_of
child_at parent_id name b = get name (children_of parent_id b)

abbrev pub HasNode : Builder → ℕ → Type 0
HasNode b i = (n : MutableNode) × (get i b.nodes ≡ some n)

pub record IsDirectory (b : Builder) (i : ℕ) : Type 0 where
  pub at : MutableNode
  pub held : get i b.nodes ≡ some at
  pub directory : at.kind ≡ NodeKind.directory

pub record IsChild (b : Builder) (p : ℕ) (name : Bytes) (c : ℕ) : Type 0 where
  pub at : MutableNode
  pub held : get c b.nodes ≡ some at
  pub parent : at.parent_id ≡ some p
  pub named : at.mounted_name ≡ name
  pub below : IsDirectory b p
  pub later : p < c

pub record IsTree (b : Builder) : Type 0 where
  pub bounded : (i : ℕ) (n : MutableNode) → get i b.nodes ≡ some n → i < b.next_id
  pub numbered : (i : ℕ) (n : MutableNode) → get i b.nodes ≡ some n → n.id ≡ i
  pub root : IsDirectory b 1
  pub rooted : (i : ℕ) (n : MutableNode) → get i b.nodes ≡ some n → n.parent_id ≡ none → i ≡ 1
  pub edge : (p : ℕ) (name : Bytes) (c : ℕ) → child_at p name b ≡ some c → IsChild b p name c
  pub listed :
      (i : ℕ) (n : MutableNode) (p : ℕ)
      → get i b.nodes ≡ some n
      → n.parent_id ≡ some p
      → child_at p n.mounted_name b ≡ some i

get-create :
    (i p : ℕ) (n : MutableNode) (b : Builder)
    → get i (create p n b).nodes ≡ (if b.next_id == i then some n else get i b.nodes)
unfolding create
get-create i p n b = get-put i b.next_id n b.nodes

child_at-create :
    (q : ℕ) (m : Bytes) (p : ℕ) (n : MutableNode) (b : Builder)
    → child_at q m (create p n b) ≡ (
        if b.next_id == q
        then none
        else if p == q
        then (if text_eq n.mounted_name m then some b.next_id else child_at p m b)
        else child_at q m b)
unfolding child_at create children_of
child_at-create q m p n b = ground (
  arith,
  get-put q b.next_id [] (put p (put n.mounted_name b.next_id (children_of p b)) b.children),
  get-put q p (put n.mounted_name b.next_id (children_of p b)) b.children,
  get-put m n.mounted_name b.next_id (children_of p b),
)

child_at-set_default :
    (q : ℕ) (m : Bytes) (p : ℕ) (b : Builder) → child_at q m (set_default p b) ≡ child_at q m b
unfolding child_at set_default children_of get
child_at-set_default q m p b = ground (arith, get-put q p [] b.children)

next_id-create : (p : ℕ) (n : MutableNode) (b : Builder) → (create p n b).next_id ≡ b.next_id + 1
unfolding create
next_id-create p n b = refl

-- Where nodes and edges are the same, so is the tree.
pub record SameTree (b c : Builder) : Type 0 where
  pub nodes : (i : ℕ) → get i c.nodes ≡ get i b.nodes
  pub next_id : c.next_id ≡ b.next_id
  pub edges : (p : ℕ) (name : Bytes) → child_at p name c ≡ child_at p name b

pub SameTree-set_default : (p : ℕ) (b : Builder) → SameTree b (set_default p b)
unfolding set_default
SameTree-set_default p b = record {
  nodes = λ i. ground arith;
  next_id = ground arith;
  edges = λ q name. child_at-set_default q name p b;
}

module _ {b c : Builder}
    (nodes_grow : (i : ℕ) (n : MutableNode) → get i b.nodes ≡ some n → get i c.nodes ≡ some n) where
  pub IsDirectory-grow : {i : ℕ} → IsDirectory b i → IsDirectory c i
  IsDirectory-grow d = record {
    at = d.at;
    held = nodes_grow _ d.at d.held;
    directory = d.directory;
  }

  pub IsChild-grow : {p : ℕ} {name : Bytes} {k : ℕ} → IsChild b p name k → IsChild c p name k
  IsChild-grow e = record {
    at = e.at;
    held = nodes_grow _ e.at e.held;
    parent = e.parent;
    named = e.named;
    below = IsDirectory-grow e.below;
    later = e.later;
  }

pub IsTree-same : {b c : Builder} → SameTree b c → IsTree b → IsTree c
IsTree-same {b} {c} s t = record {
  bounded = λ i n h. rw s.next_id (t.bounded i n (sym (s.nodes i) ∙ h));
  numbered = λ i n h. t.numbered i n (sym (s.nodes i) ∙ h);
  root = IsDirectory-grow grow t.root;
  rooted = λ i n h. t.rooted i n (sym (s.nodes i) ∙ h);
  edge = λ p name k h. IsChild-grow grow (t.edge p name k (sym (s.edges p name) ∙ h));
  listed = λ i n p h q. s.edges p n.mounted_name ∙ t.listed i n p (sym (s.nodes i) ∙ h) q;
}
  where
    grow : (i : ℕ) (n : MutableNode) → get i b.nodes ≡ some n → get i c.nodes ≡ some n
    grow i n h = s.nodes i ∙ h

-- A new node under a directory that has no child of its name.
module _ (b : Builder) (p : ℕ) (n : MutableNode) (t : IsTree b) where
  pub create-grows :
      (i : ℕ) (m : MutableNode) → get i b.nodes ≡ some m → get i (create p n b).nodes ≡ some m
  create-grows i m h = ground (arith, get-create i p n b, t.bounded i m h)

  pub get-create_self : get b.next_id (create p n b).nodes ≡ some n
  get-create_self = ground (arith, get-create b.next_id p n b)

  module _ (id : n.id ≡ b.next_id) (parent : n.parent_id ≡ some p) (dir : IsDirectory b p)
      (absent : child_at p n.mounted_name b ≡ none) where
    pub create-keeps :
        (q : ℕ) (name : Bytes) (c : ℕ)
        → child_at q name b ≡ some c
        → child_at q name (create p n b) ≡ some c
    create-keeps q name c h =
        let below = (t.edge q name c h).below in
        ground (
          arith,
          child_at-create q name p n b,
          text_eq→eq n.mounted_name name,
          t.bounded q below.at below.held,
        )

    pub child_at-create_self : child_at p n.mounted_name (create p n b) ≡ some b.next_id
    child_at-create_self = ground (
      arith,
      child_at-create p n.mounted_name p n b,
      text_eq_refl n.mounted_name,
      t.bounded p dir.at dir.held,
    )

    node_cases :
        (i : ℕ) (m : MutableNode)
        → get i (create p n b).nodes ≡ some m
        → ((i ≡ b.next_id) × (n ≡ m)) ⊎ (get i b.nodes ≡ some m)
    node_cases i m h = ground (arith, get-create i p n b)

    edge_cases :
        (q : ℕ) (name : Bytes) (c : ℕ)
        → child_at q name (create p n b) ≡ some c
        → ((q ≡ p) × (n.mounted_name ≡ name) × (c ≡ b.next_id)) ⊎ (child_at q name b ≡ some c)
    edge_cases q name c h =
        ground (arith, child_at-create q name p n b, text_eq→eq n.mounted_name name)

    create-edge :
        (q : ℕ) (name : Bytes) (c : ℕ)
        → child_at q name (create p n b) ≡ some c
        → IsChild (create p n b) q name c
    create-edge q name c h = elim (edge_cases q name c h) [
      | inl (at_p, at_name, at_next) ↦ record {
        at = n;
        held = rw at_next get-create_self;
        parent = rw at_p parent;
        named = at_name;
        below = rw at_p (IsDirectory-grow create-grows dir);
        later = rw (at_p, at_next) (t.bounded p dir.at dir.held);
      }
      | inr old ↦ IsChild-grow create-grows (t.edge q name c old)
    ]

    create-listed :
        (i : ℕ) (m : MutableNode) (q : ℕ)
        → get i (create p n b).nodes ≡ some m
        → m.parent_id ≡ some q
        → child_at q m.mounted_name (create p n b) ≡ some i
    create-listed i m q h g = elim (node_cases i m h) [
      | inl (at_next, new) ↦
          cc (child_at-create_self, ap (λ k. k.mounted_name) new, ap (λ k. k.parent_id) new)
      | inr old ↦ create-keeps q m.mounted_name i (t.listed i m q old g)
    ]

    pub IsTree-create : IsTree (create p n b)
    IsTree-create = record {
      bounded = λ i m h. ground (arith, get-create i p n b, next_id-create p n b, t.bounded i m);
      numbered = λ i m h. ground (arith, get-create i p n b, t.numbered i m);
      root = IsDirectory-grow create-grows t.root;
      rooted = λ i m h g. ground (arith, get-create i p n b, t.rooted i m);
      edge = create-edge;
      listed = create-listed;
    }

abbrev pub replace : MutableNode → Builder → Builder
replace m b = record b { nodes = put m.id m b.nodes }

module _ (b : Builder) (n m : MutableNode) (t : IsTree b) (held : get n.id b.nodes ≡ some n)
    (place : SamePlace n m) where
  pub child_at-replace : (q : ℕ) (name : Bytes) → child_at q name (replace m b) ≡ child_at q name b
  unfolding child_at children_of
  child_at-replace q name = refl

  replace_cases :
      (i : ℕ) (k : MutableNode)
      → get i (replace m b).nodes ≡ some k
      → (j : MutableNode) × (get i b.nodes ≡ some j) × SamePlace j k
  replace_cases i k h = elim (Bool-cases (m.id == i)) [
    | inl here ↦
        let at_i = ==→eq m.id i here in
        let is_m : k ≡ m = ground (arith, get-put i m.id m b.nodes) in
        (
          n,
          subst (λ x. get x b.nodes ≡ some n) (sym place.id ∙ at_i) held,
          subst (SamePlace n) (sym is_m) place,
        )
    | inr other ↦ (k, ground (arith, get-put i m.id m b.nodes), SamePlace-refl k)
  ]

  pub replace_keeps :
      (i : ℕ) (j : MutableNode)
      → get i b.nodes ≡ some j
      → (k : MutableNode) × (get i (replace m b).nodes ≡ some k) × SamePlace j k
  replace_keeps i j h = elim (Bool-cases (m.id == i)) [
    | inl here ↦
        let at_i = ==→eq m.id i here in
        let held_i = subst (λ x. get x b.nodes ≡ some n) (sym place.id ∙ at_i) held in
        let is_n : n ≡ j = cc in
        (m, ground (arith, get-put i m.id m b.nodes), subst (λ x. SamePlace x m) is_n place)
    | inr other ↦ (j, ground (arith, get-put i m.id m b.nodes), SamePlace-refl j)
  ]

  pub IsDirectory-replace : {i : ℕ} → IsDirectory b i → IsDirectory (replace m b) i
  IsDirectory-replace {i} d =
      let (k, new, same) = replace_keeps i d.at d.held in
      record { at = k; held = new; directory = same.kind ∙ d.directory }

  IsChild-replace :
      {p : ℕ} {name : Bytes} {k : ℕ} → IsChild b p name k → IsChild (replace m b) p name k
  IsChild-replace {k = c} e =
      let (k, new, same) = replace_keeps c e.at e.held in
      record {
        at = k;
        held = new;
        parent = same.parent_id ∙ e.parent;
        named = same.mounted_name ∙ e.named;
        below = IsDirectory-replace e.below;
        later = e.later;
      }

  pub IsTree-replace : IsTree (replace m b)
  IsTree-replace = record {
    bounded = λ i k h. let (j, old, same) = replace_cases i k h in t.bounded i j old;
    numbered = λ i k h. let (j, old, same) = replace_cases i k h in same.id ∙ t.numbered i j old;
    root = IsDirectory-replace t.root;
    rooted = λ i k h g.
        let (j, old, same) = replace_cases i k h in t.rooted i j old (sym same.parent_id ∙ g);
    edge = λ p name c h. IsChild-replace (t.edge p name c (sym (child_at-replace p name) ∙ h));
    listed = λ i k p h g.
        let (j, old, same) = replace_cases i k h in
        rw same.mounted_name
          (child_at-replace p j.mounted_name ∙ t.listed i j p old (sym same.parent_id ∙ g));
  }
