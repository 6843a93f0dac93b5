-- ===== src/Store/Sqlite/Builder/Mirroring.antt =====
-- The table of nodes beside the nodes of the builder in memory.
use mathlib.Core.Bool.{false≢true}
use snapshot_fs.Prelude.{
  ℕ, not, ◌≡◌, refl, sym, ◌∙◌, ap, subst, Bool, true, false, ◌&&◌, Option, none, some, [], ◌∷◌,
  Text, Bytes, ok, if◌then◌else◌, arith, inl, inr, ◌==◌, ==→eq, text_eq, text_eq→eq, text_eq_refl,
  option_eq, Bool-cases, Option-cases, none≢some, some-injective, &&→both, ==_refl, option_eq→eq,
}
use snapshot_fs.Dict.{Dict, get, put, nat_key}
use snapshot_fs.Dict.Unique.{Unique}
use snapshot_fs.Store.Building.{MutableNode}
use snapshot_fs.Store.Memory.Builder.{Builder}
use snapshot_fs.Store.Memory.Builder.Tree.{child_at, IsTree}
use snapshot_fs.Store.Sqlite.Codec.{JsonText, encode_metadata}
use snapshot_fs.Store.Sqlite.Tables.{
  NodeRow, bindable, check_size, check_source_line, is_child, first_child,
}
use snapshot_fs.Store.Sqlite.Builder.{SqliteBuilder, is_active, node_row}

-- The row holds the node, in columns that fit.
pub record Stores (sid : Text) (n : MutableNode) (row : NodeRow) : Type 0 where
  pub json : JsonText
  pub encoded : encode_metadata n.source_metadata ≡ ok json
  pub written : row ≡ node_row sid json n
  pub fits : (bindable n.size && bindable n.source_line) ≡ true
  pub checked : (check_size n.size && check_source_line n.source_line) ≡ true

-- The table holds the nodes, one row for each.
abbrev pub Mirror : Text → Dict ℕ MutableNode → Dict ℕ NodeRow → Type 0
Mirror sid [] [] = Unit {0}
Mirror sid [] (r ∷ rows) = ⊥
Mirror sid (n ∷ d) [] = ⊥
Mirror sid ((i, n) ∷ d) ((j, row) ∷ rows) = (i ≡ j) × Stores sid n row × Mirror sid d rows

module _ (sid : Text) where
  pub Mirror-none :
      (i : ℕ) (d : Dict ℕ MutableNode) (rows : Dict ℕ NodeRow)
      → Mirror sid d rows
      → get i d ≡ none
      → get i rows ≡ none
  unfolding get
  Mirror-none i [] [] m h = refl
  Mirror-none i [] (r ∷ rows) m h = absurd m
  Mirror-none i (n ∷ d) [] m h = absurd m
  Mirror-none i ((j, n) ∷ d) ((k, row) ∷ rows) (same, stores, rest) h = elim (Bool-cases (j == i)) [
    | inl here ↦ absurd (none≢some (sym (rw here at h)))
    | inr other ↦ rw (← same, other) (Mirror-none i d rows rest (rw other at h))
  ]

  pub Mirror-some :
      (i : ℕ) (n : MutableNode) (d : Dict ℕ MutableNode) (rows : Dict ℕ NodeRow)
      → Mirror sid d rows
      → get i d ≡ some n
      → (row : NodeRow) × (get i rows ≡ some row) × Stores sid n row
  unfolding get
  Mirror-some i n [] [] m h = absurd (none≢some h)
  Mirror-some i n [] (r ∷ rows) m h = absurd m
  Mirror-some i n (x ∷ d) [] m h = absurd m
  Mirror-some i n ((j, x) ∷ d) ((k, row) ∷ rows) (same, stores, rest) h =
      elim (Bool-cases (j == i)) [
        | inl here ↦ (
          row,
          subst (λ z. (if z == i then some row else get i rows) ≡ some row) same (rw here refl),
          subst (λ z. Stores sid z row) (some-injective _ _ (rw here at h)) stores,
        )
        | inr other ↦
            let (found, at, s) = Mirror-some i n d rows rest (rw other at h) in
            (
              found,
              subst (λ z. (if z == i then some row else get i rows) ≡ some found) same
                  (rw other at),
              s,
            )
      ]

  pub Mirror-put :
      (i : ℕ) (n : MutableNode) (row : NodeRow) (d : Dict ℕ MutableNode) (rows : Dict ℕ NodeRow)
      → Stores sid n row
      → Mirror sid d rows
      → Mirror sid (put i n d) (put i row rows)
  unfolding put
  Mirror-put i n row [] [] s m = (refl, s, tt)
  Mirror-put i n row [] (r ∷ rows) s m = absurd m
  Mirror-put i n row (x ∷ d) [] s m = absurd m
  Mirror-put i n row ((j, x) ∷ d) ((k, r) ∷ rows) s (same, stores, rest) =
      subst (λ z. Mirror sid (put i n ((j, x) ∷ d)) (put i row ((z, r) ∷ rows))) same
        (elim (Bool-cases (j == i)) [
          | inl here ↦ rw here (refl, s, rest)
          | inr other ↦ rw other (refl, stores, Mirror-put i n row d rows s rest)
        ])

  is_child-node_row :
      (p : ℕ) (name : Bytes) (n : MutableNode) (row : NodeRow)
      → Stores sid n row
      → is_child p name row ≡ (option_eq ◌==◌ n.parent_id (some p) && text_eq n.mounted_name name)
  unfolding is_child node_row
  is_child-node_row p name n row s = rw s.written refl

  -- The query for a child, in terms of the nodes.
  abbrev Selects : ℕ → Bytes → Dict ℕ MutableNode → Option NodeRow → Type 0
  Selects p name d none =
      (i : ℕ) (n : MutableNode)
      → get i d ≡ some n
      → n.parent_id ≡ some p
      → n.mounted_name ≡ name
      → ⊥
  Selects p name d (some row) =
      (i : ℕ) × ((n : MutableNode) × (get i d ≡ some n)
        × (n.parent_id ≡ some p)
        × (n.mounted_name ≡ name)
        × Stores sid n row)

  child_parent :
      (p : ℕ) (name : Bytes) (n : MutableNode)
      → (option_eq ◌==◌ n.parent_id (some p) && text_eq n.mounted_name name) ≡ true
      → (n.parent_id ≡ some p) × (n.mounted_name ≡ name)
  child_parent p name n h =
      let both = &&→both _ _ h in
      (option_eq→eq ◌==◌ n.parent_id (some p) ==→eq both.0, text_eq→eq n.mounted_name name both.1)

  child_test :
      (p : ℕ) (name : Bytes) (n : MutableNode)
      → n.parent_id ≡ some p
      → n.mounted_name ≡ name
      → (option_eq ◌==◌ n.parent_id (some p) && text_eq n.mounted_name name) ≡ true
  unfolding option_eq
  child_test p name n parent named =
      rw (parent, named, text_eq_refl name) (ground (arith, ==_refl p))

  module _ (p : ℕ) (name : Bytes) (i : ℕ) (n : MutableNode) (d : Dict ℕ MutableNode)
      (absent : get i d ≡ none) where
    Selects-skip :
        (o : Option NodeRow)
        → (option_eq ◌==◌ n.parent_id (some p) && text_eq n.mounted_name name) ≡ false
        → Selects p name d o
        → Selects p name ((i, n) ∷ d) o
    unfolding get
    Selects-skip none differs h = λ j m at parent named. elim (Bool-cases (i == j)) [
      | inl here ↦
          let same : n ≡ m = some-injective _ _ (rw here at at) in
          absurd (
            false≢true (
              sym differs
              ∙ child_test p name n (ap (λ k. k.parent_id) same ∙ parent)
                  (ap (λ k. k.mounted_name) same ∙ named)))
      | inr other ↦ h j m (rw other at at) parent named
    ]
    Selects-skip (some row) differs (j, (m, at, parent, named, stores)) = (
      j,
      (
        m,
        elim (Bool-cases (i == j)) [
          | inl here ↦
              absurd
                (none≢some (sym absent ∙ subst (λ k. get k d ≡ some m) (sym (==→eq i j here)) at))
          | inr other ↦ rw other at
        ],
        parent,
        named,
        stores,
      ),
    )

    Selects-test :
        (row : NodeRow) (o : Option NodeRow) (test : Bool)
        → Stores sid n row
        → (option_eq ◌==◌ n.parent_id (some p) && text_eq n.mounted_name name) ≡ test
        → Selects p name d o
        → Selects p name ((i, n) ∷ d) (if test then some row else o)
    unfolding get
    Selects-test row o true s h rest =
        let (parent, named) = child_parent p name n h in
        (i, (n, rw (==_refl i) refl, parent, named, s))
    Selects-test row o false s h rest = Selects-skip o h rest

  pub first_child-Selects :
      (p : ℕ) (name : Bytes) (d : Dict ℕ MutableNode) (rows : Dict ℕ NodeRow)
      → Mirror sid d rows
      → Unique d
      → Selects p name d (first_child p name rows)
  unfolding first_child get
  first_child-Selects p name [] [] m u = λ i n at. absurd (none≢some at)
  first_child-Selects p name [] (r ∷ rows) m u = absurd m
  first_child-Selects p name (x ∷ d) [] m u = absurd m
  first_child-Selects p name ((i, n) ∷ d) ((j, row) ∷ rows) (same, stores, rest) (absent, u) =
      Selects-test p name i n d absent row (first_child p name rows) (is_child p name row) stores
        (sym (is_child-node_row p name n row stores)) (first_child-Selects p name d rows rest u)

-- The state of the builder in memory beside the table.
pub record Mirrors (b : Builder) (s : SqliteBuilder) : Type 0 where
  pub snapshot : s.snapshot ≡ b.snapshot
  pub next : s.next_inode ≡ b.next_id
  pub active : is_active s ≡ not b.finished
  pub unique : Unique b.nodes
  pub rows : Mirror b.snapshot.id b.nodes s.nodes

-- A child is in the child table exactly if the query finds its row.
pub data ChildCase (b : Builder) (s : SqliteBuilder) (p : ℕ) (name : Bytes) : Type 0 where
  no_child : child_at p name b ≡ none → first_child p name s.nodes ≡ none → ChildCase b s p name
  has_child :
      (i : ℕ) (n : MutableNode) (row : NodeRow)
      → child_at p name b ≡ some i
      → get i b.nodes ≡ some n
      → first_child p name s.nodes ≡ some row
      → Stores b.snapshot.id n row
      → ChildCase b s p name

module _ (b : Builder) (s : SqliteBuilder) (t : IsTree b) (p : ℕ) (name : Bytes) where
  case_of :
      (o : Option NodeRow)
      → first_child p name s.nodes ≡ o
      → Selects b.snapshot.id p name b.nodes o
      → ChildCase b s p name
  case_of none query h =
      no_child
        (elim (Option-cases (child_at p name b)) [
          | inl absent ↦ absent
          | inr (i, at) ↦ let e = t.edge p name i at in absurd (h i e.at e.held e.parent e.named)
        ])
        query
  case_of (some row) query (i, (n, at, parent, named, stores)) =
      has_child i n row (subst (λ m. child_at p m b ≡ some i) named (t.listed i n p at parent)) at
        query stores

  pub child_case : Mirrors b s → ChildCase b s p name
  child_case m =
      case_of (first_child p name s.nodes) refl
        (first_child-Selects b.snapshot.id p name b.nodes s.nodes m.rows m.unique)
