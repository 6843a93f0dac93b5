-- ===== src/Store/Sqlite/Validation/Graph.antt =====
-- When the recursive query of `_require_graph` ends.
use snapshot_fs.Prelude.{
  ℕ, not, zero, suc, ◌+◌, ◌-◌, ◌<◌, ◌≤◌, ◌≡◌, refl, sym, ◌∙◌, ap, subst, Bool, true, false, none,
  some, List, [], ◌∷◌, ◌++◌, arith, length, ◌==◌, option_eq, if◌then◌else◌, ==→eq, ==_refl, Result,
  ◌⊎◌, none≢some, some-injective, Bool-cases, inl, inr, option_eq→eq, Text, any,
}
use snapshot_fs.Dict.{Dict, get, nat_key, values}
use snapshot_fs.Store.Building.{Exception}
use snapshot_fs.Store.Sqlite.Tables.{NodeRow, Tables}
use snapshot_fs.Store.Sqlite.Validation.{
  fail, require, child_ids, next_level, reach, require_graph, parent_is_no_directory,
}

-- Every row stands below one with a smaller id, and ids are below the bound.
abbrev pub Descends : ℕ → Dict ℕ NodeRow → Type 0
Descends bound [] = Unit {0}
Descends bound ((id, row) ∷ rows) =
    (id < bound) × ((p : ℕ) → row.parent_id ≡ some p → p < id) × Descends bound rows

-- All ids of a level lie between.
abbrev Within : ℕ → ℕ → List ℕ → Type 0
Within low bound [] = Unit {0}
Within low bound (id ∷ ids) = (low ≤ id) × (id < bound) × Within low bound ids

Within-append :
    (low bound : ℕ) (a b : List ℕ)
    → Within low bound a
    → Within low bound b
    → Within low bound (a ++ b)
Within-append low bound [] b h k = k
Within-append low bound (x ∷ xs) b (le, lt, rest) k = (le, lt, Within-append low bound xs b rest k)

child_ids-Within :
    (bound p low : ℕ) (rows : Dict ℕ NodeRow)
    → low ≤ p
    → Descends bound rows
    → Within (suc low) bound (child_ids p rows)
unfolding child_ids
child_ids-Within bound p low [] le d = tt
child_ids-Within bound p low ((id, row) ∷ rows) le (below, above, rest) =
    elim (Bool-cases (option_eq ◌==◌ row.parent_id (some p))) [
      | inl here ↦
          let lt = above p (option_eq→eq ◌==◌ row.parent_id (some p) ==→eq here) in
          rw here (omega arith, below, child_ids-Within bound p low rows le rest)
      | inr other ↦ rw other (child_ids-Within bound p low rows le rest)
    ]

next_level-Within :
    (bound low : ℕ) (rows : Dict ℕ NodeRow) (level : List ℕ)
    → Descends bound rows
    → Within low bound level
    → Within (suc low) bound (next_level rows level)
unfolding next_level
next_level-Within bound low rows [] d w = tt
next_level-Within bound low rows (id ∷ level) d (le, lt, rest) =
    Within-append (suc low) bound (child_ids id rows) (next_level rows level)
      (child_ids-Within bound id low rows le d) (next_level-Within bound low rows level d rest)

reach_next :
    (rows : Dict ℕ NodeRow) (fuel : ℕ) (id : ℕ) (level : List ℕ) (count : ℕ)
    → reach rows fuel (next_level rows (id ∷ level)) ≡ some count
    → reach rows (suc fuel) (id ∷ level) ≡ some (length (id ∷ level) + count)
unfolding reach
reach_next rows fuel id level count h = rw (h, reach) refl

reach_ends :
    (bound : ℕ) (rows : Dict ℕ NodeRow) (fuel low : ℕ) (level : List ℕ)
    → Descends bound rows
    → Within low bound level
    → bound - low < fuel
    → (count : ℕ) × (reach rows fuel level ≡ some count)
unfolding reach
reach_ends bound rows zero low level d w enough = absurd (omega arith)
reach_ends bound rows (suc fuel) low [] d w enough = (0, refl)
reach_ends bound rows (suc fuel) low (id ∷ level) d w enough =
    let (count, ends) =
      reach_ends bound rows fuel (suc low) (next_level rows (id ∷ level)) d
        (next_level-Within bound low rows (id ∷ level) d w)
        (let lt = w.1 in let le = w.0 in omega arith) in
    (length (id ∷ level) + count, reach_next rows fuel id level count ends)

-- If every row has an id below a bound and a parent with a smaller id, then the check of
-- the graph returns within as many levels of its recursive query as the bound.
pub require_graph_ends :
    (path : Text) (bound fuel : ℕ) (t : Tables)
    → Descends bound t.nodes
    → 1 < bound
    → bound ≤ fuel
    → (r : Result Exception (Unit {0})) × (require_graph path fuel t ≡ some r)
unfolding require_graph
require_graph_ends path bound fuel t d root enough =
    let (count, ends) =
      reach_ends bound t.nodes fuel 1 (1 ∷ []) d (omega arith, root, tt) (omega arith) in
    elim (Bool-cases (any (λ row. parent_is_no_directory t.nodes row) (values t.nodes))) [
      | inl wrong ↦ (fail path "a node parent is not a directory", rw wrong refl)
      | inr right ↦ (
        require path (not (count == length t.nodes))
            "filesystem graph contains a cycle or disconnected node",
        rw (right, ends, require_graph) refl,
      )
    ]

-- A node is among those of a level.
abbrev InLevel : ℕ → List ℕ → Type 0
InLevel i [] = ⊥
InLevel i (j ∷ level) = (i ≡ j) ⊎ InLevel i level

InLevel-append_left : (i : ℕ) (a b : List ℕ) → InLevel i a → InLevel i (a ++ b)
InLevel-append_left i [] b h = absurd h
InLevel-append_left i (x ∷ xs) b (inl here) = inl here
InLevel-append_left i (x ∷ xs) b (inr later) = inr (InLevel-append_left i xs b later)

InLevel-append_right : (i : ℕ) (a b : List ℕ) → InLevel i b → InLevel i (a ++ b)
InLevel-append_right i [] b h = h
InLevel-append_right i (x ∷ xs) b h = inr (InLevel-append_right i xs b h)

InLevel-test :
    (i j : ℕ) (rest : List ℕ) (b : Bool) → InLevel i rest → InLevel i (if b then j ∷ rest else rest)
InLevel-test i j rest true h = inr h
InLevel-test i j rest false h = h

own_test :
    (i : ℕ) (row : NodeRow) → row.parent_id ≡ some i → option_eq ◌==◌ row.parent_id (some i) ≡ true
unfolding option_eq
own_test i row own = rw own (==_refl i)

child_ids-InLevel :
    (i : ℕ) (row : NodeRow) (rows : Dict ℕ NodeRow)
    → get i rows ≡ some row
    → row.parent_id ≡ some i
    → InLevel i (child_ids i rows)
unfolding child_ids get
child_ids-InLevel i row [] held own = absurd (none≢some held)
child_ids-InLevel i row ((j, r) ∷ rows) held own = elim (Bool-cases (j == i)) [
  | inl here ↦
      let same : r ≡ row = some-injective _ _ (rw here at held) in
      rw (own_test i r (ap (λ x. x.parent_id) same ∙ own)) (inl (sym (==→eq j i here)))
  | inr other ↦
      InLevel-test i j (child_ids i rows) (option_eq ◌==◌ r.parent_id (some i))
        (child_ids-InLevel i row rows (rw other at held) own)
]

next_level-InLevel :
    (i : ℕ) (rows : Dict ℕ NodeRow) (level : List ℕ)
    → InLevel i (child_ids i rows)
    → InLevel i level
    → InLevel i (next_level rows level)
unfolding next_level
next_level-InLevel i rows [] own h = absurd h
next_level-InLevel i rows (j ∷ level) own (inl here) =
    InLevel-append_left i (child_ids j rows) (next_level rows level)
      (subst (λ k. InLevel i (child_ids k rows)) here own)
next_level-InLevel i rows (j ∷ level) own (inr later) =
    InLevel-append_right i (child_ids j rows) (next_level rows level)
      (next_level-InLevel i rows level own later)

reach_runs :
    (i : ℕ) (rows : Dict ℕ NodeRow) (fuel : ℕ) (level : List ℕ)
    → InLevel i (child_ids i rows)
    → InLevel i level
    → reach rows fuel level ≡ none
unfolding reach
reach_runs i rows zero level own there = refl
reach_runs i rows (suc fuel) [] own there = absurd there
reach_runs i rows (suc fuel) (j ∷ level) own there =
    rw
      (
        reach_runs i rows fuel (next_level rows (j ∷ level)) own
            (next_level-InLevel i rows (j ∷ level) own there),
        reach,
      )
      refl

-- x
pub require_graph_runs :
    (path : Text) (t : Tables) (root : NodeRow) (fuel : ℕ)
    → get 1 t.nodes ≡ some root
    → root.parent_id ≡ some 1
    → any (λ row. parent_is_no_directory t.nodes row) (values t.nodes) ≡ false
    → require_graph path fuel t ≡ none
unfolding require_graph
require_graph_runs path t root fuel held own directories =
    rw
      (
        directories,
        reach_runs 1 t.nodes fuel (1 ∷ []) (child_ids-InLevel 1 root t.nodes held own) (inl refl),
        require_graph,
      )
      refl
