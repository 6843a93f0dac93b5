-- ===== src/Store/Memory/Builder/Reaching.antt =====
-- Every node of the tree has a path from the root.
use snapshot_fs.Prelude.{
  ℕ, zero, suc, ◌<◌, ◌≡◌, sym, ap, some, List, [], ◌∷◌, ◌++◌, Bytes, arith, Option-cases, inl, inr,
}
use snapshot_fs.Dict.{get, nat_key}
use snapshot_fs.Store.Building.{MutableNode}
use snapshot_fs.Store.Memory.Builder.{Builder}
use snapshot_fs.Store.Memory.Builder.Tree.{child_at, IsTree}
use snapshot_fs.Store.Memory.Builder.Adding.{resolve, resolve_from, resolve_from-cons}

resolve_from-append :
    (b : Builder) (p : ℕ) (names : List Bytes) (name : Bytes) {j k : ℕ}
    → resolve_from b p names ≡ some j
    → child_at j name b ≡ some k
    → resolve_from b p (names ++ name ∷ []) ≡ some k
unfolding resolve_from
resolve_from-append b p [] name h at = ground arith
resolve_from-append b p (n ∷ names) name h at =
    let (i, there, e) = resolve_from-cons b p n names h in
    rw (there, resolve_from) (resolve_from-append b i names name e at)

reaches_below :
    (b : Builder) (fuel i : ℕ) (n : MutableNode)
    → IsTree b
    → get i b.nodes ≡ some n
    → i < fuel
    → (names : List Bytes) × (resolve b names ≡ some i)
unfolding resolve_from
reaches_below b zero i n t held h = elim h [ ]
reaches_below b (suc fuel) i n t held h = elim (Option-cases n.parent_id) [
  | inl top ↦ ([], ap some (sym (t.rooted i n held top)))
  | inr (p, up) ↦
      let at = t.listed i n p held up in
      let edge = t.edge p n.mounted_name i at in
      let (names, there) =
        reaches_below b fuel p edge.below.at t edge.below.held (omega (arith, edge.later)) in
      (names ++ n.mounted_name ∷ [], resolve_from-append b 1 names n.mounted_name there at)
]

-- If a builder is a tree, then every node in it is reached from the root by some path of
-- mounted names.
pub reaches :
    (b : Builder) (i : ℕ) (n : MutableNode)
    → IsTree b
    → get i b.nodes ≡ some n
    → (names : List Bytes) × (resolve b names ≡ some i)
reaches b i n t held = reaches_below b (suc i) i n t held (omega arith)
