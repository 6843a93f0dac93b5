-- ===== src/Dict/Laws.antt =====
-- What `get` reads after each update, and which items are left.
use mathlib.Core.Bool.{false≢true}
use snapshot_fs.Prelude.{
  ◌≡◌, ◌≢◌, refl, true, false, none, some, [], ◌∷◌, arith, if◌then◌else◌, Bool-cases, inl, inr, sym,
  ◌∙◌, subst,
}
use snapshot_fs.Dict.{Key, Dict, get, put, remove}

module _ {ℓ} {K : Type ℓ} ⦃e : Key K⦄ where
  pub same_ne : (j k : K) → j ≢ k → e.same j k ≡ false
  same_ne j k h = elim (Bool-cases (e.same j k)) [
    | inl yes' ↦ absurd (h (e.same→eq j k yes'))
    | inr no' ↦ no'
  ]

module _ {ℓ κ} {K : Type ℓ} {V : Type κ} ⦃e : Key K⦄ where
  pub get-put_self : (k : K) (v : V) (d : Dict K V) → get k (put k v d) ≡ some v
  unfolding get put
  get-put_self k v [] = ground (arith, e.same_refl k)
  get-put_self k v ((j, w) ∷ d) = ground (arith, get-put_self k v d)

  pub get-put_ne : (j k : K) (v : V) (d : Dict K V) → j ≢ k → get j (put k v d) ≡ get j d
  unfolding get put
  get-put_ne j k v [] h = rw (same_ne k j (λ p. h (sym p))) refl
  get-put_ne j k v ((i, w) ∷ d) h = elim (Bool-cases (e.same i k)) [
    | inl at_k ↦ rw (at_k, same_ne i j (λ p. h (sym p ∙ e.same→eq i k at_k))) refl
    | inr other ↦ rw (other, get-put_ne j k v d h) refl
  ]

  pub get-put :
      (j k : K) (v : V) (d : Dict K V)
      → get j (put k v d) ≡ (if e.same k j then some v else get j d)
  get-put j k v d = elim (Bool-cases (e.same k j)) [
    | inl here ↦ rw (here, ← e.same→eq k j here) (get-put_self k v d)
    | inr other ↦ rw other (
        get-put_ne j k v d
          λ p. false≢true (sym other ∙ subst (λ i. e.same k i ≡ true) (sym p) (e.same_refl k)))
  ]

  pub get-remove_self : (k : K) (d : Dict K V) → get k (remove k d) ≡ none
  unfolding get remove
  get-remove_self k [] = refl
  get-remove_self k ((j, w) ∷ d) = ground (arith, get-remove_self k d)

  pub get-remove_ne : (j k : K) (d : Dict K V) → j ≢ k → get j (remove k d) ≡ get j d
  unfolding get remove
  get-remove_ne j k [] h = refl
  get-remove_ne j k ((i, w) ∷ d) h = elim (Bool-cases (e.same i k)) [
    | inl at_k ↦
        rw (at_k, same_ne i j (λ p. h (sym p ∙ e.same→eq i k at_k))) (get-remove_ne j k d h)
    | inr other ↦ rw (other, get-remove_ne j k d h) refl
  ]

  pub get-remove :
      (j k : K) (d : Dict K V) → get j (remove k d) ≡ (if e.same k j then none else get j d)
  get-remove j k d = elim (Bool-cases (e.same k j)) [
    | inl here ↦ rw (here, ← e.same→eq k j here) (get-remove_self k d)
    | inr other ↦ rw other (
        get-remove_ne j k d
          λ p. false≢true (sym other ∙ subst (λ i. e.same k i ≡ true) (sym p) (e.same_refl k)))
  ]
