-- ===== src/Dict/Unique.antt =====
-- Dictionaries whose keys are all different, as `put` leaves them.
use mathlib.Core.Bool.{false≢true}
use snapshot_fs.Prelude.{
  ◌≡◌, refl, sym, ◌∙◌, subst, true, none, some, none≢some, [], ◌∷◌, Bool-cases, inl, inr,
}
use snapshot_fs.Dict.{Key, Dict, get, put}
use snapshot_fs.Dict.Laws.{get-put_ne}

module _ {ℓ κ} {K : Type ℓ} {V : Type κ} ⦃e : Key K⦄ where
  abbrev pub Unique : Dict K V → Type κ
  Unique [] = Unit
  Unique ((k, v) ∷ d) = (get k d ≡ none) × Unique d

  pub Unique-put : (k : K) (v : V) (d : Dict K V) → Unique d → Unique (put k v d)
  unfolding put get
  Unique-put k v [] u = (refl, tt)
  Unique-put k v ((j, w) ∷ d) (absent, u) = elim (Bool-cases (e.same j k)) [
    | inl here ↦ rw here (absent, u)
    | inr other ↦ rw other (
      get-put_ne j k v d
            (λ p. false≢true (sym other ∙ subst (λ i. e.same j i ≡ true) p (e.same_refl j)))
          ∙ absent,
      Unique-put k v d u,
    )
  ]

module _ {ℓ κ μ} {K : Type ℓ} {V : Type κ} ⦃e : Key K⦄ (P : K → V → Type μ) where
  abbrev pub Each : Dict K V → Type μ
  Each [] = Unit
  Each ((k, v) ∷ d) = P k v × Each d

  -- What holds of every item that `get` finds holds of each item there is.
  pub Each-of_get :
      (d : Dict K V) → Unique d → ((k : K) (v : V) → get k d ≡ some v → P k v) → Each d
  unfolding get
  Each-of_get [] u h = tt
  Each-of_get ((k, v) ∷ d) (absent, u) h = (
    h k v (rw (e.same_refl k)),
    Each-of_get d u λ j w at. h j w (elim (Bool-cases (e.same k j)) [
      | inl same ↦
          absurd
            (none≢some (sym absent ∙ subst (λ i. get i d ≡ some w) (sym (e.same→eq k j same)) at))
      | inr other ↦ rw other at
    ]),
  )
