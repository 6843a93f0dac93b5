-- ===== src/Dict/Overlays.antt =====
-- A dictionary that was filled, item by item, from another one.
use snapshot_fs.Prelude.{
  ◌≡◌, refl, sym, ◌∙◌, subst, none, some, [], ◌∷◌, Bool-cases, inl, inr, none≢some,
}
use snapshot_fs.Dict.{Dict, Key, get, put}
use snapshot_fs.Dict.Laws.{get-put, get-put_self}

-- `new` has the items of `d` and, where `d` has none, those of `old`.
pub record Overlays {ℓ κ} {K : Type ℓ} {V : Type κ} ⦃e : Key K⦄ (d old new : Dict K V)
    : Type (ℓ ⊔ κ) where
  pub hit : (k : K) (v : V) → get k d ≡ some v → get k new ≡ some v
  pub miss : (k : K) → get k d ≡ none → get k new ≡ get k old

module _ {ℓ κ} {K : Type ℓ} {V : Type κ} ⦃e : Key K⦄ where
  pub Overlays-nil : (old : Dict K V) → Overlays [] old old
  unfolding get
  Overlays-nil old = record { hit = λ k v at. absurd (none≢some at); miss = λ k at. refl }

  -- A key that occurs once may be put first and the rest afterwards.
  pub Overlays-cons :
      (k : K) (v : V) (d old new : Dict K V)
      → get k d ≡ none
      → Overlays d (put k v old) new
      → Overlays ((k, v) ∷ d) old new
  unfolding get
  Overlays-cons k v d old new absent o = record {
    hit = λ j w at. elim (Bool-cases (e.same k j)) [
      | inl here ↦
          let same = e.same→eq k j here in
          subst (λ i. get i new ≡ some w) same
            (o.miss k absent ∙ get-put_self k v old ∙ rw here at at)
      | inr other ↦ o.hit j w (rw other at at)
    ];
    miss = λ j at. elim (Bool-cases (e.same k j)) [
      | inl here ↦ absurd (none≢some (sym (rw here at at)))
      | inr other ↦ o.miss j (rw other at at) ∙ (rw other at (get-put j k v old))
    ];
  }
