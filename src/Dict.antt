-- ===== src/Dict.antt =====
-- Python's `dict` as the list of its items in insertion order.
pub mod Laws
pub mod Unique
pub mod Overlays
use snapshot_fs.Prelude.{
  ℕ, ◌≡◌, refl, Bool, true, false, Option, none, some, List, [], ◌∷◌, map, arith, if◌then◌else◌,
  ◌==◌, ==→eq, ==_refl, text_eq, text_eq_refl, text_eq→eq,
}

pub record Key {ℓ} (K : Type ℓ) : Type ℓ where
  pub same : K → K → Bool
  pub same_refl : (k : K) → same k k ≡ true
  pub same→eq : (j k : K) → same j k ≡ true → j ≡ k

instance abbrev pub nat_key : Key ℕ
nat_key = record { same = ◌==◌; same_refl = ==_refl; same→eq = ==→eq }

instance abbrev pub text_key : Key (List ℕ)
text_key = record { same = text_eq; same_refl = text_eq_refl; same→eq = text_eq→eq }

abbrev pub Dict {ℓ κ} : Type ℓ → Type κ → Type (ℓ ⊔ κ)
Dict K V = List (K × V)

module _ {ℓ κ} {K : Type ℓ} {V : Type κ} ⦃e : Key K⦄ where
  -- d.get(k)
  unfoldable pub get : K → Dict K V → Option V
  get k [] = none
  get k ((j, v) ∷ d) = if e.same j k then some v else get k d

  -- d[k] = v: a new key goes to the end.
  unfoldable pub put : K → V → Dict K V → Dict K V
  put k v [] = (k, v) ∷ []
  put k v ((j, w) ∷ d) = if e.same j k then (j, v) ∷ d else (j, w) ∷ put k v d

  -- d.pop(k, None)
  unfoldable pub remove : K → Dict K V → Dict K V
  remove k [] = []
  remove k ((j, w) ∷ d) = let rest = remove k d in if e.same j k then rest else (j, w) ∷ rest

module _ {ℓ κ} {K : Type ℓ} {V : Type κ} where
  unfoldable pub values : Dict K V → List V
  values [] = []
  values ((k, v) ∷ d) = v ∷ values d

  unfoldable pub keys : Dict K V → List K
  keys [] = []
  keys ((k, v) ∷ d) = k ∷ keys d
