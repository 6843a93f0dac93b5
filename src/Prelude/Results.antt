-- ===== src/Prelude/Results.antt =====
-- Code that returns a value or raises.
use mathlib.Core.Path.{◌≡◌, refl}
use mathlib.Core.Logic.{◌⊎◌, inl, inr}

pub data Result {ℓ κ} (E : Type ℓ) (A : Type κ) : Type (ℓ ⊔ κ) where
  ok : A → Result E A
  err : E → Result E A

-- `do` blocks: what follows a call that raises is not run.
infixl 5 ◌>>=◌
abbrev pub ◌>>=◌ {ε α β} :
    {E : Type ε} {X : Type α} {Y : Type β} → Result E X → (X → Result E Y) → Result E Y
err raised >>= rest = err raised
ok x >>= rest = rest x

module _ {ε α β} {E : Type ε} {X : Type α} {Y : Type β} where
  -- If a block returns, its first call did.
  pub >>=-eq-ok :
      (first : Result E X) (rest : X → Result E Y) {y : Y}
      → (first >>= rest) ≡ ok y
      → (x : X) × (first ≡ ok x) × (rest x ≡ ok y)
  >>=-eq-ok (err raised) rest returns = cc
  >>=-eq-ok (ok x) rest returns = (x, refl, returns)

module _ {ℓ κ} {E : Type ℓ} {B : Type κ} where
  pub ok-injective : {a b : B} → ◌≡◌ {A = Result E B} (ok a) (ok b) → a ≡ b
  ok-injective h = cc

  pub ok≢err : {a : B} {e : E} → ◌≡◌ {A = Result E B} (err e) (ok a) → ⊥
  ok≢err h = cc

  pub err-injective : {d e : E} → ◌≡◌ {A = Result E B} (err d) (err e) → d ≡ e
  err-injective h = cc

  pub Result-cases : (r : Result E B) → ((b : B) × (r ≡ ok b)) ⊎ ((e : E) × (r ≡ err e))
  Result-cases (ok b) = inl (b, refl)
  Result-cases (err e) = inr (e, refl)
