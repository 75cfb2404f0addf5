-- ===== src/Prelude/Throwing.antt =====
-- Code that may throw. What an exception carries is dropped: every handler of the modelled code is
-- `catch (...)`.
use mathlib.Core.Path.{◌≡◌, refl}
use mathlib.Core.Logic.{◌⊎◌, inl, inr}

pub data Fault {ℓ} (A : Type ℓ) : Type ℓ where
  ok : A → Fault A
  threw : Fault A

infixl 5 ◌>>=◌
abbrev pub ◌>>=◌ {ℓ κ} : {A : Type ℓ} {B : Type κ} → Fault A → (A → Fault B) → Fault B
ok a >>= f = f a
threw >>= f = threw

pub Fault-cases {ℓ} : {A : Type ℓ} (r : Fault A) → (r ≡ threw) ⊎ ((a : A) × (r ≡ ok a))
Fault-cases (ok a) = inr (a, refl)
Fault-cases threw = inl refl

-- An action on a state that may throw. What it wrote before it threw stays written.
abbrev pub Action {ℓ} : Type ℓ → Type ℓ → Type ℓ
Action S A = S → Fault A × S

module _ {ℓ} {S : Type ℓ} where
  abbrev pub pure : {A : Type ℓ} → A → Action S A
  pure a s = (ok a, s)

  abbrev pub raise : {A : Type ℓ} → Action S A
  raise s = (threw, s)

  abbrev pub lift : {A : Type ℓ} → Fault A → Action S A
  lift r s = (r, s)

  -- The rest of an action, from the outcome of its first step.
  abbrev pub continue : {A B : Type ℓ} → Fault A × S → (A → Action S B) → Fault B × S
  continue (ok a, s) f = f a s
  continue (threw, s) f = (threw, s)

  abbrev pub bind : {A B : Type ℓ} → Action S A → (A → Action S B) → Action S B
  bind m f s = continue (m s) f

  -- The outcomes of an action at a state.
  pub Action-cases :
      {A : Type ℓ} (r : Fault A × S)
      → ((s : S) × (r ≡ (threw, s))) ⊎ ((a : A) × (s : S) × (r ≡ (ok a, s)))
  Action-cases (ok a, s) = inr (a, s, refl)
  Action-cases (threw, s) = inl (s, refl)
