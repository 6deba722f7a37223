-- ===== src/Base/Results.antt =====
-- `anyhow::Result`, and computations that may panic.
use mathlib.Core.Option.{Option, none, some}
use mathlib.Core.Path.{◌≡◌, refl}
use native.Mathlib.Omega.{arith}
use riskr_rs.Base.Strings.{Text}

pub data Result {ℓ} (A : Type ℓ) : Type ℓ where
  ok : A → Result A
  err : (message : Text) → Result A

-- The release profile sets `panic = "abort"`: nothing of the request is left after a panic.
pub data Outcome {ℓ} (A : Type ℓ) : Type ℓ where
  done : A → Outcome A
  panic : Outcome A

infixl 5 ◌>>=◌
abbrev pub ◌>>=◌ {ℓ κ} : {A : Type ℓ} {B : Type κ} → Outcome A → (A → Outcome B) → Outcome B
done a >>= f = f a
panic >>= f = panic

-- An operation of the standard library or of a crate that panics where it has no result.
abbrev pub expect {ℓ} : {A : Type ℓ} → Option A → Outcome A
expect none = panic
expect (some a) = done a

-- A stateful fallible operation.
abbrev pub Fallible : Type 0 → Type 0 → Type 0
Fallible S A = S → Result A × S

module _ {ℓ} {A : Type ℓ} where
  pub ok-injective : {a b : A} → ok a ≡ ok b → a ≡ b
  ok-injective e = ground arith

  pub err-ne_ok : {message : Text} {a : A} → err message ≡ ok a → ⊥
  err-ne_ok e = ground arith

  pub done-injective : {a b : A} → done a ≡ done b → a ≡ b
  done-injective e = ground arith

  pub none-ne_some : {a : A} → none ≡ some a → ⊥
  none-ne_some e = ground arith

  panic-ne_done : {a : A} → panic ≡ done a → ⊥
  panic-ne_done e = ground arith

-- What is bound ended, and so did what follows.
pub bind-inversion {ℓ κ} :
    {A : Type ℓ} {B : Type κ} (o : Outcome A) (f : A → Outcome B) (b : B)
    → (o >>= f) ≡ done b
    → (a : A) × (o ≡ done a) × (f a ≡ done b)
bind-inversion (done a) f b e = (a, refl, e)
bind-inversion panic f b e = absurd (panic-ne_done e)
