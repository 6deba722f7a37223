-- ===== src/Base/Collections.antt =====
-- `HashSet` and `HashMap` as lists in some order. No operation of the program depends on the order:
-- the theorems hold for every list.
use mathlib.Core.Path.{◌≡◌, refl, sym, ap, ◌∙◌}
use mathlib.Core.Logic.{◌↔◌, ◌⊎◌, inl, inr}
use mathlib.Core.Bool.{Bool, true, false, ◌||◌}
use mathlib.Core.Option.{Option, none, some}
use mathlib.Core.List.{List, [], ◌∷◌}
use native.Mathlib.Omega.{arith}
use riskr_rs.Base.Tests.{Eq, ◌==◌, Bool-cases, if◌then◌else◌}
use riskr_rs.Base.Lists.{here, there, In}

module _ {ℓ} {A : Type ℓ} ⦃e : Eq A⦄ where
  unfoldable pub contains : List A → A → Bool
  contains [] a = false
  contains (x ∷ xs) a = x == a || contains xs a

  unfoldable pub set_insert : A → List A → List A
  unfolding contains
  set_insert a xs = if contains xs a then xs else a ∷ xs

  -- `collect` into a set.
  unfoldable pub collect_set : List A → List A
  unfolding set_insert
  collect_set [] = []
  collect_set (x ∷ xs) = set_insert x (collect_set xs)

  In-head : (x a : A) (xs : List A) → In a (x ∷ xs) → (x ≡ a) ⊎ In a xs
  In-head x a xs (here q) = inl q
  In-head x a xs (there m) = inr m

  pub contains_iff : (xs : List A) (a : A) → (contains xs a ≡ true) ↔ In a xs
  unfolding contains
  contains_iff [] a = (λ p. cc, λ h. elim h [ ])
  contains_iff (x ∷ xs) a = elim (Bool-cases (x == a)) [
    | inl p ↦ (λ _. here ((e.eqb_iff x a).0 p), λ _. rw p)
    | inr p ↦ (
      λ q. there ((contains_iff xs a).0 (rw p at q)),
      λ m. elim (In-head x a xs m) [
        | inl q ↦ cc ((e.eqb_iff x a).1 q)
        | inr h ↦ rw p ((contains_iff xs a).1 h)
      ],
    )
  ]

  contains-of_eq : (a b : A) (xs : List A) → (a == b) ≡ true → contains xs a ≡ contains xs b
  contains-of_eq a b xs h = ap (contains xs) ((e.eqb_iff a b).0 h)

  contains-set_insert :
      (a b : A) (xs : List A) → contains (set_insert a xs) b ≡ (a == b || contains xs b)
  unfolding set_insert
  contains-set_insert a b xs = ground (arith, λ (h : (a == b) ≡ true). contains-of_eq a b xs h)

  pub contains-collect_set : (xs : List A) (a : A) → contains (collect_set xs) a ≡ contains xs a
  unfolding collect_set
  contains-collect_set [] a = refl
  contains-collect_set (x ∷ xs) a =
      contains-set_insert x a (collect_set xs) ∙ ap (λ b. x == a || b) (contains-collect_set xs a)

module _ {ℓ} {A : Type ℓ} ⦃e : Eq A⦄ where
  pub In-of-set_insert : (a b : A) (xs : List A) → In b (set_insert a xs) → (a ≡ b) ⊎ In b xs
  In-of-set_insert a b xs h = elim (Bool-cases (a == b)) [
    | inl y ↦ inl ((e.eqb_iff a b).0 y)
    | inr n ↦ inr (
        (contains_iff xs b).0
          (rw n at (sym (contains-set_insert a b xs) ∙ (contains_iff (set_insert a xs) b).1 h)))
  ]

  pub In-set_insert_self : (a : A) (xs : List A) → In a (set_insert a xs)
  In-set_insert_self a xs =
      (contains_iff (set_insert a xs) a).0
        (contains-set_insert a a xs ∙ ap (λ b. b || contains xs a) ((e.eqb_iff a a).1 refl))

  pub In-set_insert_of_In : (a b : A) (xs : List A) → In b xs → In b (set_insert a xs)
  In-set_insert_of_In a b xs h =
      (contains_iff (set_insert a xs) b).0
        (rw (contains-set_insert a b xs, (contains_iff xs b).1 h) (or-true (a == b)))
    where
      or-true : (c : Bool) → (c || true) ≡ true
      or-true true = refl
      or-true false = refl

  pub not-In-of-contains : (xs : List A) (a : A) → contains xs a ≡ false → ¬ In a xs
  not-In-of-contains xs a h m = cc ((contains_iff xs a).1 m)

module _ {ℓ κ} {K : Type ℓ} {V : Type κ} ⦃e : Eq K⦄ where
  unfoldable pub get : List (K × V) → K → Option V
  get [] k = none
  get ((j, v) ∷ m) k = if j == k then some v else get m k

  unfoldable pub insert : K → V → List (K × V) → List (K × V)
  insert k v [] = (k, v) ∷ []
  insert k v ((j, w) ∷ m) = if j == k then (k, v) ∷ m else (j, w) ∷ insert k v m

  pub get-insert :
      (k j : K) (v : V) (m : List (K × V))
      → get (insert k v m) j ≡ (if k == j then some v else get m j)
  unfolding get insert
  get-insert k j v [] = refl
  get-insert k j v ((i, w) ∷ m) =
      ground (arith, e.eqb_iff k j, e.eqb_iff i k, e.eqb_iff i j, get-insert k j v m)
