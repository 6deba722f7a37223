-- ===== src/Base/Lists.antt =====
-- Lists measured by native numbers, and predicates on all or some of their elements.
use Prim.Native.Nat.{ℕ, suc, ◌+◌}
use mathlib.Core.Path.{◌≡◌, refl, sym, subst}
use mathlib.Core.Bool.{Bool, true, false, ◌||◌}
use mathlib.Core.Option.{Option, none, some}
use mathlib.Core.List.{List, [], ◌∷◌, ◌++◌, map, append_assoc, append-nil}
use native.Mathlib.Omega.{arith}
use riskr_rs.Base.Tests.{if◌then◌else◌}

module _ {ℓ} {A : Type ℓ} where
  abbrev pub length : List A → ℕ
  length [] = 0
  length (x ∷ xs) = suc (length xs)

  abbrev pub first : List A → Option A
  first [] = none
  first (x ∷ xs) = some x

  abbrev pub is_empty : List A → Bool
  is_empty [] = true
  is_empty (x ∷ xs) = false

  -- `Iterator::any` and a filter, on Boolean tests.
  abbrev pub any : (A → Bool) → List A → Bool
  any p [] = false
  any p (x ∷ xs) = p x || any p xs

  abbrev pub keep_if : (A → Bool) → List A → List A
  keep_if p [] = []
  keep_if p (x ∷ xs) = let rest = keep_if p xs in if p x then x ∷ rest else rest

  abbrev pub All {κ} : (A → Type κ) → List A → Type κ
  All P [] = Unit
  All P (x ∷ xs) = P x × All P xs

  -- Some element has the property; the element is kept.
  pub data Any {κ} (P : A → Type κ) : List A → Type (ℓ ⊔ κ) where
    here : {x : A} {xs : List A} → P x → Any P (x ∷ xs)
    there : {x : A} {xs : List A} → Any P xs → Any P (x ∷ xs)

  abbrev pub In : A → List A → Type ℓ
  In a xs = Any (λ x. x ≡ a) xs

  -- No element stands twice.
  pub data Distinct : List A → Type ℓ where
    nil : Distinct []
    cons : {x : A} {xs : List A} → (In x xs → ⊥) → Distinct xs → Distinct (x ∷ xs)

  pub length-append : (xs ys : List A) → length (xs ++ ys) ≡ length xs + length ys
  length-append [] ys = omega arith
  length-append (x ∷ xs) ys = omega (arith, length-append xs ys)

  pub All-append {κ} : (P : A → Type κ) (xs ys : List A) → All P xs → All P ys → All P (xs ++ ys)
  All-append P [] ys hx hy = hy
  All-append P (x ∷ xs) ys hx hy = (hx.0, All-append P xs ys hx.1 hy)

  pub All-map {κ μ} :
      {P : A → Type κ} {Q : A → Type μ}
      → ((x : A) → P x → Q x)
      → (xs : List A) → All P xs
      → All Q xs
  All-map f [] h = tt
  All-map f (x ∷ xs) h = (f x h.0, All-map f xs h.1)

  -- What holds of all holds of one in the middle, and of all with another one there.
  pub All-middle {κ} :
      (P : A → Type κ) (before after : List A) (a : A)
      → All P (before ++ a ∷ after)
      → P a × ((b : A) → P b → All P (before ++ b ∷ after))
  All-middle P [] after a h = (h.0, λ b p. (p, h.1))
  All-middle P (x ∷ before) after a h =
      let (p, put) = All-middle P before after a h.1 in (p, λ b p'. (h.0, put b p'))

  pub keep_if-append :
      (p : A → Bool) (xs ys : List A) → keep_if p (xs ++ ys) ≡ keep_if p xs ++ keep_if p ys
  keep_if-append p [] ys = refl
  keep_if-append p (x ∷ xs) ys = ground (arith, keep_if-append p xs ys)

  pub Any-append_left {κ} : {P : A → Type κ} (xs ys : List A) → Any P xs → Any P (xs ++ ys)
  Any-append_left _ ys (here p) = here p
  Any-append_left _ ys (there {xs = zs} h) = there (Any-append_left zs ys h)

  pub Any-append_right {κ} : {P : A → Type κ} (xs ys : List A) → Any P ys → Any P (xs ++ ys)
  Any-append_right [] ys h = h
  Any-append_right (x ∷ xs) ys h = there (Any-append_right xs ys h)

  -- Some element still has the property where one in the middle hands it to another.
  pub Any-middle {κ} :
      {P : A → Type κ} (before after : List A) (a b : A)
      → (P a → P b)
      → Any P (before ++ a ∷ after)
      → Any P (before ++ b ∷ after)
  Any-middle [] after a b f (here p) = here (f p)
  Any-middle [] after a b f (there h) = there h
  Any-middle (x ∷ before) after a b f (here p) = here p
  Any-middle (x ∷ before) after a b f (there h) = there (Any-middle before after a b f h)

  -- What holds of all holds of the one that is found.
  pub Any-of-All {κ μ ν} :
      {P : A → Type κ} {Q : A → Type μ} {R : Type ν} (xs : List A)
      → All P xs
      → Any Q xs
      → ((x : A) → P x → Q x → R)
      → R
  Any-of-All [] all h f = elim h [ ]
  Any-of-All (x ∷ xs) all (here q) f = f x all.0 q
  Any-of-All (x ∷ xs) all (there h) f = Any-of-All xs all.1 h f

  pub In-of-Any {κ} : {P : A → Type κ} (xs : List A) → Any P xs → (x : A) × In x xs × P x
  In-of-Any [] h = elim h [ ]
  In-of-Any (x ∷ xs) (here p) = (x, here refl, p)
  In-of-Any (x ∷ xs) (there h) = let (y, m, p) = In-of-Any xs h in (y, there m, p)

  pub Any-of-In {κ} : {P : A → Type κ} (a : A) (xs : List A) → In a xs → P a → Any P xs
  Any-of-In a [] m p = elim m [ ]
  Any-of-In {P} a (x ∷ xs) (here e) p = here (subst P (sym e) p)
  Any-of-In a (x ∷ xs) (there m) p = there (Any-of-In a xs m p)

module _ {ℓ} {A : Type ℓ} where
  -- The one list is the other with more at its end.
  abbrev pub IsPrefix : List A → List A → Type ℓ
  IsPrefix xs ys = (new : List A) × (ys ≡ xs ++ new)

  pub IsPrefix-refl : (xs : List A) → IsPrefix xs xs
  IsPrefix-refl xs = ([], sym (append-nil xs))

  pub IsPrefix-of_eq : {xs ys : List A} → ys ≡ xs → IsPrefix xs ys
  IsPrefix-of_eq {xs} e = subst (IsPrefix xs) (sym e) (IsPrefix-refl xs)

  pub IsPrefix-trans : (xs ys zs : List A) → IsPrefix xs ys → IsPrefix ys zs → IsPrefix xs zs
  IsPrefix-trans xs ys zs (new, p) (newer, q) = (new ++ newer, cc (p, q, append_assoc xs new newer))

module _ {ℓ κ} {A : Type ℓ} {B : Type κ} where
  pub Any-map {μ} :
      {P : B → Type μ} (f : A → B) (xs : List A) → Any (λ x. P (f x)) xs → Any P (map f xs)
  Any-map f _ (here p) = here p
  Any-map f _ (there {xs = ys} h) = there (Any-map f ys h)

  pub Any-of-map {μ} :
      {P : B → Type μ} (f : A → B) (xs : List A) → Any P (map f xs) → Any (λ x. P (f x)) xs
  Any-of-map f [] h = elim h [ ]
  Any-of-map f (x ∷ xs) (here p) = here p
  Any-of-map f (x ∷ xs) (there h) = there (Any-of-map f xs h)
