-- ===== src/Base/Growth.antt =====
-- Lists that grow at their end by a bounded number of elements.
use Prim.Native.Nat.{ℕ, ◌+◌, ◌≤◌}
use mathlib.Core.Path.{◌≡◌, refl, sym, ap, ◌∙◌}
use mathlib.Core.List.{List, [], ◌∷◌, ◌++◌, map, append_assoc, append-nil}
use native.Mathlib.Omega.{arith}
use riskr_rs.Base.Lists.{length, length-append, IsPrefix}

-- At most so many more, at the end.
pub record Gains {ℓ} {A : Type ℓ} (n : ℕ) (xs ys : List A) : Type ℓ where
  pub new : List A
  pub grown : ys ≡ xs ++ new
  pub few : length new ≤ n

module _ {ℓ} {A : Type ℓ} where
  pub ends_with_none : {xs ys : List A} → ys ≡ xs → ys ≡ xs ++ []
  ends_with_none {xs} e = e ∙ sym (append-nil xs)

  pub ends_with_both :
      (xs ys zs new newer : List A) → ys ≡ xs ++ new → zs ≡ ys ++ newer → zs ≡ xs ++ (new ++ newer)
  ends_with_both xs ys zs new newer p q = cc (p, q, append_assoc xs new newer)

  abbrev pub gains_none : (n : ℕ) {xs ys : List A} → ys ≡ xs → Gains n xs ys
  gains_none n e = record { new = []; grown = ends_with_none e; few = omega arith }

  abbrev pub gains_more :
      {m n : ℕ} (k : ℕ) {xs ys zs : List A}
      → (a : Gains m xs ys) (b : Gains n ys zs) → m + n ≤ k
      → Gains k xs zs
  gains_more k {xs} {ys} {zs} a b h = record {
    new = a.new ++ b.new;
    grown = ends_with_both xs ys zs a.new b.new a.grown b.grown;
    few = omega (arith, a.few, b.few, h, length-append a.new b.new);
  }

length-map {ℓ κ} :
    {A : Type ℓ} {B : Type κ} (f : A → B) (xs : List A) → length (map f xs) ≡ length xs
length-map f [] = refl
length-map f (x ∷ xs) = omega (arith, length-map f xs)

empty_of_few {ℓ} : {A : Type ℓ} (xs : List A) → length xs ≤ 0 → xs ≡ []
empty_of_few [] h = refl
empty_of_few (x ∷ xs) h = absurd (omega (arith, h))

-- A list with more at its end, and no longer, has nothing more.
pub same_of_few {ℓ κ} :
    {A : Type ℓ} {B : Type κ} (f : A → B) (n : ℕ) (xs ys : List A)
    → IsPrefix xs ys
    → Gains n (map f xs) (map f ys)
    → n ≡ 0
    → ys ≡ xs
same_of_few f n xs ys (new, p) g none_more =
    p ∙ ap (λ l. xs ++ l) (empty_of_few new few) ∙ append-nil xs
  where
    few : length new ≤ 0
    few = omega (
      arith,
      g.few,
      none_more,
      ap length p,
      length-append xs new,
      ap length g.grown,
      length-append (map f xs) g.new,
      length-map f xs,
      length-map f ys,
    )
