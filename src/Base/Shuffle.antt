-- ===== src/Base/Shuffle.antt =====
-- One list reordered into another, as the swaps that do it.
use Prim.Native.Nat.{ℕ, ◌+◌}
use mathlib.Core.Path.{◌≡◌, refl, subst, ◌∙◌}
use mathlib.Core.Logic.{◌≢◌}
use mathlib.Core.List.{List, [], ◌∷◌, ◌++◌}
use native.Mathlib.Omega.{arith}
use os.Base.Lists.{All}

pub data Shuffle {ℓ} {A : Type ℓ} : List A → List A → Type ℓ where
  same : (xs : List A) → Shuffle xs xs
  skip : {xs ys : List A} (x : A) → Shuffle xs ys → Shuffle (x ∷ xs) (x ∷ ys)
  swap : (x y : A) (xs : List A) → Shuffle (x ∷ y ∷ xs) (y ∷ x ∷ xs)
  trans : {xs ys zs : List A} → Shuffle xs ys → Shuffle ys zs → Shuffle xs zs

module _ {ℓ} {A : Type ℓ} where
  pub Shuffle-of_eq : {xs ys : List A} → xs ≡ ys → Shuffle xs ys
  Shuffle-of_eq {xs = xs} e = subst (λ l. Shuffle xs l) e (Shuffle.same xs)

  pub Shuffle-sym : {xs ys : List A} → Shuffle xs ys → Shuffle ys xs
  Shuffle-sym (Shuffle.same xs) = Shuffle.same xs
  Shuffle-sym (Shuffle.skip x p) = Shuffle.skip x (Shuffle-sym p)
  Shuffle-sym (Shuffle.swap x y xs) = Shuffle.swap y x xs
  Shuffle-sym (Shuffle.trans p q) = Shuffle.trans (Shuffle-sym q) (Shuffle-sym p)

  pub Shuffle-All : {xs ys : List A} (P : A → Type 0) → Shuffle xs ys → All P ys → All P xs
  Shuffle-All P (Shuffle.same xs) h = h
  Shuffle-All P (Shuffle.skip x p) (h, hs) = (h, Shuffle-All P p hs)
  Shuffle-All P (Shuffle.swap x y xs) (h, (k, hs)) = (k, (h, hs))
  Shuffle-All P (Shuffle.trans p q) h = Shuffle-All P p (Shuffle-All P q h)

  pub Shuffle-ne-nil : {xs ys : List A} → Shuffle xs ys → ys ≢ [] → xs ≢ []
  Shuffle-ne-nil (Shuffle.same xs) h e = h e
  Shuffle-ne-nil (Shuffle.skip x p) h e = cc
  Shuffle-ne-nil (Shuffle.swap x y xs) h e = cc
  Shuffle-ne-nil (Shuffle.trans p q) h e = Shuffle-ne-nil p (Shuffle-ne-nil q h) e

  pub Shuffle-append :
      {xs ys : List A} (zs : List A) → Shuffle xs ys → Shuffle (xs ++ zs) (ys ++ zs)
  Shuffle-append zs (Shuffle.same xs) = Shuffle.same (xs ++ zs)
  Shuffle-append zs (Shuffle.skip x p) = Shuffle.skip x (Shuffle-append zs p)
  Shuffle-append zs (Shuffle.swap x y xs) = Shuffle.swap x y (xs ++ zs)
  Shuffle-append zs (Shuffle.trans p q) = Shuffle.trans (Shuffle-append zs p) (Shuffle-append zs q)

  pub Shuffle-insert : (x : A) (xs ys : List A) → Shuffle (x ∷ (xs ++ ys)) (xs ++ x ∷ ys)
  Shuffle-insert x [] ys = Shuffle.same (x ∷ ys)
  Shuffle-insert x (z ∷ zs) ys =
      Shuffle.trans (Shuffle.swap x z (zs ++ ys)) (Shuffle.skip z (Shuffle-insert x zs ys))

  -- The sum of a number for each element.
  unfoldable pub sum_by : (A → ℕ) → List A → ℕ
  sum_by f [] = 0
  sum_by f (x ∷ xs) = f x + sum_by f xs

  pub Shuffle-sum_by : {xs ys : List A} (f : A → ℕ) → Shuffle xs ys → sum_by f xs ≡ sum_by f ys
  unfolding sum_by
  Shuffle-sum_by f (Shuffle.same xs) = refl
  Shuffle-sum_by f (Shuffle.skip x p) = omega (arith, Shuffle-sum_by f p)
  Shuffle-sum_by f (Shuffle.swap x y xs) = omega arith
  Shuffle-sum_by f (Shuffle.trans p q) = Shuffle-sum_by f p ∙ Shuffle-sum_by f q
