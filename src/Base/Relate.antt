-- ===== src/Base/Relate.antt =====
-- Laws of the predicates `All`, `AllFrom` and `Pairs` under reads and writes.
use Prim.Native.Nat.{ℕ, zero, suc, ◌+◌}
use mathlib.Core.Path.{◌≡◌, refl, ap}
use mathlib.Core.List.{List, [], ◌∷◌, ◌++◌}
use mathlib.Core.Option.{some}
use native.Mathlib.Omega.{arith}
use os.Base.Lists.{length, get_elem?, set, All, AllFrom, Pairs}

module _ {ℓ} {A : Type ℓ} where
  pub All-weaken : {P Q : A → Type 0} (xs : List A) → ((x : A) → P x → Q x) → All P xs → All Q xs
  All-weaken [] k h = tt
  All-weaken (x ∷ xs) k h = (k x h.0, All-weaken xs k h.1)

  pub All-append : (P : A → Type 0) (xs ys : List A) → All P xs → All P ys → All P (xs ++ ys)
  All-append P [] ys h k = k
  All-append P (x ∷ xs) ys h k = (h.0, All-append P xs ys h.1 k)

  pub AllFrom-weaken :
      {P Q : ℕ → A → Type 0} (i : ℕ) (xs : List A)
      → ((j : ℕ) (x : A) → P j x → Q j x)
      → AllFrom P i xs
      → AllFrom Q i xs
  AllFrom-weaken i [] k h = tt
  AllFrom-weaken i (x ∷ xs) k h = (k i x h.0, AllFrom-weaken (suc i) xs k h.1)

  pub AllFrom→All :
      {P : ℕ → A → Type 0} {Q : A → Type 0} (i : ℕ) (xs : List A)
      → ((j : ℕ) (x : A) → P j x → Q x)
      → AllFrom P i xs
      → All Q xs
  AllFrom→All i [] k h = tt
  AllFrom→All i (x ∷ xs) k h = (k i x h.0, AllFrom→All (suc i) xs k h.1)

  pub AllFrom-append :
      (P : ℕ → A → Type 0) (i : ℕ) (xs ys : List A)
      → AllFrom P i xs
      → ((j : ℕ) → j ≡ i + length xs → AllFrom P j ys)
      → AllFrom P i (xs ++ ys)
  AllFrom-append P i [] ys h k = k i (omega arith)
  AllFrom-append P i (x ∷ xs) ys h k =
      (h.0, AllFrom-append P (suc i) xs ys h.1 (λ j e. k j (omega arith)))

  pub AllFrom-get :
      (P : ℕ → A → Type 0) (i : ℕ) (xs : List A) (j k : ℕ) {x : A}
      → AllFrom P i xs
      → get_elem? xs j ≡ some x
      → k ≡ i + j
      → P k x
  AllFrom-get P i [] j k h e q = cc
  AllFrom-get P i (y ∷ xs) zero k {x} h e q =
      let p : i ≡ k = omega arith in let r : y ≡ x = cc in rw (← p, ← r) h.0
  AllFrom-get P i (y ∷ xs) (suc j) k h e q = AllFrom-get P (suc i) xs j k h.1 e (omega arith)

  pub AllFrom-set :
      (P : ℕ → A → Type 0) (i : ℕ) (xs : List A) (j : ℕ) (x : A)
      → AllFrom P i xs
      → ((k : ℕ) → k ≡ i + j → P k x)
      → AllFrom P i (set xs j x)
  AllFrom-set P i [] j x h q = tt
  AllFrom-set P i (y ∷ xs) zero x h q = (q i (omega arith), h.1)
  AllFrom-set P i (y ∷ xs) (suc j) x h q =
      (h.0, AllFrom-set P (suc i) xs j x h.1 (λ k e. q k (omega arith)))

  pub All-set : (P : A → Type 0) (xs : List A) (j : ℕ) (x : A) → All P xs → P x → All P (set xs j x)
  All-set P [] j x h q = tt
  All-set P (y ∷ xs) zero x h q = (q, h.1)
  All-set P (y ∷ xs) (suc j) x h q = (h.0, All-set P xs j x h.1 q)

  pub All-get :
      (P : A → Type 0) (xs : List A) (j : ℕ) {x : A} → All P xs → get_elem? xs j ≡ some x → P x
  All-get P [] j h e = cc
  All-get P (y ∷ xs) zero {x} h e = let r : y ≡ x = cc in rw (← r) h.0
  All-get P (y ∷ xs) (suc j) h e = All-get P xs j h.1 e

  pub Pairs-refl : (R : A → A → Type 0) (xs : List A) → ((x : A) → R x x) → Pairs R xs xs
  Pairs-refl R [] k = tt
  Pairs-refl R (x ∷ xs) k = (k x, Pairs-refl R xs k)

  pub Pairs-weaken :
      {R S : A → A → Type 0} (xs ys : List A)
      → ((x y : A) → R x y → S x y)
      → Pairs R xs ys
      → Pairs S xs ys
  Pairs-weaken [] [] k h = tt
  Pairs-weaken [] (y ∷ ys) k h = absurd h
  Pairs-weaken (x ∷ xs) [] k h = absurd h
  Pairs-weaken (x ∷ xs) (y ∷ ys) k h = (k x y h.0, Pairs-weaken xs ys k h.1)

  pub Pairs-trans :
      {R S T : A → A → Type 0} (xs ys zs : List A)
      → ((x y z : A) → R x y → S y z → T x z)
      → Pairs R xs ys
      → Pairs S ys zs
      → Pairs T xs zs
  Pairs-trans [] [] [] k h h' = tt
  Pairs-trans [] [] (z ∷ zs) k h h' = absurd h'
  Pairs-trans [] (y ∷ ys) zs k h h' = absurd h
  Pairs-trans (x ∷ xs) [] zs k h h' = absurd h
  Pairs-trans (x ∷ xs) (y ∷ ys) [] k h h' = absurd h'
  Pairs-trans (x ∷ xs) (y ∷ ys) (z ∷ zs) k h h' =
      (k x y z h.0 h'.0, Pairs-trans xs ys zs k h.1 h'.1)

  pub Pairs-length : (R : A → A → Type 0) (xs ys : List A) → Pairs R xs ys → length ys ≡ length xs
  Pairs-length R [] [] h = refl
  Pairs-length R [] (y ∷ ys) h = absurd h
  Pairs-length R (x ∷ xs) [] h = absurd h
  Pairs-length R (x ∷ xs) (y ∷ ys) h = ap suc (Pairs-length R xs ys h.1)

  pub Pairs-get :
      (R : A → A → Type 0) (xs ys : List A) (i : ℕ) {x : A}
      → Pairs R xs ys
      → get_elem? xs i ≡ some x
      → (y : A) × (get_elem? ys i ≡ some y) × R x y
  Pairs-get R [] ys i h e = cc
  Pairs-get R (x ∷ xs) [] i h e = absurd h
  Pairs-get R (x' ∷ xs) (y ∷ ys) zero {x} h e = let r : x' ≡ x = cc in (y, refl, rw (← r) h.0)
  Pairs-get R (x' ∷ xs) (y ∷ ys) (suc i) h e = Pairs-get R xs ys i h.1 e

  -- A write relates to what stood there before.
  pub Pairs-set :
      (R : A → A → Type 0) (xs : List A) (i : ℕ) {x : A} (y : A)
      → ((z : A) → R z z)
      → get_elem? xs i ≡ some x
      → R x y
      → Pairs R xs (set xs i y)
  Pairs-set R [] i y k e h = tt
  Pairs-set R (x' ∷ xs) zero {x} y k e h = let r : x' ≡ x = cc in (rw r h, Pairs-refl R xs k)
  Pairs-set R (x' ∷ xs) (suc i) y k e h = (k x', Pairs-set R xs i y k e h)

  pub All-Pairs :
      {P : A → Type 0} {R : A → A → Type 0} (xs ys : List A)
      → ((x y : A) → R x y → P x → P y)
      → Pairs R xs ys
      → All P xs
      → All P ys
  All-Pairs [] [] k h a = tt
  All-Pairs [] (y ∷ ys) k h a = absurd h
  All-Pairs (x ∷ xs) [] k h a = absurd h
  All-Pairs (x ∷ xs) (y ∷ ys) k h a = (k x y h.0 a.0, All-Pairs xs ys k h.1 a.1)

  pub AllFrom-Pairs :
      {P : ℕ → A → Type 0} {R : A → A → Type 0} (i : ℕ) (xs ys : List A)
      → ((j : ℕ) (x y : A) → R x y → P j x → P j y)
      → Pairs R xs ys
      → AllFrom P i xs
      → AllFrom P i ys
  AllFrom-Pairs i [] [] k h a = tt
  AllFrom-Pairs i [] (y ∷ ys) k h a = absurd h
  AllFrom-Pairs i (x ∷ xs) [] k h a = absurd h
  AllFrom-Pairs i (x ∷ xs) (y ∷ ys) k h a = (k i x y h.0 a.0, AllFrom-Pairs (suc i) xs ys k h.1 a.1)
