-- ===== src/Base/Family.antt =====
-- Families indexed by thread: an update at one index, and sums over the first `n`.
use Prim.Native.Nat.{ℕ, zero, suc, ◌+◌, ◌≤◌, ◌<◌}
use mathlib.Core.Path.{◌≡◌, refl, ap}
use native.Mathlib.Decide.{dec_lt}
use native.Mathlib.Omega.{arith}
use os.Base.Tests.{◌==◌, if◌then◌else◌}
use os.Base.Int.{ℤ, pos, pos_part, neg_part, ◌+ℤ◌, int_laws}

abbrev pub update {ℓ} : {A : Type ℓ} → (ℕ → A) → ℕ → A → ℕ → A
update f i x j = if i == j then x else f j

-- The property at each index below `n`.
abbrev pub Everyone : (ℕ → Type 0) → ℕ → Type 0
Everyone P zero = Unit {0}
Everyone P (suc n) = P n × Everyone P n

pub Everyone-below : (P : ℕ → Type 0) (n : ℕ) → ((j : ℕ) → j < n → P j) → Everyone P n
Everyone-below P zero h = tt
Everyone-below P (suc n) h = (h n (omega arith), Everyone-below P n (λ j l. h j (omega arith)))

add_between : (a b c d e : ℤ) → a +ℤ b ≡ c +ℤ d → a +ℤ e +ℤ b ≡ c +ℤ e +ℤ d
add_between a b c d e h = omega (int_laws, ap pos_part h, ap neg_part h)

module _ {ℓ} {A : Type ℓ} where
  -- The sum of a weight.
  unfoldable pub sum_ℤ : (A → ℤ) → ℕ → (ℕ → A) → ℤ
  sum_ℤ w zero f = pos 0
  sum_ℤ w (suc n) f = sum_ℤ w n f +ℤ w (f n)

  sum_ℤ-update_of_le :
      (w : A → ℤ) (n : ℕ) (f : ℕ → A) (i : ℕ) (x : A)
      → n ≤ i
      → sum_ℤ w n (update f i x) ≡ sum_ℤ w n f
  unfolding sum_ℤ
  sum_ℤ-update_of_le w zero f i x h = refl
  sum_ℤ-update_of_le w (suc n) f i x h = ground (arith, sum_ℤ-update_of_le w n f i x)

  pub sum_ℤ-update :
      (w : A → ℤ) (n : ℕ) (f : ℕ → A) (i : ℕ) (x : A)
      → i < n
      → sum_ℤ w n (update f i x) +ℤ w (f i) ≡ sum_ℤ w n f +ℤ w x
  unfolding sum_ℤ
  sum_ℤ-update w zero f i x h = absurd (omega arith)
  sum_ℤ-update w (suc n) f i x h = elim (dec_lt i n) [
    | yes below ↦
        let e : update f i x n ≡ f n = ground arith in
        rw e (add_between _ _ _ _ (w (f n)) (sum_ℤ-update w n f i x below))
    | no last ↦
        let same : i ≡ n = omega arith in
        let e : update f i x n ≡ x = ground arith in
        rw (e, sum_ℤ-update_of_le w n f i x (omega arith), same) (omega int_laws)
  ]

  unfoldable pub sum : (A → ℕ) → ℕ → (ℕ → A) → ℕ
  sum w zero f = 0
  sum w (suc n) f = sum w n f + w (f n)

  sum-update_of_le :
      (w : A → ℕ) (n : ℕ) (f : ℕ → A) (i : ℕ) (x : A) → n ≤ i → sum w n (update f i x) ≡ sum w n f
  unfolding sum
  sum-update_of_le w zero f i x h = refl
  sum-update_of_le w (suc n) f i x h = ground (arith, sum-update_of_le w n f i x)

  pub sum-update :
      (w : A → ℕ) (n : ℕ) (f : ℕ → A) (i : ℕ) (x : A)
      → i < n
      → sum w n (update f i x) + w (f i) ≡ sum w n f + w x
  unfolding sum
  sum-update w zero f i x h = absurd (omega arith)
  sum-update w (suc n) f i x h = elim (dec_lt i n) [
    | yes below ↦ ground (arith, sum-update w n f i x below)
    | no last ↦ ground (arith, sum-update_of_le w n f i x)
  ]
