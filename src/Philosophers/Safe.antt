-- ===== src/Philosophers/Safe.antt =====
-- What holds in every state of the table.

use os.Base.{
  ℕ, ◌+◌, ◌-◌, ◌<◌, Bool, true, false, ◌&&◌, ◌||◌, some, ◌≡◌, refl, ◌≢◌, subst, arith, ◌⊎◌, inl,
  inr,
}
use native.Mathlib.Decide.{dec_lt, ℕ_discrete}
use native.Mathlib.Nat.{mod-eq_of_lt, mod_self}
use os.Philosophers.{Seat, Table, right_of, laid, dine, Step, turn, Steps, here}

abbrev pub has_left : Seat → Bool
has_left Seat.trylock_right = true
has_left Seat.eating = true
has_left Seat.unlock_right = true
has_left Seat.unlock_left = true
has_left _ = false

abbrev pub has_right : Seat → Bool
has_right Seat.eating = true
has_right Seat.unlock_right = true
has_right _ = false

-- From the loop's test to the bite.
abbrev pub hungry : Seat → Bool
hungry Seat.lock_left = true
hungry Seat.trylock_right = true
hungry Seat.eating = true
hungry _ = false

-- A mutex is locked exactly while one of its two philosophers has it; they never both do.
abbrev pub Held : Bool → Seat → Seat → Type 0
Held b p q = (b ≡ (has_left p || has_right q)) × ((has_left p && has_right q) ≡ false)

abbrev pub Fed : ℕ → Seat → Type 0
Fed k p = (hungry p ≡ true → 0 < k) × (p ≡ Seat.left_table → k ≡ 0)

pub record IsTable (n : ℕ) (t : Table) : Type 0 where
  pub held : (j : ℕ) → j < n → Held (t.locks (right_of n j)) (t.seat (right_of n j)) (t.seat j)
  pub fed : (j : ℕ) → Fed (t.food j) (t.seat j)

pub right_of-cases :
    (n j : ℕ) → j < n → ((j + 1 < n) × (right_of n j ≡ j + 1)) ⊎ ((j + 1 ≡ n) × (right_of n j ≡ 0))
right_of-cases n j l = elim (dec_lt (j + 1) n) [
  | yes p ↦ inl (p, mod-eq_of_lt p)
  | no p ↦ let e : j + 1 ≡ n = omega arith in inr (e, rw e (mod_self n))
]

pub right_of-lt : (n j : ℕ) → j < n → right_of n j < n
right_of-lt n j l = ground (arith, right_of-cases n j l)

pub right_of-ne : (n j : ℕ) → 1 < n → j < n → right_of n j ≢ j
right_of-ne n j h l e = ground (arith, right_of-cases n j l)

pub right_of_inj : (n i j : ℕ) → i < n → j < n → right_of n i ≡ right_of n j → i ≡ j
right_of_inj n i j h l e = ground (arith, right_of-cases n i h, right_of-cases n j l)

module _ (n : ℕ) (many : 1 < n) (i : ℕ) (l : i < n) where
  -- The result of a step is a table: what philosopher j sees of it is decided by whether i is j, or j's
  -- neighbour.
  dine-Held :
      (p : Seat) (t : Table) {u : Table}
      → t.seat i ≡ p
      → dine n i p t ≡ some u
      → IsTable n t
      → (j : ℕ) → j < n
      → Held (u.locks (right_of n j)) (u.seat (right_of n j)) (u.seat j)
  dine-Held p t e d h j k =
      let old = h.held j k in
      let own = h.held i l in
      let ne = right_of-ne n j many k in
      let ne' = right_of-ne n i many l in let inj = right_of_inj n i j l k in ground arith

  dine-Fed :
      (p : Seat) (t : Table) {u : Table}
      → t.seat i ≡ p
      → dine n i p t ≡ some u
      → IsTable n t
      → (j : ℕ) → Fed (u.food j) (u.seat j)
  dine-Fed p t e d h j = let old = h.fed j in ground arith

pub Step-IsTable : {n : ℕ} {t u : Table} → 1 < n → Step n t u → IsTable n t → IsTable n u
Step-IsTable {n} {t} many (turn i l e) h = record {
  held = dine-Held n many i l (t.seat i) t refl e h;
  fed = dine-Fed n many i l (t.seat i) t refl e h;
}

pub Steps-IsTable : {n : ℕ} {t u : Table} → 1 < n → Steps n t u → IsTable n t → IsTable n u
Steps-IsTable many (here t) h = h
Steps-IsTable many (Steps.then s more) h = Steps-IsTable many more (Step-IsTable many s h)

pub laid-IsTable : (n : ℕ) → IsTable n laid
laid-IsTable n = record { held = λ j l. (refl, refl); fed = λ j. ground arith }

-- Every mutex is somebody's right one.
pub left_of : (n j : ℕ) → j < n → (i : ℕ) × (i < n) × (right_of n i ≡ j)
left_of n j l = elim (ℕ_discrete j 0) [
  | yes e ↦ (n - 1, omega arith, ground (arith, right_of-cases n (n - 1)))
  | no e ↦ (j - 1, omega arith, ground (arith, right_of-cases n (j - 1)))
]

-- With two philosophers or more, in every state that the threads can reach from the table that main
-- lays, a philosopher about to eat has food left, both of its mutexes are locked, and the neighbour
-- on the right is not about to eat.
pub mutual_exclusion :
    {n : ℕ} {t : Table} {j : ℕ}
    → 1 < n
    → Steps n laid t
    → j < n
    → t.seat j ≡ Seat.eating
    → (0 < t.food j)
      × (t.locks j ≡ true)
      × (t.locks (right_of n j) ≡ true)
      × (t.seat (right_of n j) ≢ Seat.eating)
mutual_exclusion {n} {t} {j} many s l eats =
    let h = Steps-IsTable many s (laid-IsTable n) in
    let (i, k, e) = left_of n j l in
    let theirs : Held (t.locks j) (t.seat j) (t.seat i) =
      subst (λ m. Held (t.locks m) (t.seat m) (t.seat i)) e (h.held i k) in
    let ours = h.held j l in let fed = h.fed j in ground arith
