-- ===== src/Philosophers/Finish.antt =====
-- From every state that the threads can reach, all philosophers can finish.
use os.Base.Family.{Everyone, Everyone-below}
use os.Base.{ℕ, zero, suc, ◌≤◌, ◌<◌, false, ◌≡◌, refl, ap, ◌∙◌, subst, arith}
use native.Mathlib.Decide.{ℕ_discrete}
use os.Philosophers.{Seat, Table, laid, Steps, here}
use os.Philosophers.Safe.{has_left, Held, IsTable, Steps-IsTable, laid-IsTable, left_of}
use os.Philosophers.Alone.{Steps-append, settle, finish}

module _ (n : ℕ) (many : 1 < n) where
  -- A later state of the table in which the philosophers below k are as Q says.
  abbrev Below : (Seat → Type 0) → ℕ → Table → Type 0
  Below Q k t = (u : Table) × Steps n t u × IsTable n u × ((j : ℕ) → j < k → Q (u.seat j))

  settle_all : (k : ℕ) (t : Table) → k ≤ n → IsTable n t → Below (λ p. has_left p ≡ false) k t
  settle_all zero t b h = (t, here t, h, λ j l. absurd (omega arith))
  settle_all (suc k) t b h =
      let (u, s, g, low) = settle_all k t (omega arith) h in
      let r = settle n many k (omega arith) (u.seat k) u refl g in
      (
        r.last,
        Steps-append n s r.steps,
        r.table,
        λ j l. elim (ℕ_discrete k j) [
          | yes e ↦ subst (λ m. has_left (r.last.seat m) ≡ false) e r.reached
          | no ne ↦ ap has_left (r.others j ne) ∙ low j (omega arith)
        ],
      )

  finish_all :
      (k : ℕ) (t : Table)
      → k ≤ n
      → IsTable n t
      → ((j : ℕ) → j < n → has_left (t.seat j) ≡ false)
      → (u : Table) × Steps n t u
        × IsTable n u
        × ((j : ℕ) → j < k → u.seat j ≡ Seat.left_table)
        × ((j : ℕ) → j < n → has_left (u.seat j) ≡ false)
  finish_all zero t b h rest = (t, here t, h, λ j l. absurd (omega arith), rest)
  finish_all (suc k) t b h rest =
      let (u, s, g, low, quiet) = finish_all k t (omega arith) h rest in
      let r =
        finish n many k (omega arith) (u.seat k) u refl (quiet k (omega arith)) g
          (λ j l ne. quiet j l) in
      (
        r.last,
        Steps-append n s r.steps,
        r.table,
        λ j l. elim (ℕ_discrete k j) [
          | yes e ↦ subst (λ m. r.last.seat m ≡ Seat.left_table) e r.reached
          | no ne ↦ r.others j ne ∙ low j (omega arith)
        ],
        λ j l. elim (ℕ_discrete k j) [
          | yes e ↦ subst (λ m. has_left (r.last.seat m) ≡ false) e (ap has_left r.reached)
          | no ne ↦ ap has_left (r.others j ne) ∙ quiet j l
        ],
      )

-- With two philosophers or more, from every state that the threads can reach from the table that
-- main lays there are steps to a state in which every philosopher has left the table with all its
-- food eaten and every mutex is unlocked: no state is a deadlock, and main's pthread_join calls can
-- all return.
pub dinner_ends :
    {n : ℕ} {t : Table}
    → 1 < n
    → Steps n laid t
    → (u : Table) × Steps n t u
      × Everyone (λ j. (u.seat j ≡ Seat.left_table) × (u.food j ≡ 0) × (u.locks j ≡ false)) n
dinner_ends {n} {t} many s =
    let h = Steps-IsTable many s (laid-IsTable n) in
    let (v, s', g, quiet) = settle_all n many n t (omega arith) h in
    let (u, more, k, gone, quiet') = finish_all n many n v (omega arith) g quiet in
    (
      u,
      Steps-append n s' more,
      Everyone-below _ n (λ j l.
          let fed = k.fed j in
          let (i, lt, e) = left_of n j l in
          let own : Held (u.locks j) (u.seat j) (u.seat i) =
            subst (λ m. Held (u.locks m) (u.seat m) (u.seat i)) e (k.held i lt) in
          let a = gone j l in let b = gone i lt in (a, fed.1 a, ground arith)),
    )
