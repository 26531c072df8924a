-- ===== src/Bank/Finish.antt =====
-- The threads of the bank all end, and no deposit or withdrawal is lost.
use os.Base.{
  ℕ, zero, suc, ◌+◌, ◌*◌, ◌<◌, true, some, List, [], ◌∷◌, length, Bool-cases, inl, inr, ◌⊎◌, ◌≡◌,
  arith, refl, ap, ◌∙◌,
}
use os.Base.Int.{ℤ, pos, ◌+ℤ◌, int_laws}
use os.Base.Family.{update, Everyone, sum_ℤ, sum}
use os.Bank.{Call, account_of, Stage, Thread, Bank, thread_step, Step, turn, Steps, open_bank}
use os.Bank.Sums.{effects, calls_left, to_come}
use os.Bank.Owners.{holds, IsBank, open_bank-IsBank}
use os.Bank.Balance.{left, standing, count, Steps-IsBank, Steps-total, Steps-left}

abbrev pub HasEnded : Bank → ℕ → Type 0
HasEnded b i = (b.thread i).calls ≡ []

-- Every thread has ended, or one has a call left.
find_busy :
    (n : ℕ) (b : Bank)
    → Everyone (HasEnded b) n
      ⊎ ((i : ℕ) × (i < n) × (c : Call) × (cs : List Call) × ((b.thread i).calls ≡ c ∷ cs))
find_busy zero b = inl tt
find_busy (suc n) b = by_last (b.thread n).calls refl (find_busy n b)
  where
    by_last :
        (cs : List Call)
        → (b.thread n).calls ≡ cs
        → Everyone (HasEnded b) n
          ⊎ ((i : ℕ) × (i < n) × (c : Call) × (cs : List Call) × ((b.thread i).calls ≡ c ∷ cs))
        → Everyone (HasEnded b) (suc n)
          ⊎ ((i : ℕ) × (i < suc n) × (c : Call) × (cs : List Call) × ((b.thread i).calls ≡ c ∷ cs))
    by_last cs e (inr (i, l, c, ds, q)) = inr (i, omega arith, c, ds, q)
    by_last [] e (inl all) = inl (e, all)
    by_last (c ∷ cs) e (inl all) = inr (n, omega arith, c, cs, e)

abbrev CanStep : ℕ → Bank → Type 0
CanStep n b = (b' : Bank) × Step n b b'

move :
    {n : ℕ} {b b' : Bank} (i : ℕ) (cs : List Call) (p : Stage)
    → i < n
    → b.thread i ≡ standing cs p
    → thread_step i cs p b ≡ some b'
    → CanStep n b
move {b = b} {b'} i cs p l e q =
    (b', turn i l (ap (λ (t : Thread). thread_step i t.calls t.stage b) e ∙ q))

-- A thread that has a mutex does not block.
owner_moves :
    {n : ℕ} (b : Bank) (i k : ℕ) (cs : List Call) (p : Stage)
    → i < n
    → b.thread i ≡ standing cs p
    → holds k cs p ≡ true
    → CanStep n b
owner_moves b i k [] p l e o = cc
owner_moves b i k (c ∷ cs) Stage.outside l e o = cc
owner_moves b i k (c ∷ cs) Stage.locked l e o = move i (c ∷ cs) Stage.locked l e refl
owner_moves b i k (c ∷ cs) (Stage.loaded r) l e o = move i (c ∷ cs) (Stage.loaded r) l e refl
owner_moves b i k (c ∷ cs) Stage.stored l e o = move i (c ∷ cs) Stage.stored l e refl

busy_moves :
    {n : ℕ} (b : Bank) (i : ℕ) (c : Call) (cs : List Call) (p : Stage)
    → i < n
    → b.thread i ≡ standing (c ∷ cs) p
    → IsBank n b
    → CanStep n b
busy_moves b i c cs Stage.outside l e h = elim (Bool-cases (b.lock (account_of c))) [
  | inl taken ↦
      let (j, m, own) = h.held (account_of c) taken in
      owner_moves b j (account_of c) (b.thread j).calls (b.thread j).stage m refl own
  | inr free ↦
      move
        {b' = record b {
          lock = update b.lock (account_of c) true;
          thread = update b.thread i (standing (c ∷ cs) Stage.locked);
        }}
        i (c ∷ cs) Stage.outside l e (rw free refl)
]
busy_moves b i c cs Stage.locked l e h = move i (c ∷ cs) Stage.locked l e refl
busy_moves b i c cs (Stage.loaded r) l e h = move i (c ∷ cs) (Stage.loaded r) l e refl
busy_moves b i c cs Stage.stored l e h = move i (c ∷ cs) Stage.stored l e refl

-- What the sums are at the start and at the end.
sum-open :
    (n : ℕ) (balance : ℕ → ℤ) (tasks : ℕ → List Call)
    → sum left n (open_bank balance tasks).thread ≡ sum (λ cs. 4 * length cs) n tasks
unfolding sum
sum-open zero balance tasks = refl
sum-open (suc n) balance tasks = rw (sum-open n balance tasks) (by_calls (tasks n))
  where
    by_calls :
        (cs : List Call)
        → sum (λ cs. 4 * length cs) n tasks + left (standing cs Stage.outside)
          ≡ sum (λ cs. 4 * length cs) n tasks + 4 * length cs
    by_calls [] = refl
    by_calls (c ∷ cs) = omega arith

to_come-open :
    (k n : ℕ) (balance : ℕ → ℤ) (tasks : ℕ → List Call)
    → sum_ℤ (to_come k) n (open_bank balance tasks).thread ≡ sum_ℤ (effects k) n tasks
unfolding sum_ℤ to_come
to_come-open k zero balance tasks = refl
to_come-open k (suc n) balance tasks =
    rw (to_come-open k n balance tasks)
      (ap (λ ds. sum_ℤ (effects k) n tasks +ℤ effects k ds) (whole (tasks n)))
  where
    whole : (cs : List Call) → calls_left cs Stage.outside ≡ cs
    whole [] = refl
    whole (c ∷ cs) = refl

to_come-ended :
    (k n : ℕ) (b : Bank) → Everyone (HasEnded b) n → sum_ℤ (to_come k) n b.thread ≡ pos 0
unfolding sum_ℤ to_come effects
to_come-ended k zero b h = refl
to_come-ended k (suc n) b (e, h) = rw (to_come-ended k n b h, e) (unfold ◌+ℤ◌ in refl)

-- However the threads take their turns: each call takes four steps, so that there are no more than
-- that many in all; and in every state that they reach, either some thread can go on, or all have
-- ended and every account has its first balance and the sum of all deposits to it less all
-- withdrawals from it.
pub bank_lem :
    (n : ℕ) (balance : ℕ → ℤ) (tasks : ℕ → List Call) {b : Bank}
    (r : Steps n (open_bank balance tasks) b)
    → (count r + sum left n b.thread ≡ sum (λ cs. 4 * length cs) n tasks)
      × (((b' : Bank) × Step n b b')
          ⊎ (Everyone (HasEnded b) n
              × ((k : ℕ) → b.balance k ≡ balance k +ℤ sum_ℤ (effects k) n tasks)))
bank_lem n balance tasks {b} r =
    let start = open_bank-IsBank n balance tasks in
    (
      Steps-left r start ∙ sum-open n balance tasks,
      elim (find_busy n b) [
        | inr (i, l, c, cs, e) ↦ inl (
            busy_moves b i c cs (b.thread i).stage l (ap (λ ds. standing ds (b.thread i).stage) e)
              (Steps-IsBank r start))
        | inl ended ↦ inr (
          ended,
          λ k.
              no_more k (b.balance k) (sum_ℤ (to_come k) n b.thread) (to_come-ended k n b ended)
              ∙ Steps-total k r start
              ∙ ap (λ s. balance k +ℤ s) (to_come-open k n balance tasks),
        )
      ],
    )
  where
    no_more : (k : ℕ) (a s : ℤ) → s ≡ pos 0 → a ≡ a +ℤ s
    no_more k a s e = rw e (omega int_laws)
