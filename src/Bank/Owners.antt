-- ===== src/Bank/Owners.antt =====
-- Who has the mutex of an account.
use os.Base.{
  ℕ, ◌<◌, Bool, true, false, some, List, [], ◌∷◌, ◌==◌, ◌≡◌, arith, refl, Bool-cases, inl, inr,
}
use os.Base.Int.{ℤ}
use os.Bank.{Call, account_of, Stage, Bank, call_step, thread_step, Step, turn, open_bank}

abbrev pub holds : ℕ → List Call → Stage → Bool
holds k [] p = false
holds k (c ∷ cs) Stage.outside = false
holds k (c ∷ cs) _ = account_of c == k

-- The balance that a thread has read is the one that stands there.
abbrev pub Fresh : (ℕ → ℤ) → List Call → Stage → Type 0
Fresh balance (c ∷ cs) (Stage.loaded r) = r ≡ balance (account_of c)
Fresh balance _ _ = Unit {0}

abbrev pub Owns : Bank → ℕ → ℕ → Type 0
Owns b k i = holds k (b.thread i).calls (b.thread i).stage ≡ true

pub record IsBank (n : ℕ) (b : Bank) : Type 0 where
  pub owned : (i k : ℕ) → Owns b k i → b.lock k ≡ true
  pub alone : (i j k : ℕ) → Owns b k i → Owns b k j → i ≡ j
  pub fresh : (i : ℕ) → Fresh b.balance (b.thread i).calls (b.thread i).stage
  pub held : (k : ℕ) → b.lock k ≡ true → (i : ℕ) × (i < n) × Owns b k i

module _ (n i : ℕ) (l : i < n) (c : Call) (cs : List Call) where
  step-owned :
      (p : Stage) (b : Bank) {b' : Bank}
      → (b.thread i).calls ≡ c ∷ cs
      → (b.thread i).stage ≡ p
      → call_step i c cs p b ≡ some b'
      → IsBank n b
      → (j k : ℕ) → Owns b' k j
      → b'.lock k ≡ true
  step-owned Stage.outside b e f q h j k o = let old = h.owned j k in ground arith
  step-owned Stage.locked b e f q h j k o = let old = h.owned j k in ground arith
  step-owned (Stage.loaded r) b e f q h j k o = let old = h.owned j k in ground arith
  step-owned Stage.stored b e f q h j k o =
      let old = h.owned j k in let mine = h.alone i j (account_of c) in ground arith

  step-alone :
      (p : Stage) (b : Bank) {b' : Bank}
      → (b.thread i).calls ≡ c ∷ cs
      → (b.thread i).stage ≡ p
      → call_step i c cs p b ≡ some b'
      → IsBank n b
      → (j m k : ℕ) → Owns b' k j
      → Owns b' k m
      → j ≡ m
  step-alone p b e f q h j m k o o' =
      let both = h.alone j m k in let old = h.owned j k in let old' = h.owned m k in ground arith

  step-Fresh :
      (p : Stage) (b : Bank) {b' : Bank}
      → (b.thread i).calls ≡ c ∷ cs
      → (b.thread i).stage ≡ p
      → call_step i c cs p b ≡ some b'
      → IsBank n b
      → (j : ℕ) → Fresh b'.balance (b'.thread j).calls (b'.thread j).stage
  step-Fresh p b e f q h j =
      let both = h.alone i j (account_of c) in let old = h.fresh j in ground arith

  step-held :
      (p : Stage) (b : Bank) {b' : Bank}
      → (b.thread i).calls ≡ c ∷ cs
      → (b.thread i).stage ≡ p
      → call_step i c cs p b ≡ some b'
      → IsBank n b
      → (k : ℕ) → b'.lock k ≡ true
      → (j : ℕ) × (j < n) × Owns b' k j
  step-held Stage.outside b e f q h k o = elim (Bool-cases (account_of c == k)) [
    | inl mine ↦ (i, l, ground arith)
    | inr theirs ↦ let (j, lt, own) = h.held k (ground arith) in (j, lt, ground arith)
  ]
  step-held Stage.locked b e f q h k o =
      let (j, lt, own) = h.held k (ground arith) in (j, lt, ground arith)
  step-held (Stage.loaded r) b e f q h k o =
      let (j, lt, own) = h.held k (ground arith) in (j, lt, ground arith)
  step-held Stage.stored b e f q h k o =
      let (j, lt, own) = h.held k (ground arith) in (j, lt, ground arith)

by_calls :
    {n : ℕ} {b b' : Bank} (i : ℕ) (cs : List Call)
    → i < n
    → (b.thread i).calls ≡ cs
    → thread_step i cs (b.thread i).stage b ≡ some b'
    → IsBank n b
    → IsBank n b'
by_calls i [] l e q h = cc
by_calls {n} {b} i (c ∷ cs) l e q h = record {
  owned = step-owned n i l c cs (b.thread i).stage b e refl q h;
  alone = step-alone n i l c cs (b.thread i).stage b e refl q h;
  fresh = step-Fresh n i l c cs (b.thread i).stage b e refl q h;
  held = step-held n i l c cs (b.thread i).stage b e refl q h;
}

pub Step-IsBank : {n : ℕ} {b b' : Bank} → Step n b b' → IsBank n b → IsBank n b'
Step-IsBank {b = b} (turn i l q) h = by_calls i (b.thread i).calls l refl q h

pub open_bank-IsBank :
    (n : ℕ) (balance : ℕ → ℤ) (tasks : ℕ → List Call) → IsBank n (open_bank balance tasks)
open_bank-IsBank n balance tasks = record {
  owned = λ i k o. absurd (nothing k (tasks i) o);
  alone = λ i j k o o'. absurd (nothing k (tasks i) o);
  fresh = λ i. fine (tasks i);
  held = λ k o. cc;
}
  where
    nothing : (k : ℕ) (cs : List Call) → holds k cs Stage.outside ≡ true → ⊥
    nothing k [] o = cc
    nothing k (c ∷ cs) o = cc

    fine : (cs : List Call) → Fresh balance cs Stage.outside
    fine [] = tt
    fine (c ∷ cs) = tt
