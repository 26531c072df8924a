-- ===== src/Bank.antt =====
-- The bank of CSCI4061-rec9/rec9.c: `n` threads that deposit to, withdraw from and transfer between
-- accounts, interleaved in any order. The amounts are whole numbers far below 2^53, on which a
-- double is exact, so a balance is a whole number. usleep is no step.
pub mod Sums
pub mod Owners
pub mod Balance
pub mod Finish
use os.Base.{
  ℕ, suc, ◌+◌, ◌*◌, ◌/◌, ◌<◌, Bool, true, false, Option, none, some, List, [], ◌∷◌, ltb, ◌==◌,
  if◌then◌else◌, ◌≡◌, refl, All,
}
use os.Base.Int.{ℤ, pos, ◌+ℤ◌, ◌-ℤ◌}
use os.Base.Family.{update}

-- A call of deposit or withdraw on an account, which is named by a number.
pub data Call : Type 0 where
  deposit : (act amt : ℕ) → Call
  withdraw : (act amt : ℕ) → Call

abbrev pub account_of : Call → ℕ
account_of (Call.deposit act amt) = act
account_of (Call.withdraw act amt) = act

-- The balance after the call, from the one that it read.
abbrev pub changed : Call → ℤ → ℤ
changed (Call.deposit act amt) balance = balance +ℤ pos amt
changed (Call.withdraw act amt) balance = balance -ℤ pos amt

-- A task's calls: transfer is a call of withdraw and one of deposit.
abbrev pub deposit_task : ℕ → ℕ → List Call
deposit_task in_ amt = Call.deposit in_ amt ∷ []

abbrev pub withdraw_task : ℕ → ℕ → List Call
withdraw_task out amt = Call.withdraw out amt ∷ []

abbrev pub transfer_task : ℕ → ℕ → ℕ → List Call
transfer_task out in_ amt = Call.withdraw out amt ∷ Call.deposit in_ amt ∷ []

-- Where a thread stands in its first call: before the lock, before the read of the balance, before
-- its write, before the unlock.
pub data Stage : Type 0 where
  outside : Stage
  locked : Stage
  loaded : (balance : ℤ) → Stage
  stored : Stage

pub record Thread : Type 0 where
  pub calls : List Call
  pub stage : Stage

pub record Bank : Type 0 where
  pub balance : ℕ → ℤ
  pub lock : ℕ → Bool
  pub thread : ℕ → Thread

-- The next step of thread i, if it does not block and has not ended.
abbrev pub call_step : ℕ → Call → List Call → Stage → Bank → Option Bank
call_step i c cs Stage.outside b =
    if b.lock (account_of c)
    then none
    else some (record b {
      lock = update b.lock (account_of c) true;
      thread = update b.thread i (record { calls = c ∷ cs; stage = Stage.locked });
    })
call_step i c cs Stage.locked b = some (record b {
  thread =
      update b.thread i
        (record { calls = c ∷ cs; stage = Stage.loaded (b.balance (account_of c)) });
})
call_step i c cs (Stage.loaded r) b = some (record b {
  balance = update b.balance (account_of c) (changed c r);
  thread = update b.thread i (record { calls = c ∷ cs; stage = Stage.stored });
})
call_step i c cs Stage.stored b = some (record b {
  lock = update b.lock (account_of c) false;
  thread = update b.thread i (record { calls = cs; stage = Stage.outside });
})

abbrev pub thread_step : ℕ → List Call → Stage → Bank → Option Bank
thread_step i [] p b = none
thread_step i (c ∷ cs) p b = call_step i c cs p b

pub data Step (n : ℕ) (b b' : Bank) : Type 0 where
  turn :
      (i : ℕ)
      → i < n
      → thread_step i (b.thread i).calls (b.thread i).stage b ≡ some b'
      → Step n b b'

pub data Steps (n : ℕ) : Bank → Bank → Type 0 where
  here : (b : Bank) → Steps n b b
  then : {b c d : Bank} → Step n b c → Steps n c d → Steps n b d

-- The accounts at the start, and the threads with their tasks.
abbrev pub open_bank : (ℕ → ℤ) → (ℕ → List Call) → Bank
open_bank balance tasks = record {
  balance = balance;
  lock = λ _. false;
  thread = λ i. record { calls = tasks i; stage = Stage.outside };
}

-- main's accounts are 1 and 2.
abbrev pub first_balance : ℕ → ℤ
first_balance act = if act == 1 then pos 2500 else pos 3000

-- The threads that main creates.
abbrev pub pool : ℕ → List Call
pool i =
    if ltb i 400
    then deposit_task (if i / 200 == 0 then 2 else 1) (i * 100)
    else if ltb i 800
    then withdraw_task (if i / 600 == 0 then 2 else 1) (i * 25)
    else transfer_task (if i / 900 == 0 then 2 else 1) (if i / 900 == 0 then 1 else 2) i

-- The same by evaluation: the threads take their steps in the order of a list.
abbrev pub turn_or : Option Bank → Bank → Bank
turn_or none b = b
turn_or (some b') b = b'

abbrev pub bank_after : List ℕ → Bank → Bank
bank_after [] b = b
bank_after (i ∷ is) b =
    bank_after is (turn_or (thread_step i (b.thread i).calls (b.thread i).stage b) b)

step_or :
    {n : ℕ} {b d : Bank} (i : ℕ) (o : Option Bank)
    → i < n
    → thread_step i (b.thread i).calls (b.thread i).stage b ≡ o
    → Steps n (turn_or o b) d
    → Steps n b d
step_or i none l e more = more
step_or i (some b') l e more = Steps.then (Step.turn i l e) more

pub bank_after-Steps :
    (n : ℕ) (is : List ℕ) (b : Bank) → All (λ i. i < n) is → Steps n b (bank_after is b)
bank_after-Steps n [] b h = Steps.here b
bank_after-Steps n (i ∷ is) b h =
    step_or i (thread_step i (b.thread i).calls (b.thread i).stage b) h.0 refl (
      bank_after-Steps n is (turn_or (thread_step i (b.thread i).calls (b.thread i).stage b) b) h.1)
