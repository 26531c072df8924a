-- ===== src/Samples/BankRuns.antt =====
-- The theorem on the bank at main's threads, and what they make of the two balances.
use os.Base.{ℕ, ◌+◌, ◌*◌, List, [], ◌∷◌, length, ◌≡◌, refl, ◌⊎◌, arith}
use os.Base.Int.{pos, negsuc, ◌+ℤ◌, ◌-ℤ◌}
use os.Base.Family.{Everyone, sum_ℤ, sum}
use os.Bank.{Bank, Step, Steps, first_balance, pool, open_bank, bank_after, bank_after-Steps}
use os.Bank.Sums.{effect, effects}
use os.Bank.Balance.{left, count}
use os.Bank.Finish.{HasEnded, bank_lem}

-- Thread 500 withdraws from account 2, while thread 0 waits for its mutex.
abbrev turns : List ℕ
turns = 500 ∷ 500 ∷ 0 ∷ 500 ∷ 0 ∷ []

abbrev paying : Bank
paying = bank_after turns (open_bank first_balance pool)

paying-Steps : Steps 1000 (open_bank first_balance pool) paying
paying-Steps = bank_after-Steps 1000 turns (open_bank first_balance pool) (omega arith)

bank_lem_example :
    (count paying-Steps + sum left 1000 paying.thread ≡ sum (λ cs. 4 * length cs) 1000 pool)
    × (((b' : Bank) × Step 1000 paying b')
        ⊎ (Everyone (HasEnded paying) 1000
            × ((k : ℕ) → paying.balance k ≡ first_balance k +ℤ sum_ℤ (effects k) 1000 pool)))
bank_lem_example = bank_lem 1000 first_balance pool paying-Steps

account_1 : first_balance 1 +ℤ sum_ℤ (effects 1) 1000 pool ≡ pos 2485000
unfolding sum_ℤ effects effect ◌+ℤ◌ ◌-ℤ◌
account_1 = refl

account_2 : first_balance 2 +ℤ sum_ℤ (effects 2) 1000 pool ≡ negsuc 494499
unfolding sum_ℤ effects effect ◌+ℤ◌ ◌-ℤ◌
account_2 = refl
