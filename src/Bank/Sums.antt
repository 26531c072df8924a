-- ===== src/Bank/Sums.antt =====
-- What the calls that are left make of a balance.
use os.Base.{ℕ, List, [], ◌∷◌, ◌==◌, if◌then◌else◌}
use os.Base.Int.{ℤ, pos, ◌+ℤ◌}
use os.Bank.{Call, account_of, changed, Stage, Thread}

-- The change of the balance of account k by a call.
unfoldable pub effect : ℕ → Call → ℤ
effect k c = if account_of c == k then changed c (pos 0) else pos 0

unfoldable pub effects : ℕ → List Call → ℤ
effects k [] = pos 0
effects k (c ∷ cs) = effect k c +ℤ effects k cs

-- What a thread has still to do: the first call has been made once it is stored.
abbrev pub calls_left : List Call → Stage → List Call
calls_left [] p = []
calls_left (c ∷ cs) Stage.stored = cs
calls_left (c ∷ cs) _ = c ∷ cs

unfoldable pub to_come : ℕ → Thread → ℤ
to_come k t = effects k (calls_left t.calls t.stage)
