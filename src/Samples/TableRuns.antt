-- ===== src/Samples/TableRuns.antt =====
-- The theorems on the dining philosophers at sample states.
use os.Base.Family.{Everyone}
use os.Base.{◌<◌, true, false, [], ◌∷◌, ◌≡◌, ◌≢◌, refl, arith}
use os.Philosophers.{Seat, Table, right_of, num_thrd, laid, Steps, take_turns, take_turns-Steps}
use os.Philosophers.Safe.{mutual_exclusion}
use os.Philosophers.Finish.{dinner_ends}

-- Philosopher 0 is about to eat, and 1 waits for its left mutex.
abbrev one_eats : Table
one_eats = take_turns num_thrd (0 ∷ 0 ∷ 1 ∷ 0 ∷ 1 ∷ []) laid

one_eats-Steps : Steps num_thrd laid one_eats
one_eats-Steps = take_turns-Steps num_thrd (0 ∷ 0 ∷ 1 ∷ 0 ∷ 1 ∷ []) laid (omega arith)

mutual_exclusion_example :
    (0 < one_eats.food 0)
    × (one_eats.locks 0 ≡ true)
    × (one_eats.locks (right_of num_thrd 0) ≡ true)
    × (one_eats.seat (right_of num_thrd 0) ≢ Seat.eating)
mutual_exclusion_example =
    mutual_exclusion {n = num_thrd} {t = one_eats} {j = 0} (omega arith) one_eats-Steps
      (omega arith) refl

dinner_ends_example :
    (u : Table) × Steps num_thrd one_eats u
    × Everyone (λ j. (u.seat j ≡ Seat.left_table) × (u.food j ≡ 0) × (u.locks j ≡ false)) num_thrd
dinner_ends_example = dinner_ends {n = num_thrd} {t = one_eats} (omega arith) one_eats-Steps
