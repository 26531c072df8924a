-- ===== src/Philosophers.antt =====
-- The dining philosophers of CSCI4061-rec11/rec11.c: `n` threads that run threadFun, interleaved in
-- any order. A mutex is the fact whether it is locked; usleep is no step.
pub mod Safe
pub mod Alone
pub mod Finish
use os.Base.Family.{update}
use os.Base.{
  All, refl, ℕ, ◌+◌, ◌-◌, ◌%◌, ◌<◌, Bool, true, false, Option, none, some, List, [], ◌∷◌, ◌≡◌, ltb,
  ◌==◌, if◌then◌else◌,
}

-- Where a thread stands: at the test of threadFun's loop, or before a call of dine or eat.
pub data Seat : Type 0 where
  at_loop : Seat
  lock_left : Seat
  trylock_right : Seat
  eating : Seat
  unlock_right : Seat
  unlock_left : Seat
  left_table : Seat

-- `locks`, and each philosopher's food and place. Philosopher i's left mutex is locks[i].
pub record Table : Type 0 where
  pub locks : ℕ → Bool
  pub food : ℕ → ℕ
  pub seat : ℕ → Seat

-- The index of a philosopher's right mutex.
abbrev pub right_of : ℕ → ℕ → ℕ
right_of n i = (i + 1) % n

abbrev pub num_thrd : ℕ
num_thrd = 1000

-- What main sets up.
abbrev pub laid : Table
laid = record { locks = λ _. false; food = λ _. 100; seat = λ _. Seat.at_loop }

abbrev pub move_to : ℕ → Seat → Table → Table
move_to i p t = record t { seat = update t.seat i p }

abbrev pub set_lock : ℕ → Bool → Table → Table
set_lock k b t = record t { locks = update t.locks k b }

abbrev pub eat : ℕ → Table → Table
eat i t = record t { food = update t.food i (t.food i - 1) }

-- The next step of philosopher i, if it does not block.
abbrev pub dine : ℕ → ℕ → Seat → Table → Option Table
dine n i Seat.at_loop t =
    some (move_to i (if ltb 0 (t.food i) then Seat.lock_left else Seat.left_table) t)
dine n i Seat.lock_left t =
    if t.locks i then none else some (move_to i Seat.trylock_right (set_lock i true t))
dine n i Seat.trylock_right t = some (
    if t.locks (right_of n i)
    then move_to i Seat.unlock_left t
    else move_to i Seat.eating (set_lock (right_of n i) true t))
dine n i Seat.eating t = some (move_to i Seat.unlock_right (eat i t))
dine n i Seat.unlock_right t = some (move_to i Seat.unlock_left (set_lock (right_of n i) false t))
dine n i Seat.unlock_left t = some (move_to i Seat.at_loop (set_lock i false t))
dine n i Seat.left_table t = none

pub data Step (n : ℕ) (t u : Table) : Type 0 where
  turn : (i : ℕ) → i < n → dine n i (t.seat i) t ≡ some u → Step n t u

pub data Steps (n : ℕ) : Table → Table → Type 0 where
  here : (t : Table) → Steps n t t
  then : {t u v : Table} → Step n t u → Steps n u v → Steps n t v

-- The same by evaluation: the philosophers take their steps in the order of a list.
abbrev pub turn_or : Option Table → Table → Table
turn_or none t = t
turn_or (some u) t = u

abbrev pub take_turns : ℕ → List ℕ → Table → Table
take_turns n [] t = t
take_turns n (i ∷ is) t = take_turns n is (turn_or (dine n i (t.seat i) t) t)

step_or :
    {n : ℕ} {t v : Table} (i : ℕ) (o : Option Table)
    → i < n
    → dine n i (t.seat i) t ≡ o
    → Steps n (turn_or o t) v
    → Steps n t v
step_or i none l e more = more
step_or i (some u) l e more = Steps.then (Step.turn i l e) more

pub take_turns-Steps :
    (n : ℕ) (is : List ℕ) (t : Table) → All (λ i. i < n) is → Steps n t (take_turns n is t)
take_turns-Steps n [] t h = Steps.here t
take_turns-Steps n (i ∷ is) t h =
    step_or i (dine n i (t.seat i) t) h.0 refl
      (take_turns-Steps n is (turn_or (dine n i (t.seat i) t) t) h.1)
