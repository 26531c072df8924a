-- ===== src/Philosophers/Alone.antt =====
-- What one philosopher can do by itself: put down what it has, and eat up while the others rest.

use os.Base.{
  ℕ, zero, suc, ◌-◌, ◌<◌, true, false, some, ◌≡◌, refl, ap, ◌∙◌, ◌≢◌, subst, arith, inl, inr,
  Bool-cases,
}
use os.Philosophers.{Seat, Table, right_of, move_to, set_lock, dine, Step, turn, Steps, here}
use os.Philosophers.Safe.{has_left, Held, IsTable, right_of-lt, right_of-ne, Step-IsTable, left_of}

module _ (n : ℕ) where
  -- A later state of the table, in which P holds and all but philosopher i sit where they sat.
  pub record Later (i : ℕ) (P : Table → Type 0) (t : Table) : Type 0 where
    pub last : Table
    pub steps : Steps n t last
    pub table : IsTable n last
    pub others : (j : ℕ) → i ≢ j → last.seat j ≡ t.seat j
    pub reached : P last

  pub Steps-append : {t u v : Table} → Steps n t u → Steps n u v → Steps n t v
  Steps-append (here t) more = more
  Steps-append (Steps.then s r) more = Steps.then s (Steps-append r more)

module _ (n : ℕ) (many : 1 < n) (i : ℕ) (l : i < n) where
  dine-others :
      (p : Seat) (t : Table) {u : Table}
      → dine n i p t ≡ some u
      → (j : ℕ) → i ≢ j
      → u.seat j ≡ t.seat j
  dine-others p t e j ne = ground arith

  -- One step of philosopher i, and what comes after it.
  after :
      (P : Table → Type 0) (p : Seat) (t : Table) {u : Table}
      → t.seat i ≡ p
      → dine n i p t ≡ some u
      → IsTable n t
      → (IsTable n u → Later n i P u)
      → Later n i P t
  after P p t {u} q e h next =
      let s : Step n t u = turn i l (ap (λ c. dine n i c t) q ∙ e) in
      let r = next (Step-IsTable many s h) in
      record {
        last = r.last;
        steps = Steps.then s r.steps;
        table = r.table;
        others = λ j ne. r.others j ne ∙ dine-others p t e j ne;
        reached = r.reached;
      }

  stay : (P : Table → Type 0) (t : Table) → IsTable n t → P t → Later n i P t
  stay P t h r = record { last = t; steps = here t; table = h; others = λ j ne. refl; reached = r }

  -- A philosopher that has a mutex can put down all that it has without waiting.
  abbrev pub Rests : Table → Type 0
  Rests t = has_left (t.seat i) ≡ false

  put_left : (t : Table) → t.seat i ≡ Seat.unlock_left → IsTable n t → Later n i Rests t
  put_left t q h = after Rests Seat.unlock_left t q refl h (λ h'. stay Rests _ h' (ground arith))

  put_right : (t : Table) → t.seat i ≡ Seat.unlock_right → IsTable n t → Later n i Rests t
  put_right t q h = after Rests Seat.unlock_right t q refl h (λ h'. put_left _ (ground arith) h')

  bite : (t : Table) → t.seat i ≡ Seat.eating → IsTable n t → Later n i Rests t
  bite t q h = after Rests Seat.eating t q refl h (λ h'. put_right _ (ground arith) h')

  try_right : (t : Table) → t.seat i ≡ Seat.trylock_right → IsTable n t → Later n i Rests t
  try_right t q h = elim (Bool-cases (t.locks (right_of n i))) [
    | inl e ↦
        after Rests Seat.trylock_right t {u = move_to i Seat.unlock_left t} q (rw e) h
          (λ h'. put_left _ (ground arith) h')
    | inr e ↦
        after Rests Seat.trylock_right t
          {u = move_to i Seat.eating (set_lock (right_of n i) true t)} q (rw e) h
          (λ h'. bite _ (ground arith) h')
  ]

  pub settle : (p : Seat) (t : Table) → t.seat i ≡ p → IsTable n t → Later n i Rests t
  settle Seat.at_loop t q h = stay Rests t h (rw q)
  settle Seat.lock_left t q h = stay Rests t h (rw q)
  settle Seat.trylock_right t q h = try_right t q h
  settle Seat.eating t q h = bite t q h
  settle Seat.unlock_right t q h = put_right t q h
  settle Seat.unlock_left t q h = put_left t q h
  settle Seat.left_table t q h = stay Rests t h (rw q)

  -- While the others rest, philosopher i can eat all that it has.
  abbrev pub Leaves : Table → Type 0
  Leaves t = t.seat i ≡ Seat.left_table

  abbrev pub Quiet : Table → Type 0
  Quiet t = (j : ℕ) → j < n → i ≢ j → has_left (t.seat j) ≡ false

  alone :
      (p : Seat) (t : Table) {u : Table}
      → t.seat i ≡ p
      → dine n i p t ≡ some u
      → IsTable n t
      → Quiet t
      → (IsTable n u → Quiet u → Later n i Leaves u)
      → Later n i Leaves t
  alone p t q e h rest next =
      after Leaves p t q e h
        (λ h'. next h' (λ j k ne. ap has_left (dine-others p t e j ne) ∙ rest j k ne))

  left_free : (t : Table) → t.seat i ≡ Seat.lock_left → IsTable n t → Quiet t → t.locks i ≡ false
  left_free t q h rest =
      let (j, k, e) = left_of n i l in
      let own : Held (t.locks i) (t.seat i) (t.seat j) =
        subst (λ m. Held (t.locks m) (t.seat m) (t.seat j)) e (h.held j k) in
      let ne = right_of-ne n j many k in let quiet = rest j k in ground arith

  right_free :
      (t : Table)
      → t.seat i ≡ Seat.trylock_right
      → IsTable n t
      → Quiet t
      → t.locks (right_of n i) ≡ false
  right_free t q h rest =
      let own = h.held i l in
      let ne = right_of-ne n i many l in
      let quiet = rest (right_of n i) (right_of-lt n i l) in ground arith

  -- One call of dine.
  meal :
      (f : ℕ) (t : Table)
      → t.food i ≡ suc f
      → t.seat i ≡ Seat.lock_left
      → IsTable n t
      → Quiet t
      → ((u : Table)
          → u.food i ≡ f
          → u.seat i ≡ Seat.at_loop
          → IsTable n u
          → Quiet u
          → Later n i Leaves u)
      → Later n i Leaves t
  meal f t k q h rest next =
      alone Seat.lock_left t {u = move_to i Seat.trylock_right (set_lock i true t)} q
        (rw (left_free t q h rest)) h rest
        (λ h1 r1.
          alone Seat.trylock_right _
            {u = move_to i Seat.eating
              (set_lock (right_of n i) true (move_to i Seat.trylock_right (set_lock i true t)))}
            (ground arith) (rw (right_free _ (ground arith) h1 r1)) h1 r1
            (λ h2 r2. alone Seat.eating _ (ground arith) refl h2 r2 (λ h3 r3.
              alone Seat.unlock_right _ (ground arith) refl h3 r3 (λ h4 r4.
                alone Seat.unlock_left _ (ground arith) refl h4 r4
                  (λ h5 r5. next _ (ground arith) (ground arith) h5 r5)))))

  -- The loop of threadFun.
  eat_all :
      (f : ℕ) (t : Table)
      → t.food i ≡ f
      → t.seat i ≡ Seat.at_loop
      → IsTable n t
      → Quiet t
      → Later n i Leaves t
  eat_all zero t k q h rest =
      alone Seat.at_loop t {u = move_to i Seat.left_table t} q (rw k) h rest
        (λ h' r'. stay Leaves _ h' (ground arith))
  eat_all (suc f) t k q h rest =
      alone Seat.at_loop t {u = move_to i Seat.lock_left t} q (ground arith) h rest
        (λ h' r'. meal f _ k (ground arith) h' r' (λ u e p g r. eat_all f u e p g r))

  pub finish :
      (p : Seat) (t : Table)
      → t.seat i ≡ p
      → has_left p ≡ false
      → IsTable n t
      → Quiet t
      → Later n i Leaves t
  finish Seat.at_loop t q r h rest = eat_all (t.food i) t refl q h rest
  finish Seat.lock_left t q r h rest =
      let some_left : t.food i ≡ suc (t.food i - 1) = let fed = h.fed i in ground arith in
      meal (t.food i - 1) t some_left q h rest (λ u e p g r'. eat_all (t.food i - 1) u e p g r')
  finish Seat.left_table t q r h rest = stay Leaves t h q
  finish Seat.trylock_right t q r h rest = cc
  finish Seat.eating t q r h rest = cc
  finish Seat.unlock_right t q r h rest = cc
  finish Seat.unlock_left t q r h rest = cc
