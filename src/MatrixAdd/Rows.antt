-- ===== src/MatrixAdd/Rows.antt =====
-- Both ways to add leave the same sums.
use os.Base.{ℕ, zero, suc, ◌<◌, ◌&&◌, some, ltb, ◌==◌, if◌then◌else◌, ◌≡◌, subst, arith}
use native.Mathlib.Decide.{ℕ_discrete}
use os.Base.Word.{add_int}
use os.Base.Family.{Everyone}
use os.MatrixAdd.{
  Matrix, matrix_row_add, single_thread, Adding, row_step, turn, Steps, here, created,
}

module _ (a b : Matrix) (n : ℕ) where
  matrix_row_add-cell :
      (row k : ℕ) (c : Matrix) (r i : ℕ)
      → matrix_row_add a b n row k c r i
        ≡ (if (row == r) && ltb i k then add_int (a r i) (b r i) else c r i)
  unfolding matrix_row_add
  matrix_row_add-cell row zero c r i = ground arith
  matrix_row_add-cell row (suc k) c r i = ground (arith, matrix_row_add-cell row k c r i)

  pub single_thread-cell :
      (k : ℕ) (c : Matrix) (r i : ℕ)
      → single_thread a b n k c r i
        ≡ (if ltb r k && ltb i n then add_int (a r i) (b r i) else c r i)
  unfolding single_thread
  single_thread-cell zero c r i = ground arith
  single_thread-cell (suc k) c r i =
      ground
        (arith, matrix_row_add-cell k n (single_thread a b n k c) r i, single_thread-cell k c r i)

  -- The cells of a row up to its thread's column hold their sums.
  record IsAdding (s : Adding a b n) : Type 0 where
    pub added : (r i : ℕ) → i < s.column r → s.c r i ≡ add_int (a r i) (b r i)

  row_step-IsAdding :
      (row : ℕ) (s : Adding a b n) {t : Adding a b n}
      → row_step a b n row s ≡ some t
      → IsAdding s
      → IsAdding t
  row_step-IsAdding row s e h = record { added = λ r i l. let old = h.added r i in ground arith }

  Steps-IsAdding : {s t : Adding a b n} → Steps a b n s t → IsAdding s → IsAdding t
  Steps-IsAdding (here s) h = h
  Steps-IsAdding (Steps.then (turn row l e) more) h =
      Steps-IsAdding more (row_step-IsAdding row _ e h)

  pub Everyone-at : (P : ℕ → Type 0) (k j : ℕ) → j < k → Everyone P k → P j
  Everyone-at P zero j l h = absurd (omega arith)
  Everyone-at P (suc k) j l h = elim (ℕ_discrete k j) [
    | yes e ↦ subst P e h.0
    | no ne ↦ Everyone-at P k j (omega arith) h.1
  ]

  -- However the threads of the rows take their turns, once each has come to the end of its row, each
  -- cell of the matrix is what a single thread makes of it, whatever was in the two matrices before.
  pub matrix_add_lem :
      (before before' : Matrix) {s : Adding a b n} (r i : ℕ)
      → Steps a b n (created a b n before) s
      → Everyone (λ row. s.column row ≡ n) n
      → r < n
      → i < n
      → s.c r i ≡ single_thread a b n n before' r i
  matrix_add_lem before before' {s} r i steps ended l m =
      let done = Everyone-at (λ row. s.column row ≡ n) n r l ended in
      let h = Steps-IsAdding steps (record { added = λ r i l. absurd (omega arith) }) in
      let sum = h.added r i (omega (arith, done)) in
      ground (arith, single_thread-cell n before' r i)
