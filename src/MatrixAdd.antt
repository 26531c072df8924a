-- ===== src/MatrixAdd.antt =====
-- The addition of two matrices in CSCI4061-rec8/rec8.c: by one thread, and by one thread for each row,
-- interleaved in any order. A matrix is a function of the row and the column.
pub mod Rows
use os.Base.{ℕ, zero, suc, ◌+◌, ◌<◌, Option, none, some, ltb, if◌then◌else◌, ◌≡◌}
use os.Base.Word.{add_int}
use os.Base.Family.{update}

abbrev pub Matrix : Type 0
Matrix = ℕ → ℕ → ℕ

abbrev pub set_cell : Matrix → ℕ → ℕ → ℕ → Matrix
set_cell m row i v = update m row (update (m row) i v)

module _ (a b : Matrix) (n : ℕ) where
  -- One round of matrixRowAdd's loop.
  abbrev pub add_cell : ℕ → ℕ → Matrix → Matrix
  add_cell row i c = set_cell c row i (add_int (a row i) (b row i))

  -- The first rounds of the loop.
  unfoldable pub matrix_row_add : ℕ → ℕ → Matrix → Matrix
  matrix_row_add row zero c = c
  matrix_row_add row (suc i) c = add_cell row i (matrix_row_add row i c)

  -- The first rows.
  unfoldable pub single_thread : ℕ → Matrix → Matrix
  single_thread zero c = c
  single_thread (suc row) c = matrix_row_add row n (single_thread row c)

  -- C, and the column that each thread has come to.
  pub record Adding : Type 0 where
    pub c : Matrix
    pub column : ℕ → ℕ

  abbrev pub row_step : ℕ → Adding → Option Adding
  row_step row s =
      if ltb (s.column row) n
      then some (record {
        c = add_cell row (s.column row) s.c;
        column = update s.column row (suc (s.column row));
      })
      else none

  pub data Step (s t : Adding) : Type 0 where
    turn : (row : ℕ) → row < n → row_step row s ≡ some t → Step s t

  pub data Steps : Adding → Adding → Type 0 where
    here : (s : Adding) → Steps s s
    then : {s t u : Adding} → Step s t → Steps t u → Steps s u

  -- createMatrix leaves the cells as they are.
  abbrev pub created : Matrix → Adding
  created c = record { c = c; column = λ row. 0 }
