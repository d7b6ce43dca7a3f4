-- ===== src/Statement/Meaning.antt =====
-- What a statement means for a row, and the evaluation on columns where the literals fit them.
use sigmod_runtime_engine.Base.{
  ℕ, ◌^◌, ◌<◌, ◌≡◌, refl, sym, ap, Bool, false, not, ◌&&◌, ◌||◌, List, arith, get_or,
}
use sigmod_runtime_engine.FilterThreadPool.{filter_tp, Schedule}
use sigmod_runtime_engine.Statement.{
  DoubleType, Data, Literal, Op, LogicalType, Statement, comparison, logical, end, child, int_cells,
}
use sigmod_runtime_engine.Statement.Table.{Column, eval}
use sigmod_runtime_engine.Statement.Truth.{
  holds, text_holds, is_monostate, null_says, compares, data_truth, truth, row_of, WellTyped,
  TableOf, Computes,
}
use sigmod_runtime_engine.Statement.Truth.Columns.{Computes-ap}
use sigmod_runtime_engine.Statement.Truth.Rows.{eval-Computes}
use sigmod_runtime_engine.Statement.Agreement.{sign_extend, IsInt32, holds_extended}

module _ {D : Type 0} (doubles : DoubleType D) (like_match : List ℕ → List ℕ → Bool) where
  -- What a comparison means for a value: integers of any width compare as the integers they are, the
  -- literal whole.
  unfoldable pub comparison_means : Op → Data D → Literal D → Bool
  comparison_means op (Data.int32 a) (Literal.int64 b) = holds (int_cells 64) op (sign_extend a) b
  comparison_means op (Data.int64 a) (Literal.int64 b) = holds (int_cells 64) op a b
  comparison_means op (Data.fp64 a) (Literal.fp64 b) = holds doubles.cells op a b
  comparison_means op (Data.string a) (Literal.string b) = text_holds like_match op a b
  comparison_means op other b = false

  -- What a statement means for a row of values; a null passes no comparison but the tests for null.
  unfoldable pub means : Statement D → List (Data D) → Bool
  means (comparison column op value) cells =
      let cell = get_or cells column Data.monostate in
      null_says op (not (is_monostate cell)) (comparison_means op cell value)
  means (logical LogicalType.and (child l (child r end))) cells = means l cells && means r cells
  means (logical LogicalType.or (child l (child r end))) cells = means l cells || means r cells
  means (logical LogicalType.not_of (child s end)) cells = not (means s cells)
  means (logical type others) cells = false

-- A 32-bit value meets a literal that fits 32 bits.
unfoldable pub FitsCell : {D : Type 0} → Data D → Literal D → Type 0
FitsCell (Data.int32 a) (Literal.int64 b) = (a < 2 ^ 32) × IsInt32 b
FitsCell a b = Unit

-- Every comparison of the statement does so in this row.
unfoldable pub Fitting : {D : Type 0} → List (Data D) → Statement D → Type 0
Fitting cells (comparison column op value) = FitsCell (get_or cells column Data.monostate) value
Fitting cells (logical LogicalType.and (child l (child r end))) = Fitting cells l × Fitting cells r
Fitting cells (logical LogicalType.or (child l (child r end))) = Fitting cells l × Fitting cells r
Fitting cells (logical LogicalType.not_of (child s end)) = Fitting cells s
Fitting cells (logical type others) = Unit

module _ {D : Type 0} (doubles : DoubleType D) (like_match : List ℕ → List ℕ → Bool) where
  compares-means :
      (op : Op) (a : Data D) (b : Literal D)
      → FitsCell a b
      → compares doubles like_match op a b ≡ comparison_means doubles like_match op a b
  unfolding compares comparison_means FitsCell
  compares-means op (Data.int32 a) (Literal.int64 b) fit = sym (holds_extended op a b fit.0 fit.1)
  compares-means op a b fit = ground arith

  truth-means :
      (s : Statement D) (cells : List (Data D))
      → Fitting cells s
      → truth doubles like_match s cells ≡ means doubles like_match s cells
  unfolding truth means Fitting data_truth
  truth-means (comparison column op value) cells fit =
      let cell = get_or cells column Data.monostate in
      ap (null_says op (not (is_monostate cell))) (compares-means op cell value fit)
  truth-means (logical LogicalType.and (child l (child r end))) cells fit =
      rw (truth-means l cells fit.0, truth-means r cells fit.1) refl
  truth-means (logical LogicalType.or (child l (child r end))) cells fit =
      rw (truth-means l cells fit.0, truth-means r cells fit.1) refl
  truth-means (logical LogicalType.not_of (child s end)) cells fit =
      rw (truth-means s cells fit) refl
  truth-means (logical type others) cells fit = ground arith

  -- For columns of `rows` rows, a statement that is well typed for them, and 32-bit columns that are
  -- only compared with literals of 32 bits, the evaluation, whatever the order of the threads, gives a
  -- bitmap of the size for `rows`, in which the bit of a row below `rows` tells whether the row's
  -- values satisfy the statement, integers being compared as integers and nulls failing every
  -- comparison but the tests for null.
  pub eval-means :
      (turns : List ℕ) (rows : ℕ) (s : Statement D) (table : List (Column D))
      → Schedule filter_tp turns
      → TableOf rows table
      → WellTyped table s
      → (fitting : (row : ℕ) → row < rows → Fitting (row_of doubles table row) s)
      → Computes rows
          (λ row. means doubles like_match s (row_of doubles table row))
          (eval turns like_match doubles s table)
  eval-means turns rows s table schedule wf typed fitting =
      Computes-ap _ _ _
        (λ row inside. truth-means s (row_of doubles table row) (fitting row inside))
        (eval-Computes turns schedule rows doubles like_match s table wf typed)
