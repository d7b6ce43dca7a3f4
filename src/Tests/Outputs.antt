-- ===== src/Tests/Outputs.antt =====
-- The output of a join with one column of each input.
use sigmod_runtime_engine.Base.{ℕ, zero, suc, ◌<◌, ◌≡◌, true, false, some, List, [], ◌∷◌, arith}
use sigmod_runtime_engine.Pages.{DataType}
use sigmod_runtime_engine.Columnar.{source}
use sigmod_runtime_engine.Columnar.Cells.{RowIn, RowInFrom}
use sigmod_runtime_engine.Join.{OutPair}
use sigmod_runtime_engine.Output.{
  ColumnBuffer, new, OutputMap, Inputs, materialize, output_map, run_int32,
}
use sigmod_runtime_engine.Output.Sides.{CellIn}
use sigmod_runtime_engine.Output.Filling.{RowCells, AllCells}
use sigmod_runtime_engine.Output.Table.{Filled, materialize-Filled}
use sigmod_runtime_engine.Tests.Columns.{offsets-IsOffsets, zero_copy}
use sigmod_runtime_engine.Hashing.{fibonacci32}
use sigmod_runtime_engine.WorkStealing.Fair.{turns}
use sigmod_runtime_engine.Output.Join.{Holds, key_join, inputs_of, out_map, run_int32-Holds}
use sigmod_runtime_engine.Tests.Joins.{with_null, long, zero_copy-Readable, with_null-Readable}

abbrev inputs : Inputs
inputs = record { left = zero_copy ∷ []; right = with_null ∷ [] }

abbrev both : List OutputMap
both = record { from_left = false; idx = 0 } ∷ record { from_left = true; idx = 0 } ∷ []

abbrev pairs : List OutPair
pairs = record { lidx = 4; ridx = 0 } ∷ record { lidx = 1; ridx = 2 } ∷ []

abbrev types : List DataType
types = DataType.int32 ∷ DataType.int32 ∷ []

cells : AllCells inputs both pairs
unfolding AllCells RowCells CellIn RowIn RowInFrom source
cells = (
  (tt, ((offsets-IsOffsets, omega arith), tt)),
  ((tt, ((offsets-IsOffsets, omega arith), tt)), tt),
)

materialize-Filled_example :
    (results : ColumnBuffer) × (materialize inputs both pairs (record (new 2 0) { types = types })
      ≡ some results)
    × (results.num_rows ≡ 2)
    × Filled inputs pairs both results.columns
materialize-Filled_example = materialize-Filled inputs both pairs types cells

abbrev left : ColumnBuffer
left = record { columns = zero_copy ∷ []; num_rows = 5; types = DataType.int32 ∷ [] }

abbrev right : ColumnBuffer
right = record { columns = with_null ∷ []; num_rows = 3; types = DataType.int32 ∷ [] }

-- Column 1 of the output is the column of the right input.
abbrev attrs : List (ℕ × DataType)
attrs = (1, DataType.int32) ∷ (0, DataType.int32) ∷ []

enough_turns : (t : ℕ) → t < 2 → 5 < turns t long
unfolding turns
enough_turns zero h = omega arith
enough_turns (suc zero) h = omega arith
enough_turns (suc (suc t)) h = absurd (omega arith)

all_rows :
    (op : OutPair)
    → op.lidx < 5
    → op.ridx < 3
    → RowCells (inputs_of left right) (out_map left attrs) op
unfolding RowCells CellIn RowIn RowInFrom source output_map
all_rows op l r = (tt, ((offsets-IsOffsets, l), tt))

run_int32-Holds_example :
    Holds
      (inputs_of left right)
      (out_map left attrs)
      (key_join false zero_copy 5 with_null 3)
      (run_int32 fibonacci32 false left right 0 0 attrs 2 long (record (new 2 0) { types = types }))
run_int32-Holds_example =
    run_int32-Holds fibonacci32 left right 0 0 attrs types 2 long false (omega arith) (omega arith)
      (omega arith) (omega arith) zero_copy-Readable with_null-Readable enough_turns all_rows
