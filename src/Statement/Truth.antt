-- ===== src/Statement/Truth.antt =====
-- The comparisons of the columns row by row, and that the bitmaps of the evaluation say the same.
pub mod Cells
pub mod Columns
pub mod Rows
use sigmod_runtime_engine.Base.{
  ℕ, zero, suc, ◌+◌, ◌-◌, ◌*◌, ◌/◌, ◌%◌, ◌^◌, ◌≤◌, ◌<◌, min, max, bit_and, bit_or, ◌≡◌, refl, sym,
  ap, ◌∙◌, ◌≢◌, ◌↔◌, ◌⊎◌, inl, inr, Bool, true, false, not, ◌&&◌, ◌||◌, Option, none, some, List,
  [], ◌∷◌, ◌++◌, map, arith, ltb, leb, ◌==◌, if◌then◌else◌, ltb→lt, ltb→le, lt→ltb, le→ltb, ==→eq,
  ==→ne, ==_refl, ne→==, Bool-cases, Option-cases, length, get_or, get_elem?, set, replicate,
  select, length-append, length-set, length-replicate, get_or-replicate, get_or-replicate_self,
  get_or-set_self, get_or-set_ne, get_or-append_left, get_or-append_right, select-append,
  select-select, select_hit, select_miss, u8, u16, u32, u64, shl, shr,
}
use sigmod_runtime_engine.Bitmap.{bit_of}
use sigmod_runtime_engine.Bitmap.Rows.{IsBitmap}
use sigmod_runtime_engine.InnerColumn
use sigmod_runtime_engine.InnerColumn.{InnerColumn, CellType}
use sigmod_runtime_engine.InnerColumn.Strings
use sigmod_runtime_engine.InnerColumn.Strings.{StringColumn, string_less, string_equal}
use sigmod_runtime_engine.Statement.{
  DoubleType, Data, Literal, Op, LogicalType, Statement, comparison, logical, Children, end, child,
  Fault, Result, ok, fault, ◌>>=◌, at_index, int_cells,
}
use sigmod_runtime_engine.Statement.Table.{Column}

-- A comparison of two numbers; LIKE is none.
unfoldable pub holds : {T : Type 0} → CellType T → Op → T → T → Bool
holds cells Op.eq a b = cells.eq a b
holds cells Op.neq a b = cells.ne a b
holds cells Op.lt a b = cells.lt a b
holds cells Op.gt a b = cells.gt a b
holds cells Op.leq a b = cells.le a b
holds cells Op.geq a b = cells.ge a b
holds cells other a b = false

unfoldable pub text_holds : (List ℕ → List ℕ → Bool) → Op → List ℕ → List ℕ → Bool
text_holds like_match Op.eq a b = string_equal a b
text_holds like_match Op.neq a b = not (string_equal a b)
text_holds like_match Op.lt a b = string_less a b
text_holds like_match Op.gt a b = string_less b a
text_holds like_match Op.leq a b = not (string_less b a)
text_holds like_match Op.geq a b = not (string_less a b)
text_holds like_match Op.like a b = like_match a b
text_holds like_match Op.not_like a b = not (like_match a b)
text_holds like_match other a b = false

abbrev pub is_order : Op → Bool
is_order Op.like = false
is_order Op.not_like = false
is_order Op.is_null = false
is_order Op.is_not_null = false
is_order op = true

abbrev pub is_null_test : Op → Bool
is_null_test Op.is_null = true
is_null_test Op.is_not_null = true
is_null_test op = false

-- The tests for null look at whether the value is null, the other operators at the comparison.
unfoldable pub null_says : Op → Bool → Bool → Bool
null_says Op.is_null not_null passes = not not_null
null_says Op.is_not_null not_null passes = not_null
null_says op not_null passes = passes

module _ {D : Type 0} where
  -- The value of a row of a column.
  unfoldable pub cell_of : DoubleType D → Column D → ℕ → Data D
  cell_of doubles (Column.int32 c) row =
      if InnerColumn.is_not_null (int_cells 32) c row
      then Data.int32 (InnerColumn.get (int_cells 32) c row)
      else Data.monostate
  cell_of doubles (Column.int64 c) row =
      if InnerColumn.is_not_null (int_cells 64) c row
      then Data.int64 (InnerColumn.get (int_cells 64) c row)
      else Data.monostate
  cell_of doubles (Column.fp64 c) row =
      if InnerColumn.is_not_null doubles.cells c row
      then Data.fp64 (InnerColumn.get doubles.cells c row)
      else Data.monostate
  cell_of doubles (Column.varchar c) row =
      if Strings.is_not_null c row then Data.string (Strings.get c row) else Data.monostate

  -- What a comparison of a column gives for a value, a 32-bit column with the literal cut to 32 bits as
  -- the code cuts it (`means` of Statement/Meaning.antt has the whole literal): nulls pass no comparison but the tests for null.
  unfoldable pub compares : DoubleType D → (List ℕ → List ℕ → Bool) → Op → Data D → Literal D → Bool
  compares doubles like_match op (Data.int32 a) (Literal.int64 b) =
      holds (int_cells 32) op a (u32 b)
  compares doubles like_match op (Data.int64 a) (Literal.int64 b) = holds (int_cells 64) op a b
  compares doubles like_match op (Data.fp64 a) (Literal.fp64 b) = holds doubles.cells op a b
  compares doubles like_match op (Data.string a) (Literal.string b) = text_holds like_match op a b
  compares doubles like_match op other b = false

  abbrev pub is_monostate : Data D → Bool
  is_monostate Data.monostate = true
  is_monostate other = false

  unfoldable pub data_truth :
      DoubleType D → (List ℕ → List ℕ → Bool) → Data D → Op → Literal D → Bool
  data_truth doubles like_match a op b =
      null_says op (not (is_monostate a)) (compares doubles like_match op a b)

  -- A row as a record of values, and what a statement says of it.
  unfoldable pub row_of : DoubleType D → List (Column D) → ℕ → List (Data D)
  row_of doubles table row = map (λ c. cell_of doubles c row) table

  unfoldable pub truth :
      DoubleType D → (List ℕ → List ℕ → Bool) → Statement D → List (Data D) → Bool
  truth doubles like_match (comparison column op value) cells =
      data_truth doubles like_match (get_or cells column Data.monostate) op value
  truth doubles like_match (logical LogicalType.and (child l (child r end))) cells =
      truth doubles like_match l cells && truth doubles like_match r cells
  truth doubles like_match (logical LogicalType.or (child l (child r end))) cells =
      truth doubles like_match l cells || truth doubles like_match r cells
  truth doubles like_match (logical LogicalType.not_of (child s end)) cells =
      not (truth doubles like_match s cells)
  truth doubles like_match (logical type others) cells = false

  -- Whether an operator and a literal go with a column's type.
  unfoldable pub fits : Column D → Op → Literal D → Bool
  fits (Column.int32 c) op (Literal.int64 b) = is_null_test op || is_order op
  fits (Column.int64 c) op (Literal.int64 b) = is_null_test op || is_order op
  fits (Column.fp64 c) op (Literal.fp64 b) = is_null_test op || is_order op
  fits (Column.varchar c) op (Literal.string b) = true
  fits c op b = is_null_test op

  -- A statement as `make_and`, `make_or` and `make_not` build it, whose comparisons fit the columns.
  unfoldable pub WellTyped : List (Column D) → Statement D → Type 0
  WellTyped table (comparison column op value) =
      (c : Column D) × (at_index table column ≡ ok c) × (fits c op value ≡ true)
  WellTyped table (logical LogicalType.and (child l (child r end))) =
      WellTyped table l × WellTyped table r
  WellTyped table (logical LogicalType.or (child l (child r end))) =
      WellTyped table l × WellTyped table r
  WellTyped table (logical LogicalType.not_of (child s end)) = WellTyped table s
  WellTyped table (logical type others) = ⊥

  -- A column of `rows` rows.
  unfoldable pub HasRows : ℕ → Column D → Type 0
  HasRows rows (Column.int32 c) = (length c.cells ≡ rows) × IsBitmap ((rows + 7) / 8) c.bitmap
  HasRows rows (Column.int64 c) = (length c.cells ≡ rows) × IsBitmap ((rows + 7) / 8) c.bitmap
  HasRows rows (Column.fp64 c) = (length c.cells ≡ rows) × IsBitmap ((rows + 7) / 8) c.bitmap
  HasRows rows (Column.varchar c) = (c.row ≡ rows) × IsBitmap ((rows + 7) / 8) c.bitmap

  abbrev pub TableOf : ℕ → List (Column D) → Type 0
  TableOf rows [] = Unit
  TableOf rows (c ∷ table) = HasRows rows c × TableOf rows table

-- A bitmap over `rows` rows is the result, and has the bits that `says` tells.
unfoldable pub Computes : ℕ → (ℕ → Bool) → Result (List ℕ) → Type 0
Computes rows says result =
    (ret : List ℕ) × (result ≡ ok ret)
    × IsBitmap ((rows + 7) / 8) ret
    × ((row : ℕ) → row < rows → bit_of ret row ≡ says row)
