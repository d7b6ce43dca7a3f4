-- ===== src/Statement/Table.antt =====
-- The evaluation of a statement on columns: src/statement.cpp, where a bit stands for a row.
use sigmod_runtime_engine.Base.{
  ℕ, zero, suc, ◌+◌, ◌-◌, bit_and, bit_or, Bool, List, [], ◌∷◌, ◌==◌, if◌then◌else◌, length, get_or,
  set, replicate, u32,
}
use sigmod_runtime_engine.Bitmap.{complement}
use sigmod_runtime_engine.FilterThreadPool.{filter_tp, run}
use sigmod_runtime_engine.InnerColumn
use sigmod_runtime_engine.InnerColumn.{InnerColumn, CellType}
use sigmod_runtime_engine.InnerColumn.Strings
use sigmod_runtime_engine.InnerColumn.Strings.{StringColumn}
use sigmod_runtime_engine.Statement.{
  DoubleType, Literal, Op, LogicalType, Statement, comparison, logical, Children, end, child, Fault,
  Result, ok, fault, ◌>>=◌, at_index, int_cells,
}

-- A column and its type, which the pointers to InnerColumnBase hide.
pub data Column (D : Type 0) : Type 0 where
  int32 : InnerColumn ℕ → Column D
  int64 : InnerColumn ℕ → Column D
  fp64 : InnerColumn D → Column D
  varchar : StringColumn → Column D

-- The loop of the bitmap operations, over `count` bytes from `i` on: `f` computes what a byte becomes.
unfoldable pub each_byte : (ℕ → ℕ → ℕ) → ℕ → ℕ → List ℕ → List ℕ
each_byte f i zero ret = ret
each_byte f i (suc count) ret = each_byte f (i + 1) count (set ret i (f i (get_or ret i 0)))

-- `std::get` of a literal.
module _ {D : Type 0} where
  abbrev pub get_int64 : Literal D → Result ℕ
  get_int64 (Literal.int64 v) = ok v
  get_int64 (Literal.fp64 v) = fault Fault.bad_variant_access
  get_int64 (Literal.string v) = fault Fault.bad_variant_access
  get_int64 Literal.monostate = fault Fault.bad_variant_access

  abbrev pub get_fp64 : Literal D → Result D
  get_fp64 (Literal.fp64 v) = ok v
  get_fp64 (Literal.int64 v) = fault Fault.bad_variant_access
  get_fp64 (Literal.string v) = fault Fault.bad_variant_access
  get_fp64 Literal.monostate = fault Fault.bad_variant_access

  abbrev pub get_string : Literal D → Result (List ℕ)
  get_string (Literal.string v) = ok v
  get_string (Literal.int64 v) = fault Fault.bad_variant_access
  get_string (Literal.fp64 v) = fault Fault.bad_variant_access
  get_string Literal.monostate = fault Fault.bad_variant_access

-- The threads' tasks take effect in the order `turns`.
module _ (turns : List ℕ) where
  unfoldable pub bitmap_not : List ℕ → List ℕ
  bitmap_not bitmap =
      run filter_tp turns (λ first last. each_byte (λ i byte. complement byte) first (last - first))
        (length bitmap) bitmap

  unfoldable pub bitmap_and : List ℕ → List ℕ → Result (List ℕ)
  bitmap_and lhs rhs =
      if length lhs == length rhs
      then ok (
          run filter_tp turns
            (λ first last.
              each_byte (λ i byte. bit_and (get_or lhs i 0) (get_or rhs i 0)) first (last - first))
            (length lhs) (replicate (length lhs) 0))
      else fault Fault.assertion

  unfoldable pub bitmap_or : List ℕ → List ℕ → Result (List ℕ)
  bitmap_or lhs rhs =
      if length lhs == length rhs
      then ok (
          run filter_tp turns
            (λ first last.
              each_byte (λ i byte. bit_or (get_or lhs i 0) (get_or rhs i 0)) first (last - first))
            (length lhs) (replicate (length lhs) 0))
      else fault Fault.assertion

  -- `op == IS_NULL` and `op == IS_NOT_NULL` look at the bitmap only.
  unfoldable pub null_test : List ℕ → Op → Result (List ℕ) → Result (List ℕ)
  null_test bitmap Op.is_null other = ok (bitmap_not bitmap)
  null_test bitmap Op.is_not_null other = ok bitmap
  null_test bitmap op other = other

  -- The inner switch of the numeric types.
  unfoldable pub compare_numbers :
      {T : Type 0} → CellType T → InnerColumn T → Op → T → Result (List ℕ)
  compare_numbers cells c Op.eq rhs = ok (InnerColumn.equal cells turns c rhs)
  compare_numbers cells c Op.neq rhs = ok (InnerColumn.not_equal cells turns c rhs)
  compare_numbers cells c Op.lt rhs = ok (InnerColumn.less cells turns c rhs)
  compare_numbers cells c Op.gt rhs = ok (InnerColumn.greater cells turns c rhs)
  compare_numbers cells c Op.leq rhs = ok (InnerColumn.less_equal cells turns c rhs)
  compare_numbers cells c Op.geq rhs = ok (InnerColumn.greater_equal cells turns c rhs)
  compare_numbers cells c other rhs = fault Fault.unreachable

  module _ (like_match : List ℕ → List ℕ → Bool) where
    -- The inner switch of VARCHAR.
    unfoldable pub compare_strings : StringColumn → Op → List ℕ → Result (List ℕ)
    compare_strings c Op.eq rhs = ok (Strings.equal turns c rhs)
    compare_strings c Op.neq rhs = ok (Strings.not_equal turns c rhs)
    compare_strings c Op.lt rhs = ok (Strings.less turns c rhs)
    compare_strings c Op.gt rhs = ok (Strings.greater turns c rhs)
    compare_strings c Op.leq rhs = ok (Strings.less_equal turns c rhs)
    compare_strings c Op.geq rhs = ok (Strings.greater_equal turns c rhs)
    compare_strings c Op.like rhs = ok (Strings.like turns like_match c rhs)
    compare_strings c Op.not_like rhs = ok (Strings.not_like turns like_match c rhs)
    compare_strings c other rhs = fault Fault.unreachable

    module _ {D : Type 0} (doubles : DoubleType D) where
      -- Comparison::eval on a column.
      unfoldable pub compare_column : Column D → Op → Literal D → Result (List ℕ)
      compare_column (int32 c) op value =
          null_test c.bitmap op
            (get_int64 value >>= λ v. compare_numbers (int_cells 32) c op (u32 v))
      compare_column (int64 c) op value =
          null_test c.bitmap op (get_int64 value >>= λ v. compare_numbers (int_cells 64) c op v)
      compare_column (fp64 c) op value =
          null_test c.bitmap op (get_fp64 value >>= λ v. compare_numbers doubles.cells c op v)
      compare_column (varchar c) op value =
          null_test c.bitmap op (get_string value >>= λ v. compare_strings c op v)

      unfoldable mutual
        -- Statement::eval on a table.
        pub eval : Statement D → List (Column D) → Result (List ℕ)
        eval (comparison column op value) table =
            at_index table column >>= λ c. compare_column c op value
        eval (logical LogicalType.and children) table =
            let results = eval_children children table in
            (at_index results 0 >>= λ r. r) >>= λ lhs.
            (at_index results 1 >>= λ r. r) >>= λ rhs. bitmap_and lhs rhs
        eval (logical LogicalType.or children) table =
            let results = eval_children children table in
            (at_index results 0 >>= λ r. r) >>= λ lhs.
            (at_index results 1 >>= λ r. r) >>= λ rhs. bitmap_or lhs rhs
        eval (logical LogicalType.not_of children) table =
            let results = eval_children children table in
            (at_index results 0 >>= λ r. r) >>= λ operand. ok (bitmap_not operand)

        -- What the evaluation of each child gives; a child that is not looked at is not evaluated.
        pub eval_children : Children D → List (Column D) → List (Result (List ℕ))
        eval_children end table = []
        eval_children (child s rest) table = eval s table ∷ eval_children rest table
