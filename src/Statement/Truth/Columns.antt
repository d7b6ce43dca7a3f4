-- ===== src/Statement/Truth/Columns.antt =====
-- Comparison::eval on a column computes what the comparison says of each row's value.
use sigmod_runtime_engine.Base.{
  ℕ, ◌+◌, ◌/◌, ◌<◌, ◌≡◌, refl, ap, ◌∙◌, inl, inr, Bool, true, false, not, ◌||◌, List, arith,
  Bool-cases, u32,
}
use sigmod_runtime_engine.Bitmap.{bit_of}
use sigmod_runtime_engine.Bitmap.Rows.{IsBitmap}
use sigmod_runtime_engine.FilterThreadPool.{filter_tp, Schedule}
use sigmod_runtime_engine.InnerColumn
use sigmod_runtime_engine.InnerColumn.Strings
use sigmod_runtime_engine.Statement.{DoubleType, Literal, Op, Result, int_cells}
use sigmod_runtime_engine.Statement.Table.{Column, bitmap_not, null_test, compare_column}
use sigmod_runtime_engine.Statement.Bitmaps.{bitmap_not-IsBitmap, bitmap_not_lem}
use sigmod_runtime_engine.Statement.Truth.{
  is_order, is_null_test, null_says, is_monostate, cell_of, compares, data_truth, fits, HasRows,
  Computes,
}
use sigmod_runtime_engine.Statement.Truth.Cells.{compare_numbers-Computes, compare_strings-Computes}

pub Computes-ap :
    {rows : ℕ} (f g : ℕ → Bool) (result : Result (List ℕ))
    → ((row : ℕ) → row < rows → f row ≡ g row)
    → Computes rows f result
    → Computes rows g result
unfolding Computes
Computes-ap f g result same (ret, is, wf, bits) =
    (ret, is, wf, λ row inside. bits row inside ∙ same row inside)

order_of :
    (op : Op)
    → (is_null_test op || is_order op) ≡ true
    → is_null_test op ≡ false
    → is_order op ≡ true
order_of op h other = ground arith

module _ (turns : List ℕ) (schedule : Schedule filter_tp turns) (rows : ℕ) where
  null_test-Computes :
      (op : Op) (bitmap : List ℕ) (other : Result (List ℕ)) (nn says : ℕ → Bool)
      → IsBitmap ((rows + 7) / 8) bitmap
      → ((row : ℕ) → bit_of bitmap row ≡ nn row)
      → (is_null_test op ≡ false → Computes rows says other)
      → Computes rows (λ row. null_says op (nn row) (says row)) (null_test turns bitmap op other)
  unfolding null_test null_says Computes
  null_test-Computes Op.is_null bitmap other nn says wf bits k = (
    bitmap_not turns bitmap,
    refl,
    bitmap_not-IsBitmap turns ((rows + 7) / 8) bitmap wf,
    λ row inside.
        bitmap_not_lem turns ((rows + 7) / 8) row bitmap schedule wf (omega arith)
        ∙ ap not (bits row),
  )
  null_test-Computes Op.is_not_null bitmap other nn says wf bits k =
      (bitmap, refl, wf, λ row inside. bits row)
  null_test-Computes Op.eq bitmap other nn says wf bits k = k refl
  null_test-Computes Op.neq bitmap other nn says wf bits k = k refl
  null_test-Computes Op.lt bitmap other nn says wf bits k = k refl
  null_test-Computes Op.gt bitmap other nn says wf bits k = k refl
  null_test-Computes Op.leq bitmap other nn says wf bits k = k refl
  null_test-Computes Op.geq bitmap other nn says wf bits k = k refl
  null_test-Computes Op.like bitmap other nn says wf bits k = k refl
  null_test-Computes Op.not_like bitmap other nn says wf bits k = k refl

  module _ {D : Type 0} (doubles : DoubleType D) (like_match : List ℕ → List ℕ → Bool) where
    bits_of_column : Column D → List ℕ
    bits_of_column (Column.int32 c) = c.bitmap
    bits_of_column (Column.int64 c) = c.bitmap
    bits_of_column (Column.fp64 c) = c.bitmap
    bits_of_column (Column.varchar c) = c.bitmap

    not_monostate :
        (c : Column D) (row : ℕ)
        → bit_of (bits_of_column c) row ≡ not (is_monostate (cell_of doubles c row))
    unfolding bits_of_column cell_of bit_of InnerColumn.is_not_null Strings.is_not_null
    not_monostate (Column.int32 c) row =
        elim (Bool-cases (InnerColumn.is_not_null (int_cells 32) c row)) [
          | inl present ↦ present ∙ rw present refl
          | inr absent ↦ absent ∙ rw absent refl
        ]
    not_monostate (Column.int64 c) row =
        elim (Bool-cases (InnerColumn.is_not_null (int_cells 64) c row)) [
          | inl present ↦ present ∙ rw present refl
          | inr absent ↦ absent ∙ rw absent refl
        ]
    not_monostate (Column.fp64 c) row =
        elim (Bool-cases (InnerColumn.is_not_null doubles.cells c row)) [
          | inl present ↦ present ∙ rw present refl
          | inr absent ↦ absent ∙ rw absent refl
        ]
    not_monostate (Column.varchar c) row = elim (Bool-cases (Strings.is_not_null c row)) [
      | inl present ↦ present ∙ rw present refl
      | inr absent ↦ absent ∙ rw absent refl
    ]

    -- A comparison that fits its column computes a bitmap, which says what it says of the rows' values.
    pub compare_column-Computes :
        (c : Column D) (op : Op) (value : Literal D)
        → HasRows rows c
        → fits c op value ≡ true
        → Computes rows
            (λ row. data_truth doubles like_match (cell_of doubles c row) op value)
            (compare_column turns like_match doubles c op value)
    unfolding compare_column data_truth HasRows fits bits_of_column cell_of compares
    compare_column-Computes (Column.int32 c) op (Literal.int64 b) wf h =
        null_test-Computes op c.bitmap _ _ _ wf.1 (not_monostate (Column.int32 c)) (λ other.
          Computes-ap _ _ _
            (λ row inside. elim (Bool-cases (InnerColumn.is_not_null (int_cells 32) c row)) [
              | inl present ↦ rw present refl
              | inr absent ↦ rw absent refl
            ])
            (compare_numbers-Computes turns schedule (int_cells 32) c rows wf.0 wf.1 op (u32 b)
              (order_of op h other)))
    compare_column-Computes (Column.int32 c) op (Literal.fp64 b) wf h =
        null_test-Computes op c.bitmap _ _ _ wf.1 (not_monostate (Column.int32 c))
          (λ other. absurd (ground arith))
    compare_column-Computes (Column.int32 c) op (Literal.string b) wf h =
        null_test-Computes op c.bitmap _ _ _ wf.1 (not_monostate (Column.int32 c))
          (λ other. absurd (ground arith))
    compare_column-Computes (Column.int32 c) op Literal.monostate wf h =
        null_test-Computes op c.bitmap _ _ _ wf.1 (not_monostate (Column.int32 c))
          (λ other. absurd (ground arith))
    compare_column-Computes (Column.int64 c) op (Literal.int64 b) wf h =
        null_test-Computes op c.bitmap _ _ _ wf.1 (not_monostate (Column.int64 c)) (λ other.
          Computes-ap _ _ _
            (λ row inside. elim (Bool-cases (InnerColumn.is_not_null (int_cells 64) c row)) [
              | inl present ↦ rw present refl
              | inr absent ↦ rw absent refl
            ])
            (compare_numbers-Computes turns schedule (int_cells 64) c rows wf.0 wf.1 op b
              (order_of op h other)))
    compare_column-Computes (Column.int64 c) op (Literal.fp64 b) wf h =
        null_test-Computes op c.bitmap _ _ _ wf.1 (not_monostate (Column.int64 c))
          (λ other. absurd (ground arith))
    compare_column-Computes (Column.int64 c) op (Literal.string b) wf h =
        null_test-Computes op c.bitmap _ _ _ wf.1 (not_monostate (Column.int64 c))
          (λ other. absurd (ground arith))
    compare_column-Computes (Column.int64 c) op Literal.monostate wf h =
        null_test-Computes op c.bitmap _ _ _ wf.1 (not_monostate (Column.int64 c))
          (λ other. absurd (ground arith))
    compare_column-Computes (Column.fp64 c) op (Literal.int64 b) wf h =
        null_test-Computes op c.bitmap _ _ _ wf.1 (not_monostate (Column.fp64 c))
          (λ other. absurd (ground arith))
    compare_column-Computes (Column.fp64 c) op (Literal.fp64 b) wf h =
        null_test-Computes op c.bitmap _ _ _ wf.1 (not_monostate (Column.fp64 c)) (λ other.
          Computes-ap _ _ _
            (λ row inside. elim (Bool-cases (InnerColumn.is_not_null doubles.cells c row)) [
              | inl present ↦ rw present refl
              | inr absent ↦ rw absent refl
            ])
            (compare_numbers-Computes turns schedule (doubles.cells) c rows wf.0 wf.1 op b
              (order_of op h other)))
    compare_column-Computes (Column.fp64 c) op (Literal.string b) wf h =
        null_test-Computes op c.bitmap _ _ _ wf.1 (not_monostate (Column.fp64 c))
          (λ other. absurd (ground arith))
    compare_column-Computes (Column.fp64 c) op Literal.monostate wf h =
        null_test-Computes op c.bitmap _ _ _ wf.1 (not_monostate (Column.fp64 c))
          (λ other. absurd (ground arith))
    compare_column-Computes (Column.varchar c) op (Literal.int64 b) wf h =
        null_test-Computes op c.bitmap _ _ _ wf.1 (not_monostate (Column.varchar c))
          (λ other. absurd (ground arith))
    compare_column-Computes (Column.varchar c) op (Literal.fp64 b) wf h =
        null_test-Computes op c.bitmap _ _ _ wf.1 (not_monostate (Column.varchar c))
          (λ other. absurd (ground arith))
    compare_column-Computes (Column.varchar c) op (Literal.string b) wf h =
        null_test-Computes op c.bitmap _ _ _ wf.1 (not_monostate (Column.varchar c)) (λ other.
          Computes-ap _ _ _
            (λ row inside. elim (Bool-cases (Strings.is_not_null c row)) [
              | inl present ↦ rw present refl
              | inr absent ↦ rw absent refl
            ])
            (compare_strings-Computes turns schedule c rows wf.0 wf.1 like_match op b other))
    compare_column-Computes (Column.varchar c) op Literal.monostate wf h =
        null_test-Computes op c.bitmap _ _ _ wf.1 (not_monostate (Column.varchar c))
          (λ other. absurd (ground arith))
