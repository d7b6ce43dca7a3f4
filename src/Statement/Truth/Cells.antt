-- ===== src/Statement/Truth/Cells.antt =====
-- Comparisons of one column compute what they say of each row's value.
use sigmod_runtime_engine.Base.{
  ℕ, ◌+◌, ◌/◌, ◌<◌, ◌≡◌, refl, Bool, true, false, not, ◌&&◌, List, arith, length,
}
use sigmod_runtime_engine.Bitmap.{bit_of}
use sigmod_runtime_engine.Bitmap.Rows.{IsBitmap}
use sigmod_runtime_engine.FilterThreadPool.{filter_tp, Schedule}
use sigmod_runtime_engine.InnerColumn.{
  InnerColumn, CellType, is_not_null, get, less_span, less, greater_span, greater, less_equal_span,
  less_equal, greater_equal_span, greater_equal, equal_span, equal, not_equal_span, not_equal,
  run_spans, fill_bits,
}
use sigmod_runtime_engine.InnerColumn.Filter.{run_spans_lem, run_spans-IsBitmap, row_passes}
use sigmod_runtime_engine.InnerColumn.Strings
use sigmod_runtime_engine.InnerColumn.Strings.{StringColumn, string_less, string_equal, run_rows}
use sigmod_runtime_engine.InnerColumn.StringFilter.{run_rows_lem, run_rows-IsBitmap, string_passes}
use sigmod_runtime_engine.Statement.{Op}
use sigmod_runtime_engine.Statement.Table.{compare_numbers, compare_strings}
use sigmod_runtime_engine.Statement.Truth.{holds, text_holds, is_order, is_null_test, Computes}

module _ (turns : List ℕ) (schedule : Schedule filter_tp turns) where
  module _ {T : Type 0} (cells : CellType T) (c : InnerColumn T) (rows : ℕ)
      (same : length c.cells ≡ rows) (wf : IsBitmap ((rows + 7) / 8) c.bitmap) where
    sized : IsBitmap ((length c.cells + 7) / 8) c.bitmap
    sized = rw same wf

    bytes_of :
        (test : T → Bool)
        → IsBitmap ((rows + 7) / 8) (
            run_spans cells turns c
              (λ first size output. fill_bits cells test c.cells c.bitmap first size output))
    bytes_of test = rw wf.0 at (run_spans-IsBitmap cells turns c test sized)

    bits_of :
        (test : T → Bool) (row : ℕ)
        → row < rows
        → bit_of
            (run_spans cells turns c
              (λ first size output. fill_bits cells test c.cells c.bitmap first size output))
            row
          ≡ (is_not_null cells c row && test (get cells c row))
    unfolding row_passes
    bits_of test row inside = run_spans_lem cells turns c test sized row schedule (rw same inside)

    pub compare_numbers-Computes :
        (op : Op) (rhs : T)
        → is_order op ≡ true
        → Computes rows
            (λ row. is_not_null cells c row && holds cells op (get cells c row) rhs)
            (compare_numbers turns cells c op rhs)
    unfolding compare_numbers holds Computes less_span less greater_span greater less_equal_span
        less_equal greater_equal_span greater_equal equal_span equal not_equal_span not_equal
    compare_numbers-Computes Op.eq rhs h = (
      equal cells turns c rhs,
      refl,
      bytes_of (λ v. cells.eq v rhs),
      bits_of (λ v. cells.eq v rhs),
    )
    compare_numbers-Computes Op.neq rhs h = (
      not_equal cells turns c rhs,
      refl,
      bytes_of (λ v. cells.ne v rhs),
      bits_of (λ v. cells.ne v rhs),
    )
    compare_numbers-Computes Op.lt rhs h = (
      less cells turns c rhs,
      refl,
      bytes_of (λ v. cells.lt v rhs),
      bits_of (λ v. cells.lt v rhs),
    )
    compare_numbers-Computes Op.gt rhs h = (
      greater cells turns c rhs,
      refl,
      bytes_of (λ v. cells.gt v rhs),
      bits_of (λ v. cells.gt v rhs),
    )
    compare_numbers-Computes Op.leq rhs h = (
      less_equal cells turns c rhs,
      refl,
      bytes_of (λ v. cells.le v rhs),
      bits_of (λ v. cells.le v rhs),
    )
    compare_numbers-Computes Op.geq rhs h = (
      greater_equal cells turns c rhs,
      refl,
      bytes_of (λ v. cells.ge v rhs),
      bits_of (λ v. cells.ge v rhs),
    )
    compare_numbers-Computes Op.like rhs h = absurd (ground arith)
    compare_numbers-Computes Op.not_like rhs h = absurd (ground arith)
    compare_numbers-Computes Op.is_null rhs h = absurd (ground arith)
    compare_numbers-Computes Op.is_not_null rhs h = absurd (ground arith)

  module _ (c : StringColumn) (rows : ℕ) (same : c.row ≡ rows)
      (wf : IsBitmap ((rows + 7) / 8) c.bitmap) where
    string_sized : IsBitmap ((c.row + 7) / 8) c.bitmap
    string_sized = rw same wf

    string_bytes_of : (test : List ℕ → Bool) → IsBitmap ((rows + 7) / 8) (run_rows turns c test)
    string_bytes_of test = rw wf.0 at (run_rows-IsBitmap c test turns string_sized)

    string_bits_of :
        (test : List ℕ → Bool) (row : ℕ)
        → row < rows
        → bit_of (run_rows turns c test) row
          ≡ (Strings.is_not_null c row && test (Strings.get c row))
    unfolding string_passes
    string_bits_of test row inside =
        run_rows_lem c test turns string_sized row schedule (rw same inside)

    module _ (like_match : List ℕ → List ℕ → Bool) where
      pub compare_strings-Computes :
          (op : Op) (rhs : List ℕ)
          → is_null_test op ≡ false
          → Computes rows
              (λ row. Strings.is_not_null c row && text_holds like_match op (Strings.get c row) rhs)
              (compare_strings turns like_match c op rhs)
      unfolding compare_strings text_holds Computes Strings.less Strings.greater Strings.less_equal
          Strings.greater_equal Strings.equal Strings.not_equal Strings.like Strings.not_like
      compare_strings-Computes Op.eq rhs h = (
        Strings.equal turns c rhs,
        refl,
        string_bytes_of (λ v. string_equal v rhs),
        string_bits_of (λ v. string_equal v rhs),
      )
      compare_strings-Computes Op.neq rhs h = (
        Strings.not_equal turns c rhs,
        refl,
        string_bytes_of (λ v. not (string_equal v rhs)),
        string_bits_of (λ v. not (string_equal v rhs)),
      )
      compare_strings-Computes Op.lt rhs h = (
        Strings.less turns c rhs,
        refl,
        string_bytes_of (λ v. string_less v rhs),
        string_bits_of (λ v. string_less v rhs),
      )
      compare_strings-Computes Op.gt rhs h = (
        Strings.greater turns c rhs,
        refl,
        string_bytes_of (λ v. string_less rhs v),
        string_bits_of (λ v. string_less rhs v),
      )
      compare_strings-Computes Op.leq rhs h = (
        Strings.less_equal turns c rhs,
        refl,
        string_bytes_of (λ v. not (string_less rhs v)),
        string_bits_of (λ v. not (string_less rhs v)),
      )
      compare_strings-Computes Op.geq rhs h = (
        Strings.greater_equal turns c rhs,
        refl,
        string_bytes_of (λ v. not (string_less v rhs)),
        string_bits_of (λ v. not (string_less v rhs)),
      )
      compare_strings-Computes Op.like rhs h = (
        Strings.like turns like_match c rhs,
        refl,
        string_bytes_of (λ v. like_match v rhs),
        string_bits_of (λ v. like_match v rhs),
      )
      compare_strings-Computes Op.not_like rhs h = (
        Strings.not_like turns like_match c rhs,
        refl,
        string_bytes_of (λ v. not (like_match v rhs)),
        string_bits_of (λ v. not (like_match v rhs)),
      )
      compare_strings-Computes Op.is_null rhs h = absurd (ground arith)
      compare_strings-Computes Op.is_not_null rhs h = absurd (ground arith)
