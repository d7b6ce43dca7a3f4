-- ===== src/Tests/Scans.antt =====
-- The scans of a column of two pages with two rows each, with a NULL and without.
use mathlib.Core.List.{flatten}
use sigmod_runtime_engine.Base.{
  ℕ, ◌<◌, ◌≡◌, refl, ◌↔◌, true, false, some, List, [], ◌∷◌, arith, ◌==◌, if◌then◌else◌, get_or,
}
use sigmod_runtime_engine.Pages.{Page, read_u16, read_i32, int32_at}
use sigmod_runtime_engine.Columnar.{get}
use sigmod_runtime_engine.Columnar
use sigmod_runtime_engine.Columnar.Paged.{IsPaged}
use sigmod_runtime_engine.Columnar.Cells.{recached}
use sigmod_runtime_engine.Join.Columns.{Readable}
use sigmod_runtime_engine.Scan.{
  num_rows, bitmap_bytes, get_bitmap, expected_bits, bytes_have_nulls, pages_have_nulls,
  column_has_nulls, scan_column,
}
use sigmod_runtime_engine.Scan.Offsets.{total_rows}
use sigmod_runtime_engine.Scan.Words.{
  AreBytes, rank, row_word, row_words, page_words, pages_words, column_words,
}
use sigmod_runtime_engine.Values.{make_i32, make_null}
use sigmod_runtime_engine.Scan.Nulls.{AllPresent, column_has_nulls-AllPresent}
use sigmod_runtime_engine.Scan.Rows.{int32_column, scanned, scan_column-Filled, get-scan_column}

abbrev two_rows : ℕ → Page
two_rows bitmap at =
    if at == 0
    then 2
    else (if at == 4 then 7 else (if at == 8 then 9 else (if at == 8191 then bitmap else 0)))

abbrev with_null : List Page
with_null = two_rows 3 ∷ two_rows 2 ∷ []

abbrev without_nulls : List Page
without_nulls = two_rows 3 ∷ two_rows 3 ∷ []

two_rows-lt : (bitmap at : ℕ) → bitmap < 256 → two_rows bitmap at < 256
two_rows-lt bitmap at h = ground arith

with_null-AreBytes : AreBytes with_null
with_null-AreBytes =
    (λ at. two_rows-lt 3 at (omega arith), (λ at. two_rows-lt 2 at (omega arith), tt))

without_nulls-AreBytes : AreBytes without_nulls
without_nulls-AreBytes =
    (λ at. two_rows-lt 3 at (omega arith), (λ at. two_rows-lt 3 at (omega arith), tt))

four_rows : total_rows without_nulls ≡ 4
unfolding total_rows num_rows read_u16
four_rows = refl

has_null : column_has_nulls (int32_column with_null) ≡ true
unfolding column_has_nulls pages_have_nulls bytes_have_nulls expected_bits bitmap_bytes num_rows
    read_u16
has_null = refl

scan_column-Filled_example :
    IsPaged (scan_column (int32_column with_null) 4 0 7 (Columnar.new 1024))
    × ((scan_column (int32_column with_null) 4 0 7 (Columnar.new 1024)).is_zero_copy ≡ false)
    × (flatten (scan_column (int32_column with_null) 4 0 7 (Columnar.new 1024)).pages
        ≡ column_words (int32_column with_null) 0 7)
scan_column-Filled_example =
    scan_column-Filled (int32_column with_null) 4 0 7 with_null-AreBytes has_null

get-scan_column_example :
    Readable (scanned without_nulls 4 0 7) 4
    × (p : ℕ) × (get (scanned without_nulls 4 0 7) 3
        ≡ some (
          get_or (column_words (int32_column without_nulls) 0 7) 3 0,
          recached (scanned without_nulls 4 0 7) p,
        ))
get-scan_column_example =
    get-scan_column without_nulls 4 0 7 3 without_nulls-AreBytes four_rows (omega arith)
      (omega arith)

column_has_nulls-AllPresent_example :
    (column_has_nulls (int32_column without_nulls) ≡ false) ↔ AllPresent without_nulls
column_has_nulls-AllPresent_example = column_has_nulls-AllPresent without_nulls

-- The words of the column with a NULL: 7, 9, NULL, and 7 again, which the page stores first.
with_null_words :
    column_words (int32_column with_null) 0 7
    ≡ make_i32 7 ∷ make_i32 9 ∷ make_null ∷ make_i32 7 ∷ []
unfolding column_words pages_words page_words row_words row_word rank num_rows read_u16 get_bitmap
    bitmap_bytes int32_at read_i32
with_null_words = refl
