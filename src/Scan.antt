-- ===== src/Scan.antt =====
-- src/late_materialization.cpp, `scan_columnar_to_columnbuffer`: the columns of an input table
-- become columns of an intermediate result. include/columnar.h: `get_bitmap_local_col`.
pub mod Offsets
pub mod Words
pub mod Whole
pub mod Nulls
pub mod Rows
use sigmod_runtime_engine.Base.{
  ℕ, zero, suc, ◌+◌, ◌-◌, ◌*◌, ◌/◌, ◌%◌, ◌^◌, ◌≤◌, ◌<◌, min, max, bit_and, bit_or, ◌≡◌, refl, sym,
  ap, ◌∙◌, ◌≢◌, ◌↔◌, ◌⊎◌, inl, inr, Bool, true, false, not, ◌&&◌, ◌||◌, Option, none, some, List,
  [], ◌∷◌, ◌++◌, map, arith, ltb, leb, ◌==◌, if◌then◌else◌, ltb→lt, ltb→le, lt→ltb, le→ltb, ==→eq,
  ==→ne, ==_refl, ne→==, Bool-cases, Option-cases, length, get_or, get_elem?, set, replicate,
  select, length-append, length-set, length-replicate, get_or-replicate, get_or-replicate_self,
  get_or-set_self, get_or-set_ne, get_or-append_left, get_or-append_right, select-append,
  select-select, select_hit, select_miss, u8, u16, u32, u64, shl, shr,
}
use sigmod_runtime_engine.Pages.{Page, page_size, read_u16, DataType, Column, int32_at}
use sigmod_runtime_engine.Values.{make_i32, make_null, make_str_ref}
use sigmod_runtime_engine.Columnar.{ColumnT, append}

-- The first two bytes of a page.
unfoldable pub num_rows : Page → ℕ
num_rows page = read_u16 page 0

-- The bitmap lies at the end of a page.
unfoldable pub bitmap_bytes : ℕ → ℕ
bitmap_bytes rows = (rows + 7) / 8

-- `get_bitmap_local_col`, for the bitmap of a page with `rows` rows.
unfoldable pub get_bitmap : Page → ℕ → ℕ → Bool
get_bitmap page rows idx =
    not (bit_and (page (page_size - bitmap_bytes rows + idx / 8)) (shl 1 (idx % 8)) == 0)

-- The bits that byte `i` of a bitmap without NULLs has.
unfoldable pub expected_bits : ℕ → ℕ → ℕ
expected_bits rows i =
    if i == bitmap_bytes rows - 1 && not (rows % 8 == 0) then u8 (shl 1 (rows % 8) - 1) else 0xff

-- The loop over the bytes of a bitmap, from byte `i` on.
unfoldable pub bytes_have_nulls : Page → ℕ → ℕ → ℕ → Bool
bytes_have_nulls page rows i zero = false
bytes_have_nulls page rows i (suc rounds) =
    let expected = expected_bits rows i in
    not (bit_and (page (page_size - bitmap_bytes rows + i)) expected == expected)
    || bytes_have_nulls page rows (i + 1) rounds

unfoldable pub pages_have_nulls : List Page → Bool
pages_have_nulls [] = false
pages_have_nulls (page ∷ pages) =
    bytes_have_nulls page (num_rows page) 0 (bitmap_bytes (num_rows page)) || pages_have_nulls pages

-- `column_has_nulls`.
unfoldable pub column_has_nulls : Column → Bool
column_has_nulls column = elim column.type [
  | DataType.int32 ↦ pages_have_nulls column.pages
  | _ ↦ true
]

-- `page_offsets` behind its first element, from `cumulative` on.
unfoldable pub offsets_from : ℕ → List Page → List ℕ
offsets_from cumulative [] = []
offsets_from cumulative (page ∷ pages) =
    let sum = u64 (cumulative + num_rows page) in sum ∷ offsets_from sum pages

-- The values of a page of 32-bit integers, from row `i` on. `data_idx` counts the rows with a value.
unfoldable pub append_int32s : Page → ℕ → ℕ → ℕ → ColumnT → ℕ → ColumnT
append_int32s page rows i data_idx out zero = out
append_int32s page rows i data_idx out (suc rounds) =
    let with_value =
      append_int32s page rows (i + 1) (u16 (data_idx + 1))
        (append out (make_i32 (int32_at page data_idx))) rounds in
    let with_null = append_int32s page rows (i + 1) data_idx (append out make_null) rounds in
    if get_bitmap page rows i then with_value else with_null

-- The references to the strings of a page, likewise; `ref` makes one from a slot.
unfoldable pub append_refs : Page → (ℕ → ℕ) → ℕ → ℕ → ℕ → ColumnT → ℕ → ColumnT
append_refs page ref rows i data_idx out zero = out
append_refs page ref rows i data_idx out (suc rounds) =
    let with_value =
      append_refs page ref rows (i + 1) (u16 (data_idx + 1)) (append out (ref data_idx)) rounds in
    let with_null = append_refs page ref rows (i + 1) data_idx (append out make_null) rounds in
    if get_bitmap page rows i then with_value else with_null

-- A page of strings: the first page of a long string, another page of one, or short strings.
unfoldable pub scan_strings : Page → (ℕ → ℕ) → ColumnT → ColumnT
scan_strings page ref out =
    let rows = num_rows page in
    if rows == 0xffff
    then append out (ref 0xffff)
    else (if rows == 0xfffe then out else append_refs page ref rows 0 0 out rows)

-- One page, by the type of its column.
unfoldable pub scan_page : DataType → Page → (ℕ → ℕ) → ColumnT → ColumnT
scan_page DataType.int32 page ref out = append_int32s page (num_rows page) 0 0 out (num_rows page)
scan_page DataType.varchar page ref out = scan_strings page ref out
scan_page DataType.int64 page ref out = out
scan_page DataType.fp64 page ref out = out

-- The pages from `page_idx` on.
unfoldable pub scan_pages : DataType → ℕ → ℕ → ℕ → List Page → ColumnT → ColumnT
scan_pages type table_id in_col_idx page_idx [] out = out
scan_pages type table_id in_col_idx page_idx (page ∷ pages) out =
    scan_pages type table_id in_col_idx (page_idx + 1) pages (
      scan_page type page (λ slot. make_str_ref (u8 table_id) (u8 in_col_idx) (u32 page_idx) slot)
        out)

-- One column of the scan, for a table of `rows` rows.
unfoldable pub scan_column : Column → ℕ → ℕ → ℕ → ColumnT → ColumnT
scan_column column rows table_id in_col_idx out =
    if column_has_nulls column
    then scan_pages column.type table_id in_col_idx 0 column.pages out
    else record out {
      is_zero_copy = true;
      src_column = some column;
      num_values = rows;
      page_offsets = out.page_offsets ++ 0 ∷ offsets_from 0 column.pages;
    }
