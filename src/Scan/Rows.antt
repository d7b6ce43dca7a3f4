-- ===== src/Scan/Rows.antt =====
-- What a scan of a column gives to the join: the words of the input column, row by row.
use mathlib.Core.List.{flatten}
use sigmod_runtime_engine.Base.{
  ℕ, zero, suc, ◌+◌, ◌-◌, ◌^◌, ◌<◌, ◌≡◌, refl, sym, ap, ◌∙◌, inl, inr, true, false, some, List, [],
  ◌∷◌, map, arith, leb, Bool-cases, length, get_or, length-map,
}
use sigmod_runtime_engine.Pages.{Page, DataType, Column}
use sigmod_runtime_engine.Values.{make_i32}
use sigmod_runtime_engine.Columnar.{ColumnT, source, get}
use sigmod_runtime_engine.Columnar
use sigmod_runtime_engine.Columnar.Paged.{
  IsPaged, new-IsPaged, paged_value-flatten, get-paged_value,
}
use sigmod_runtime_engine.Columnar.Source.{all_values, get-all_values}
use sigmod_runtime_engine.Columnar.Cells.{recached}
use sigmod_runtime_engine.Join.{paged_source}
use sigmod_runtime_engine.Join.Columns.{ReadableFrom, Readable}
use sigmod_runtime_engine.Scan.{pages_have_nulls, column_has_nulls, offsets_from, scan_column}
use sigmod_runtime_engine.Scan.Offsets.{
  total_rows, length-offsets_from, last_offset, offsets_from-IsOffsets,
}
use sigmod_runtime_engine.Scan.Words.{
  pages_words, column_words, AreBytes, IsOpen, scan_pages-Filled, length-pages_words,
}
use sigmod_runtime_engine.Scan.Whole.{pages_int32s, pages_words_whole, column_values-pages_int32s}

new-IsOpen : IsOpen (Columnar.new 1024)
new-IsOpen = record {
  paged = new-IsPaged 1024 (omega arith);
  materialised = unfold Columnar.new in refl;
}

-- The scan of a column whose pages are made of bytes, and that is not of 32-bit integers or has a
-- NULL, is materialised. Its pages, all but the last of which are full, hold exactly the words of the
-- column: for each row of its pages in order the word of the row's value, which the page stores
-- behind those of the rows before that are not NULL, or NULL; one reference for each long string;
-- and none for columns of 64-bit values.
pub scan_column-Filled :
    (column : Column) (rows table_id in_col_idx : ℕ)
    → AreBytes column.pages
    → column_has_nulls column ≡ true
    → IsPaged (scan_column column rows table_id in_col_idx (Columnar.new 1024))
      × ((scan_column column rows table_id in_col_idx (Columnar.new 1024)).is_zero_copy ≡ false)
      × (flatten (scan_column column rows table_id in_col_idx (Columnar.new 1024)).pages
          ≡ column_words column table_id in_col_idx)
unfolding scan_column column_words
scan_column-Filled column rows table_id in_col_idx bytes nulls =
    let f =
      scan_pages-Filled column.pages column.type table_id in_col_idx 0 (Columnar.new 1024) bytes
        new-IsOpen in
    rw nulls (f.paged, f.materialised, unfold Columnar.new flatten in f.holds_all)

counted :
    (page : Page) (pages : List Page)
    → total_rows (page ∷ pages) < 2 ^ 64
    → let offsets = 0 ∷ offsets_from 0 (page ∷ pages) in
      get_or offsets (length offsets - 1) 0 ≡ total_rows (page ∷ pages)
counted page pages few =
    let long = length-offsets_from (page ∷ pages) 0 in
    let offsets : List ℕ = 0 ∷ offsets_from 0 (page ∷ pages) in
    let at_end : length offsets - 1 ≡ length (page ∷ pages) = omega (arith, long) in
    let last = last_offset (page ∷ pages) 0 (omega arith) in
    let sum : 0 + total_rows (page ∷ pages) ≡ total_rows (page ∷ pages) = omega arith in
    ap (λ i. get_or offsets i 0) at_end ∙ last ∙ sum

zero_copy-Readable :
    (pages : List Page) (c : ColumnT) (column : Column)
    → c.is_zero_copy ≡ true
    → c.src_column ≡ some column
    → c.page_offsets ≡ 0 ∷ offsets_from 0 pages
    → total_rows pages < 2 ^ 64
    → Readable c (total_rows pages)
unfolding Readable ReadableFrom paged_source
zero_copy-Readable [] c column on from offsets few =
    let one_offset : leb 2 (length c.page_offsets) ≡ false =
      rw offsets (unfold offsets_from in refl) in
    rw (on, one_offset) tt
zero_copy-Readable (page ∷ pages) c column on from offsets few =
    let long = length-offsets_from (page ∷ pages) 0 in
    let enough : leb 2 (length c.page_offsets) ≡ true = rw offsets (ground (arith, long)) in
    rw (on, enough, from, offsets)
      (offsets_from-IsOffsets page pages few, sym (counted page pages few))

-- A row is read from the words that were appended.
get-Filled :
    (c : ColumnT) (ws : List ℕ) (row : ℕ)
    → IsPaged c
    → c.is_zero_copy ≡ false
    → flatten c.pages ≡ ws
    → row < length ws
    → (p : ℕ) × (get c row ≡ some (get_or ws row 0, recached c p))
get-Filled c ws row paged materialised all inside =
    let value =
      paged_value-flatten c row paged (omega (arith, paged.counted, ap length all))
      ∙ ap (λ l. get_or l row 0) all in
    (
      c.cached_page_idx,
      get-paged_value c row materialised ∙ ap (λ w. some (w, recached c c.cached_page_idx)) value,
    )

get_or-map :
    (f : ℕ → ℕ) (vs : List ℕ) (i : ℕ) → i < length vs → get_or (map f vs) i 0 ≡ f (get_or vs i 0)
get_or-map f [] i h = absurd (omega arith)
get_or-map f (v ∷ vs) zero h = refl
get_or-map f (v ∷ vs) (suc i) h = get_or-map f vs i (omega arith)

-- The zero-copy column that the scan of pages without NULLs gives.
abbrev borrowed : Column → ℕ → ColumnT
borrowed column rows = record (Columnar.new 1024) {
  is_zero_copy = true;
  src_column = some column;
  num_values = rows;
  page_offsets = 0 ∷ offsets_from 0 column.pages;
}

values_of :
    (pages : List Page)
    → total_rows pages < 2 ^ 64
    → all_values pages (0 ∷ offsets_from 0 pages) ≡ pages_int32s pages
unfolding all_values
values_of pages few =
    let rounds : length (0 ∷ offsets_from 0 pages) - 1 ≡ length pages =
      omega (arith, length-offsets_from pages 0) in
    rw rounds (column_values-pages_int32s pages 0 (omega arith))

abbrev pub int32_column : List Page → Column
int32_column pages = record { type = DataType.int32; pages = pages }

-- The scan of a column of 32-bit integers.
abbrev pub scanned : List Page → ℕ → ℕ → ℕ → ColumnT
scanned pages rows table_id in_col_idx =
    scan_column (int32_column pages) rows table_id in_col_idx (Columnar.new 1024)

get-borrowed :
    (pages : List Page) (rows table_id in_col_idx row : ℕ)
    → pages_have_nulls pages ≡ false
    → total_rows pages ≡ rows
    → rows < 2 ^ 64
    → row < rows
    → (p : ℕ) × (get (borrowed (int32_column pages) rows) row
        ≡ some (
          get_or (column_words (int32_column pages) table_id in_col_idx) row 0,
          recached (borrowed (int32_column pages) rows) p,
        ))
unfolding column_words
get-borrowed [] rows table_id in_col_idx row whole all few inside =
    absurd (unfold total_rows in omega arith)
get-borrowed (page ∷ pages) rows table_id in_col_idx row whole all few inside =
    let column : Column = int32_column (page ∷ pages) in
    let few_rows : total_rows (page ∷ pages) < 2 ^ 64 = omega arith in
    let (p, _, is, _) =
      get-all_values (borrowed column rows) column row 0
        (offsets_from-IsOffsets page pages few_rows) (unfold source in refl)
        (omega (arith, counted page pages few_rows)) in
    let words = pages_words_whole (page ∷ pages) table_id in_col_idx 0 whole in
    let vs = pages_int32s (page ∷ pages) in
    let many : length vs ≡ rows =
      sym (length-map make_i32 vs)
      ∙ sym (ap length words)
      ∙ length-pages_words (page ∷ pages) table_id in_col_idx 0
      ∙ all in
    let value : make_i32 (get_or vs row 0)
        ≡ get_or (pages_words DataType.int32 table_id in_col_idx 0 (page ∷ pages)) row 0 =
      sym (get_or-map make_i32 vs row (omega (arith, many)))
      ∙ sym (ap (λ ws. get_or ws row 0) words) in
    (
      p,
      is
          ∙ ap (λ us. some (make_i32 (get_or us row 0), recached (borrowed column rows) p))
              (values_of (page ∷ pages) few_rows)
          ∙ ap (λ w. some (w, recached (borrowed column rows) p)) value,
    )

-- For a column of 32-bit integers whose pages are made of bytes and have as many rows as the table,
-- fewer than 2^64, `get` on its scan gives at each row the row's word, whether the scan copied the
-- column or not: NULL, or the word of the 32-bit integer that the page stores behind those of the
-- rows before that are not NULL. The scan is also readable as a key column: a zero-copy column's
-- offsets count the rows of the pages.
pub get-scan_column :
    (pages : List Page) (rows table_id in_col_idx row : ℕ)
    → AreBytes pages
    → total_rows pages ≡ rows
    → rows < 2 ^ 64
    → row < rows
    → Readable (scanned pages rows table_id in_col_idx) rows
      × (p : ℕ) × (get (scanned pages rows table_id in_col_idx) row
          ≡ some (
            get_or (column_words (int32_column pages) table_id in_col_idx) row 0,
            recached (scanned pages rows table_id in_col_idx) p,
          ))
get-scan_column pages rows table_id in_col_idx row bytes all few inside =
    let column : Column = int32_column pages in
    elim (Bool-cases (column_has_nulls column)) [
      | inl nulls ↦
          let (paged, materialised, words) =
            scan_column-Filled column rows table_id in_col_idx bytes nulls in
          let many = length-pages_words pages table_id in_col_idx 0 in
          let (p, is) =
            get-Filled _ _ row paged materialised words
              (unfold column_words in omega (arith, many)) in
          (unfold Readable ReadableFrom paged_source in rw materialised tt, p, is)
      | inr whole ↦
          let ready =
            zero_copy-Readable pages (borrowed column rows) column refl refl refl (omega arith) in
          let (p, is) =
            get-borrowed pages rows table_id in_col_idx row (unfold column_has_nulls in whole) all
              few inside in
          unfold scan_column Columnar.new in rw whole (rw all at ready, p, is)
    ]
