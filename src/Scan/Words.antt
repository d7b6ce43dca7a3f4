-- ===== src/Scan/Words.antt =====
-- The words of an input column, row by row, and that the scan appends them one after the other.
use mathlib.Core.List.{flatten, append_assoc, append-nil}
use sigmod_runtime_engine.Base.{
  ℕ, zero, suc, ◌+◌, ◌^◌, ◌≤◌, ◌<◌, ◌≡◌, refl, sym, ap, ◌∙◌, inl, inr, false, List, [], ◌∷◌, ◌++◌,
  arith, ◌==◌, if◌then◌else◌, Bool-cases, length, length-append, u8, u16, u32,
}
use sigmod_runtime_engine.Pages.{Page, read_u16, DataType, Column, int32_at}
use sigmod_runtime_engine.Values.{make_i32, make_null, make_str_ref}
use sigmod_runtime_engine.Columnar.{ColumnT, append}
use sigmod_runtime_engine.Columnar.Paged.{IsPaged, append-IsPaged}
use sigmod_runtime_engine.Scan.{
  num_rows, get_bitmap, append_int32s, append_refs, scan_strings, scan_page, scan_pages,
}
use sigmod_runtime_engine.Scan.Offsets.{total_rows}

-- How many rows of a page below row `i` have a value. A page stores the values of these rows only.
unfoldable pub rank : Page → ℕ → ℕ
rank page zero = 0
rank page (suc i) = rank page i + (if get_bitmap page (num_rows page) i then 1 else 0)

-- The word of a row: that of the row's value, or NULL.
unfoldable pub row_word : Page → (ℕ → ℕ) → ℕ → ℕ
row_word page word i = if get_bitmap page (num_rows page) i then word (rank page i) else make_null

-- The words of `n` rows from row `i` on.
unfoldable pub row_words : Page → (ℕ → ℕ) → ℕ → ℕ → List ℕ
row_words page word i zero = []
row_words page word i (suc n) = row_word page word i ∷ row_words page word (i + 1) n

-- The words of a page, where `ref` is the reference to a string by its slot. A long string has one
-- reference, on its first page; no words are made of 64-bit values.
unfoldable pub page_words : DataType → (ℕ → ℕ) → Page → List ℕ
page_words DataType.int32 ref page =
    row_words page (λ slot. make_i32 (int32_at page slot)) 0 (num_rows page)
page_words DataType.varchar ref page =
    if num_rows page == 0xffff
    then ref 0xffff ∷ []
    else (if num_rows page == 0xfffe then [] else row_words page ref 0 (num_rows page))
page_words DataType.int64 ref page = []
page_words DataType.fp64 ref page = []

-- The words of the pages from `page_idx` on, and those of a whole column.
unfoldable pub pages_words : DataType → ℕ → ℕ → ℕ → List Page → List ℕ
pages_words type table_id in_col_idx page_idx [] = []
pages_words type table_id in_col_idx page_idx (page ∷ pages) =
    page_words type (λ slot. make_str_ref (u8 table_id) (u8 in_col_idx) (u32 page_idx) slot) page
    ++ pages_words type table_id in_col_idx (page_idx + 1) pages

unfoldable pub column_words : Column → ℕ → ℕ → List ℕ
column_words column table_id in_col_idx = pages_words column.type table_id in_col_idx 0 column.pages

-- Pages are made of bytes.
abbrev pub AreBytes : List Page → Type 0
AreBytes [] = Unit
AreBytes (page ∷ pages) = ((at : ℕ) → page at < 256) × AreBytes pages

pub num_rows-lt : (page : Page) → ((at : ℕ) → page at < 256) → num_rows page < 2 ^ 16
unfolding num_rows read_u16
num_rows-lt page bytes = omega (arith, bytes 0, bytes 1)

pub rank-le : (page : Page) (i : ℕ) → rank page i ≤ i
unfolding rank
rank-le page zero = omega arith
rank-le page (suc i) = ground (arith, rank-le page i)

-- `out` with `ws` appended: a materialised column whose pages are in shape.
pub record Filled (out : ColumnT) (ws : List ℕ) (filled : ColumnT) : Type 0 where
  pub paged : IsPaged filled
  pub materialised : filled.is_zero_copy ≡ false
  pub holds_all : flatten filled.pages ≡ flatten out.pages ++ ws

-- A column that can be appended to.
pub record IsOpen (c : ColumnT) : Type 0 where
  pub paged : IsPaged c
  pub materialised : c.is_zero_copy ≡ false

abbrev pub open_of : {out filled : ColumnT} {ws : List ℕ} → Filled out ws filled → IsOpen filled
open_of f = record { paged = f.paged; materialised = f.materialised }

none-Filled : (out : ColumnT) → IsOpen out → Filled out [] out
none-Filled out o = record {
  paged = o.paged;
  materialised = o.materialised;
  holds_all = sym (append-nil (flatten out.pages));
}

append-Filled : (out : ColumnT) (w : ℕ) → IsOpen out → Filled out (w ∷ []) (append out w)
append-Filled out w o =
    let next = append-IsPaged out w o.paged in
    record { paged = next.0; materialised = unfold append in o.materialised; holds_all = next.1 }

Filled-trans :
    {out mid filled : ColumnT} {xs ys : List ℕ}
    → Filled out xs mid
    → Filled mid ys filled
    → Filled out (xs ++ ys) filled
Filled-trans {out = out} {xs = xs} {ys = ys} f g = record {
  paged = g.paged;
  materialised = g.materialised;
  holds_all = g.holds_all ∙ ap (λ l. l ++ ys) f.holds_all ∙ append_assoc (flatten out.pages) xs ys;
}

-- The loops over the rows of a page differ in the word only.
append_int32s-append_refs :
    (page : Page) (rows i data_idx : ℕ) (out : ColumnT) (n : ℕ)
    → append_int32s page rows i data_idx out n
      ≡ append_refs page (λ slot. make_i32 (int32_at page slot)) rows i data_idx out n
unfolding append_int32s append_refs
append_int32s-append_refs page rows i data_idx out zero = refl
append_int32s-append_refs page rows i data_idx out (suc n) =
    rw
      (
        append_int32s-append_refs page rows (i + 1) (u16 (data_idx + 1))
            (append out (make_i32 (int32_at page data_idx))) n,
        append_int32s-append_refs page rows (i + 1) data_idx (append out make_null) n,
      )
      refl

module _ (page : Page) (word : ℕ → ℕ) where
  append_refs-Filled :
      (n i data_idx : ℕ) (out : ColumnT)
      → data_idx ≡ rank page i
      → i + n < 2 ^ 16
      → IsOpen out
      → Filled out
          (row_words page word i n)
          (append_refs page word (num_rows page) i data_idx out n)
  unfolding append_refs row_words row_word
  append_refs-Filled zero i data_idx out at few o = none-Filled out o
  append_refs-Filled (suc n) i data_idx out at few o =
      let e : i + 1 ≡ suc i = omega arith in
      let next : rank page (i + 1)
          ≡ rank page i + (if get_bitmap page (num_rows page) i then 1 else 0) =
        rw e (unfold rank in refl) in
      elim (Bool-cases (get_bitmap page (num_rows page) i)) [
        | inl there ↦
            let f = append-Filled out (word data_idx) o in
            let counted : u16 (data_idx + 1) ≡ rank page (i + 1) =
              omega (arith, at, rank-le page i, rw there at next) in
            rw (there, sym at)
              (Filled-trans f (append_refs-Filled n (i + 1) _ _ counted (omega arith) (open_of f)))
        | inr nothing ↦
            let f = append-Filled out make_null o in
            let counted : data_idx ≡ rank page (i + 1) = omega (arith, at, rw nothing at next) in
            rw nothing
              (Filled-trans f (append_refs-Filled n (i + 1) _ _ counted (omega arith) (open_of f)))
      ]

  all_rows-Filled :
      (out : ColumnT)
      → num_rows page < 2 ^ 16
      → IsOpen out
      → Filled out
          (row_words page word 0 (num_rows page))
          (append_refs page word (num_rows page) 0 0 out (num_rows page))
  all_rows-Filled out few o =
      append_refs-Filled (num_rows page) 0 0 out (unfold rank in refl) (omega arith) o

scan_page-Filled :
    (type : DataType) (page : Page) (ref : ℕ → ℕ) (out : ColumnT)
    → num_rows page < 2 ^ 16
    → IsOpen out
    → Filled out (page_words type ref page) (scan_page type page ref out)
unfolding scan_page page_words scan_strings
scan_page-Filled DataType.int32 page ref out few o =
    rw (append_int32s-append_refs page (num_rows page) 0 0 out (num_rows page))
      (all_rows-Filled page _ out few o)
scan_page-Filled DataType.varchar page ref out few o = elim (Bool-cases (num_rows page == 0xffff)) [
  | inl first ↦ rw first (append-Filled out (ref 0xffff) o)
  | inr other ↦ elim (Bool-cases (num_rows page == 0xfffe)) [
    | inl further ↦ rw (other, further) (none-Filled out o)
    | inr short ↦ rw (other, short) (all_rows-Filled page ref out few o)
  ]
]
scan_page-Filled DataType.int64 page ref out few o = none-Filled out o
scan_page-Filled DataType.fp64 page ref out few o = none-Filled out o

pub scan_pages-Filled :
    (pages : List Page) (type : DataType) (table_id in_col_idx page_idx : ℕ) (out : ColumnT)
    → AreBytes pages
    → IsOpen out
    → Filled out
        (pages_words type table_id in_col_idx page_idx pages)
        (scan_pages type table_id in_col_idx page_idx pages out)
unfolding scan_pages pages_words
scan_pages-Filled [] type table_id in_col_idx page_idx out bytes o = none-Filled out o
scan_pages-Filled (page ∷ pages) type table_id in_col_idx page_idx out bytes o =
    let f = scan_page-Filled type page _ out (num_rows-lt page bytes.0) o in
    Filled-trans f
      (scan_pages-Filled pages type table_id in_col_idx (page_idx + 1) _ bytes.1 (open_of f))

length-row_words : (page : Page) (word : ℕ → ℕ) (i n : ℕ) → length (row_words page word i n) ≡ n
unfolding row_words
length-row_words page word i zero = refl
length-row_words page word i (suc n) = ap suc (length-row_words page word (i + 1) n)

-- A column of 32-bit integers has a word for every row of its pages.
pub length-pages_words :
    (pages : List Page) (table_id in_col_idx page_idx : ℕ)
    → length (pages_words DataType.int32 table_id in_col_idx page_idx pages) ≡ total_rows pages
unfolding pages_words page_words total_rows
length-pages_words [] table_id in_col_idx page_idx = refl
length-pages_words (page ∷ pages) table_id in_col_idx page_idx =
    let word : ℕ → ℕ = λ slot. make_i32 (int32_at page slot) in
    let mine = row_words page word 0 (num_rows page) in
    let rest = pages_words DataType.int32 table_id in_col_idx (page_idx + 1) pages in
    omega (
      arith,
      length-append mine rest,
      length-row_words page word 0 (num_rows page),
      length-pages_words pages table_id in_col_idx (page_idx + 1),
    )
