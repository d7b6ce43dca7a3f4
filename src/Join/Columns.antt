-- ===== src/Join/Columns.antt =====
-- The keys of a column, row by row, however the column is stored; and the entries that the build
-- makes of them.
use sigmod_runtime_engine.Base.{
  ℕ, zero, suc, ◌+◌, ◌-◌, ◌≤◌, ◌<◌, ◌≡◌, refl, sym, ap, ◌∙◌, inl, inr, Option, none, some, List, [],
  ◌∷◌, arith, Bool-cases, length, get_or, length-append, u32,
}
use sigmod_runtime_engine.Pages.{Page, no_page, Column, int32s}
use sigmod_runtime_engine.Values.{is_null, as_i32}
use sigmod_runtime_engine.Unchained.{FlatTable, max_size}
use sigmod_runtime_engine.Unchained.Phases.{build_from_entries}
use sigmod_runtime_engine.Unchained.ZeroCopy.{
  page_rows, build_from_zero_copy_int32, build_from_zero_copy_int32-eq,
}
use sigmod_runtime_engine.Columnar.{ColumnT, paged_value}
use sigmod_runtime_engine.Columnar.Source.{
  IsOffsets, column_values, all_values, numbered, column_entries-numbered, length-int32s,
  page_rows_lem,
}
use sigmod_runtime_engine.Join.{paged_source, copied_entries}
use sigmod_runtime_engine.Join.Keys.{Keys, key_of, key_entries}

-- The keys of a materialised column from row `i` on.
unfoldable pub copied_keys : ColumnT → ℕ → ℕ → Keys
copied_keys c i zero = []
copied_keys c i (suc rounds) = key_of (paged_value c i) ∷ copied_keys c (i + 1) rounds

-- Keys that are all there.
unfoldable pub present : List ℕ → Keys
present [] = []
present (v ∷ vs) = some v ∷ present vs

unfoldable pub keys_from : ColumnT → ℕ → Option Column → Keys
keys_from c num_rows none = copied_keys c 0 num_rows
keys_from c num_rows (some column) = present (all_values column.pages c.page_offsets)

-- The keys of the rows of a key column: those on its pages, or those of its words.
unfoldable pub keys_of : ColumnT → ℕ → Keys
keys_of c num_rows = keys_from c num_rows (paged_source c)

unfoldable pub ReadableFrom : ColumnT → ℕ → Option Column → Type 0
ReadableFrom c num_rows none = Unit {0}
ReadableFrom c num_rows (some column) =
    IsOffsets c.page_offsets × (num_rows ≡ get_or c.page_offsets (length c.page_offsets - 1) 0)

-- If the column is read from the pages of its source, its offsets count the rows of these pages.
unfoldable pub Readable : ColumnT → ℕ → Type 0
Readable c num_rows = ReadableFrom c num_rows (paged_source c)

pub length-copied_keys : (c : ColumnT) (i n : ℕ) → length (copied_keys c i n) ≡ n
unfolding copied_keys
length-copied_keys c i zero = refl
length-copied_keys c i (suc n) = ap suc (length-copied_keys c (i + 1) n)

pub length-present : (vs : List ℕ) → length (present vs) ≡ length vs
unfolding present
length-present [] = refl
length-present (v ∷ vs) = ap suc (length-present vs)

pub get_or-copied_keys :
    (c : ColumnT) (i n k : ℕ)
    → k < n
    → get_or (copied_keys c i n) k none ≡ key_of (paged_value c (i + k))
unfolding copied_keys
get_or-copied_keys c i zero k h = absurd (omega arith)
get_or-copied_keys c i (suc n) zero h =
    let e : i ≡ i + zero = omega arith in ap (λ r. key_of (paged_value c r)) e
get_or-copied_keys c i (suc n) (suc k) h =
    let e : i + 1 + k ≡ i + suc k = omega arith in
    get_or-copied_keys c (i + 1) n k (omega arith) ∙ ap (λ r. key_of (paged_value c r)) e

pub get_or-present :
    (vs : List ℕ) (k : ℕ) → k < length vs → get_or (present vs) k none ≡ some (get_or vs k 0)
unfolding present
get_or-present [] k h = absurd (omega arith)
get_or-present (v ∷ vs) zero h = refl
get_or-present (v ∷ vs) (suc k) h = get_or-present vs k (omega arith)

-- The build takes the rows that have a key.
pub copied_entries-key_entries :
    (c : ColumnT) (i n : ℕ) → copied_entries c i n ≡ key_entries i (copied_keys c i n)
unfolding copied_entries key_entries copied_keys key_of
copied_entries-key_entries c i zero = refl
copied_entries-key_entries c i (suc n) =
    let v = paged_value c i in
    elim (Bool-cases (is_null v)) [
      | inl nothing ↦ rw nothing (copied_entries-key_entries c (i + 1) n)
      | inr key ↦ rw key (
          ap (λ r. record { key = as_i32 v; row_id = u32 i } ∷ r)
            (copied_entries-key_entries c (i + 1) n))
    ]

pub numbered-key_entries : (row : ℕ) (vs : List ℕ) → numbered row vs ≡ key_entries row (present vs)
unfolding numbered key_entries present
numbered-key_entries row [] = refl
numbered-key_entries row (v ∷ vs) =
    ap (λ r. record { key = v; row_id = u32 row } ∷ r) (numbered-key_entries (row + 1) vs)

length-column_values :
    (pages : List Page) (page_offsets : List ℕ) (rounds i : ℕ)
    → IsOffsets page_offsets
    → i + rounds + 1 ≡ length page_offsets
    → get_or page_offsets i 0 + length (column_values pages page_offsets i rounds)
      ≡ get_or page_offsets (length page_offsets - 1) 0
unfolding column_values
length-column_values pages page_offsets zero i offs all =
    let last : i ≡ length page_offsets - 1 = omega arith in rw (sym last) (omega arith)
length-column_values pages page_offsets (suc rounds) i offs all =
    let rows = page_rows page_offsets i in
    let page = get_or pages i no_page in
    let rest = column_values pages page_offsets (i + 1) rounds in
    omega (
      arith,
      page_rows_lem pages page_offsets offs i (omega arith),
      length-int32s page 0 rows,
      length-append (int32s page 0 rows) rest,
      length-column_values pages page_offsets rounds (i + 1) offs (omega arith),
    )

-- There are as many values as rows.
pub length-all_values :
    (pages : List Page) (page_offsets : List ℕ)
    → IsOffsets page_offsets
    → length (all_values pages page_offsets) ≡ get_or page_offsets (length page_offsets - 1) 0
unfolding all_values
length-all_values pages page_offsets offs = omega (
  arith,
  offs.begins,
  length-column_values pages page_offsets (length page_offsets - 1) 0 offs
      (omega (arith, offs.some_page)),
)

length-numbered : (row : ℕ) (vs : List ℕ) → length (numbered row vs) ≡ length vs
unfolding numbered
length-numbered row [] = refl
length-numbered row (v ∷ vs) = ap suc (length-numbered (row + 1) vs)

-- If the page offsets begin with 0, do not fall and end with the number of rows, and a vector of
-- entries can reserve as many, building the hash table from the pages leaves exactly the table, in every field, that building from a vector leaves
-- whose entry at each row has the column's 32-bit integer at that row as key and the row number.
pub build_from_zero_copy_int32-numbered :
    (hash : ℕ → ℕ) (column : Column) (page_offsets : List ℕ) (num_rows : ℕ) (t : FlatTable)
    → IsOffsets page_offsets
    → num_rows ≡ get_or page_offsets (length page_offsets - 1) 0
    → num_rows ≤ max_size
    → build_from_zero_copy_int32 hash (some column) page_offsets num_rows t
      ≡ build_from_entries hash (numbered 0 (all_values column.pages page_offsets)) t
build_from_zero_copy_int32-numbered hash column page_offsets num_rows t offs rows fits =
    let vs = all_values column.pages page_offsets in
    let entries = column_entries-numbered column.pages page_offsets offs in
    let many : length vs ≡ num_rows = length-all_values column.pages page_offsets offs ∙ sym rows in
    let counted = sym many ∙ sym (length-numbered 0 vs) ∙ sym (ap length entries) in
    build_from_zero_copy_int32-eq hash column page_offsets num_rows t counted
    ∙ ap (λ es. build_from_entries hash es t) entries
