-- ===== src/Columnar/Source.antt =====
-- A zero-copy column is a list of 32-bit integers: those on the pages of its source, in order.
-- `get`, `get_cached` and the build of the hash table all read this list.
use mathlib.Core.Path.{ap₂}
use sigmod_runtime_engine.Base.{
  ℕ, zero, suc, ◌+◌, ◌-◌, ◌^◌, ◌≤◌, ◌<◌, ◌≡◌, refl, sym, ap, ◌∙◌, inl, inr, some, List, [], ◌∷◌,
  ◌++◌, arith, ◌==◌, ==→eq, ==→ne, Bool-cases, length, get_or, get_or-append_left,
  get_or-append_right, u32,
}
use sigmod_runtime_engine.Pages.{Page, no_page, Column, int32_at, int32s}
use sigmod_runtime_engine.Values.{make_i32}
use sigmod_runtime_engine.Unchained.{HashEntry}
use sigmod_runtime_engine.Unchained.ZeroCopy.{page_rows, page_entries, column_entries}
use sigmod_runtime_engine.Columnar.{
  ColumnT, source, source_value, get, get_from, get_cached, get_cached_from,
}
use sigmod_runtime_engine.Columnar.Search.{Holds, IsPageOf, page_of-Finds, page_of_cached-Finds}

-- `page_offsets` counts the rows before each page: it begins with 0 and does not fall.
pub record IsOffsets (page_offsets : List ℕ) : Type 0 where
  pub some_page : 2 ≤ length page_offsets
  pub begins : get_or page_offsets 0 0 ≡ 0
  pub rises :
      (i : ℕ)
      → i + 1 < length page_offsets
      → get_or page_offsets i 0 ≤ get_or page_offsets (i + 1) 0
  pub fits : (i : ℕ) → i < length page_offsets → get_or page_offsets i 0 < 2 ^ 64

-- The values from page `page_idx` on, with `rounds` pages left.
unfoldable pub column_values : List Page → List ℕ → ℕ → ℕ → List ℕ
column_values pages page_offsets page_idx zero = []
column_values pages page_offsets page_idx (suc rounds) =
    int32s (get_or pages page_idx no_page) 0 (page_rows page_offsets page_idx)
    ++ column_values pages page_offsets (page_idx + 1) rounds

-- All values of a column.
unfoldable pub all_values : List Page → List ℕ → List ℕ
all_values pages page_offsets = column_values pages page_offsets 0 (length page_offsets - 1)

pub length-int32s : (page : Page) (slot n : ℕ) → length (int32s page slot n) ≡ n
unfolding int32s
length-int32s page slot zero = refl
length-int32s page slot (suc n) = ap suc (length-int32s page (slot + 1) n)

get_or-int32s :
    (page : Page) (slot n k : ℕ)
    → k < n
    → get_or (int32s page slot n) k 0 ≡ int32_at page (slot + k)
unfolding int32s
get_or-int32s page slot zero k h = absurd (omega arith)
get_or-int32s page slot (suc n) zero h =
    let e : slot ≡ slot + 0 = omega arith in ap (int32_at page) e
get_or-int32s page slot (suc n) (suc k) h =
    let e : slot + 1 + k ≡ slot + suc k = omega arith in
    get_or-int32s page (slot + 1) n k (omega arith) ∙ ap (int32_at page) e

-- Entries for the values of a column, numbered from `row` on.
unfoldable pub numbered : ℕ → List ℕ → List HashEntry
numbered row [] = []
numbered row (v ∷ vs) = record { key = v; row_id = u32 row } ∷ numbered (row + 1) vs

numbered-append :
    (row : ℕ) (xs ys : List ℕ)
    → numbered row (xs ++ ys) ≡ numbered row xs ++ numbered (row + length xs) ys
unfolding numbered
numbered-append row [] ys = let e : row ≡ row + 0 = omega arith in ap (λ r. numbered r ys) e
numbered-append row (x ∷ xs) ys =
    let e : row + 1 + length xs ≡ row + suc (length xs) = omega arith in
    ap (λ r. record { key = x; row_id = u32 row } ∷ r)
      (numbered-append (row + 1) xs ys ∙ ap (λ r. numbered (row + 1) xs ++ numbered r ys) e)

page_entries-numbered :
    (page : Page) (base slot n : ℕ)
    → page_entries page base slot n ≡ numbered (base + slot) (int32s page slot n)
unfolding page_entries numbered int32s
page_entries-numbered page base slot zero = refl
page_entries-numbered page base slot (suc n) =
    let e : base + (slot + 1) ≡ base + slot + 1 = omega arith in
    ap (λ r. record { key = int32_at page slot; row_id = u32 (base + slot) } ∷ r)
      (page_entries-numbered page base (slot + 1) n
        ∙ ap (λ r. numbered r (int32s page (slot + 1) n)) e)

module _ (pages : List Page) (page_offsets : List ℕ) (offs : IsOffsets page_offsets) where
  pub page_rows_lem :
      (i : ℕ)
      → i + 1 < length page_offsets
      → page_rows page_offsets i + get_or page_offsets i 0 ≡ get_or page_offsets (i + 1) 0
  unfolding page_rows
  page_rows_lem i h = omega (arith, offs.rises i h, offs.fits (i + 1) h)

  -- Offsets do not fall over any distance.
  rises_far :
      (i k : ℕ)
      → i + k < length page_offsets
      → get_or page_offsets i 0 ≤ get_or page_offsets (i + k) 0
  rises_far i zero h = let e : i + zero ≡ i = omega arith in rw e (omega arith)
  rises_far i (suc k) h =
      let e : i + suc k ≡ i + k + 1 = omega arith in
      rw e (omega (arith, rises_far i k (omega arith), offs.rises (i + k) (omega arith)))

  -- The row of a page is found among the values of the pages from `i` on.
  value_from :
      (rounds i p row : ℕ)
      → i + rounds + 1 ≡ length page_offsets
      → i ≤ p
      → IsPageOf page_offsets row p
      → get_or (column_values pages page_offsets i rounds) (row - get_or page_offsets i 0) 0
        ≡ int32_at (get_or pages p no_page) (row - get_or page_offsets p 0)
  unfolding column_values
  value_from zero i p row all ip is = absurd (omega (arith, is.real))
  value_from (suc rounds) i p row all ip is =
      let page = get_or pages i no_page in
      let rows = page_rows page_offsets i in
      let rest = column_values pages page_offsets (i + 1) rounds in
      let width = page_rows_lem i (omega arith) in
      let long = length-int32s page 0 rows in
      elim (Bool-cases (i == p)) [
        | inl same ↦
            let e : i ≡ p = ==→eq i p same in
            let here : IsPageOf page_offsets row i = rw e is in
            let k : ℕ = row - get_or page_offsets i 0 in
            let inside : k < rows = omega (arith, width, here.from, here.until) in
            let start : 0 + k ≡ k = omega arith in
            rw (sym e) (
              get_or-append_left (int32s page 0 rows) rest k 0 (omega (arith, long))
              ∙ get_or-int32s page 0 rows k inside
              ∙ ap (int32_at page) start)
        | inr other ↦
            let gap : i + 1 + (p - (i + 1)) ≡ p = omega (arith, ==→ne _ _ other) in
            let next : i + 1 ≤ p = omega (arith, ==→ne _ _ other) in
            let before =
              rw gap at (rises_far (i + 1) (p - (i + 1)) (omega (arith, gap, is.real))) in
            let k : ℕ = row - get_or page_offsets (i + 1) 0 in
            let there : row - get_or page_offsets i 0 ≡ length (int32s page 0 rows) + k =
              omega (arith, width, long, before, is.from) in
            ap (λ r. get_or (int32s page 0 rows ++ rest) r 0) there
            ∙ get_or-append_right (int32s page 0 rows) rest k 0
            ∙ value_from rounds (i + 1) p row (omega arith) next is
      ]

  pub all_values-Finds :
      (row p : ℕ)
      → IsPageOf page_offsets row p
      → get_or (all_values pages page_offsets) row 0
        ≡ int32_at (get_or pages p no_page) (row - get_or page_offsets p 0)
  unfolding all_values
  all_values-Finds row p is =
      let e : row ≡ row - get_or page_offsets 0 0 = omega (arith, offs.begins) in
      ap (λ r. get_or (column_values pages page_offsets 0 (length page_offsets - 1)) r 0) e
      ∙ value_from (length page_offsets - 1) 0 p row (omega (arith, offs.some_page)) (omega arith)
          is

  entries_from_page :
      (rounds i : ℕ)
      → i + rounds + 1 ≡ length page_offsets
      → column_entries pages page_offsets i rounds
        ≡ numbered (get_or page_offsets i 0) (column_values pages page_offsets i rounds)
  unfolding column_entries column_values
  entries_from_page zero i all = unfold numbered in refl
  entries_from_page (suc rounds) i all =
      let page = get_or pages i no_page in
      let base = get_or page_offsets i 0 in
      let rows = page_rows page_offsets i in
      let rest = column_values pages page_offsets (i + 1) rounds in
      let start : base + 0 ≡ base = omega arith in
      let next : get_or page_offsets (i + 1) 0 ≡ base + length (int32s page 0 rows) =
        omega (arith, page_rows_lem i (omega arith), length-int32s page 0 rows) in
      ap₂ ◌++◌
        (page_entries-numbered page base 0 rows ∙ ap (λ r. numbered r (int32s page 0 rows)) start)
        (entries_from_page rounds (i + 1) (omega arith) ∙ ap (λ r. numbered r rest) next)
      ∙ sym (numbered-append base (int32s page 0 rows) rest)

  -- The entries that the build of the hash table reads from the pages are the values of the column,
  -- each with its row number.
  pub column_entries-numbered :
      column_entries pages page_offsets 0 (length page_offsets - 1)
      ≡ numbered 0 (all_values pages page_offsets)
  unfolding all_values
  column_entries-numbered =
      entries_from_page (length page_offsets - 1) 0 (omega (arith, offs.some_page))
      ∙ ap (λ r. numbered r (column_values pages page_offsets 0 (length page_offsets - 1)))
          offs.begins

-- With any page cache, `get` on a zero-copy column returns the word of the value that the list of
-- all values has at this row; `get_cached` returns the same, whatever its caller's cache holds.
pub get-all_values :
    (c : ColumnT) (column : Column) (row page_cache : ℕ)
    → IsOffsets c.page_offsets
    → source c ≡ some column
    → row < get_or c.page_offsets (length c.page_offsets - 1) 0
    → (p : ℕ) × (q : ℕ) × (get c row
        ≡ some (
          make_i32 (get_or (all_values column.pages c.page_offsets) row 0),
          record c { cached_page_idx = p },
        ))
      × (get_cached c row page_cache
          ≡ some (make_i32 (get_or (all_values column.pages c.page_offsets) row 0), q))
unfolding get get_from get_cached get_cached_from source_value
get-all_values c column row page_cache offs from inside =
    let holds : Holds c.page_offsets row = record {
      some_page = offs.some_page;
      begin = omega (arith, offs.begins);
      end = inside;
    } in
    let (p, found, is) = page_of-Finds c.page_offsets row c.cached_page_idx holds in
    let (q, found', is') = page_of_cached-Finds c.page_offsets row page_cache holds in
    (
      p,
      q,
      rw (from, found, all_values-Finds column.pages c.page_offsets offs row p is),
      rw (from, found', all_values-Finds column.pages c.page_offsets offs row q is'),
    )
