-- ===== src/Columnar/Cells.antt =====
-- The word in a row of a column, whichever way the column is stored.
use sigmod_runtime_engine.Base.{ℕ, ◌-◌, ◌<◌, ◌≡◌, refl, Option, none, some, length, get_or}
use sigmod_runtime_engine.Pages.{Column}
use sigmod_runtime_engine.Values.{make_i32}
use sigmod_runtime_engine.Columnar.{ColumnT, paged_value, source, get, get_from}
use sigmod_runtime_engine.Columnar.Source.{IsOffsets, all_values, get-all_values}

word_from : ColumnT → ℕ → Option Column → ℕ
word_from c row none = paged_value c row
word_from c row (some column) = make_i32 (get_or (all_values column.pages c.page_offsets) row 0)

-- It does not depend on the page cache.
pub word_at : ColumnT → ℕ → ℕ
word_at c row = word_from c row (source c)

unfoldable pub RowInFrom : ColumnT → ℕ → Option Column → Type 0
RowInFrom c row none = Unit {0}
RowInFrom c row (some column) =
    IsOffsets c.page_offsets × (row < get_or c.page_offsets (length c.page_offsets - 1) 0)

-- A row that a zero-copy column has on its pages.
unfoldable pub RowIn : ColumnT → ℕ → Type 0
RowIn c row = RowInFrom c row (source c)

abbrev pub recached : ColumnT → ℕ → ColumnT
recached c p = record c { cached_page_idx = p }

get-word_from :
    (c : ColumnT) (row : ℕ) (o : Option Column)
    → source c ≡ o
    → RowInFrom c row o
    → (p : ℕ) × (get c row ≡ some (word_from c row o, recached c p))
unfolding get get_from word_from RowInFrom
get-word_from c row none from h = (c.cached_page_idx, rw from)
get-word_from c row (some column) from h =
    let (p, q, is, _) = get-all_values c column row 0 h.0 from h.1 in (p, is)

pub get-word_at :
    (c : ColumnT) (row : ℕ)
    → RowIn c row
    → (p : ℕ) × (get c row ≡ some (word_at c row, recached c p))
unfolding word_at RowIn
get-word_at c row h = get-word_from c row (source c) refl h

RowInFrom-recached :
    (c : ColumnT) (p row : ℕ) (o : Option Column)
    → RowInFrom c row o
    → RowInFrom (recached c p) row o
unfolding RowInFrom
RowInFrom-recached c p row none h = h
RowInFrom-recached c p row (some column) h = h

pub RowIn-recached : (c : ColumnT) (p row : ℕ) → RowIn c row → RowIn (recached c p) row
unfolding RowIn source
RowIn-recached c p row h = RowInFrom-recached c p row (source c) h

word_from-recached :
    (c : ColumnT) (p row : ℕ) (o : Option Column)
    → word_from (recached c p) row o ≡ word_from c row o
unfolding word_from paged_value
word_from-recached c p row none = refl
word_from-recached c p row (some column) = refl

pub word_at-recached : (c : ColumnT) (p row : ℕ) → word_at (recached c p) row ≡ word_at c row
unfolding word_at source
word_at-recached c p row = word_from-recached c p row (source c)
