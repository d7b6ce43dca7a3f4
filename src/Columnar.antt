-- ===== src/Columnar.antt =====
-- include/columnar.h, `column_t`: a column of an intermediate result. Its values are words on pages
-- of its own, or, without a copy, the 32-bit integers on the pages of an input column.
pub mod Paged
pub mod Search
pub mod Source
pub mod Cells
use mathlib.Core.Option
use sigmod_runtime_engine.Base.{
  ℕ, zero, suc, ◌+◌, ◌-◌, ◌*◌, ◌/◌, ◌%◌, ◌^◌, ◌≤◌, ◌<◌, min, max, bit_and, bit_or, ◌≡◌, refl, sym,
  ap, ◌∙◌, ◌≢◌, ◌↔◌, ◌⊎◌, inl, inr, Bool, true, false, not, ◌&&◌, ◌||◌, Option, none, some, List,
  [], ◌∷◌, ◌++◌, map, arith, ltb, leb, ◌==◌, if◌then◌else◌, ltb→lt, ltb→le, lt→ltb, le→ltb, ==→eq,
  ==→ne, ==_refl, ne→==, Bool-cases, Option-cases, length, get_or, get_elem?, set, replicate,
  select, length-append, length-set, length-replicate, get_or-replicate, get_or-replicate_self,
  get_or-set_self, get_or-set_ne, get_or-append_left, get_or-append_right, select-append,
  select-select, select_hit, select_miss, u8, u16, u32, u64, shl, shr,
}
use sigmod_runtime_engine.Pages.{Page, no_page, Column, int32_at}
use sigmod_runtime_engine.Values.{make_i32}

-- `src_column` is null where it is `none`.
pub record ColumnT : Type 0 where
  pub pages : List (List ℕ)
  pub src_column : Option Column
  pub page_offsets : List ℕ
  pub is_zero_copy : Bool
  pub values_per_page : ℕ
  pub num_values : ℕ
  pub cached_page_idx : ℕ

-- `column_t(page_size)`.
unfoldable pub new : ℕ → ColumnT
new page_size = record {
  pages = [];
  src_column = none;
  page_offsets = [];
  is_zero_copy = false;
  values_per_page = page_size;
  num_values = 0;
  cached_page_idx = 0;
}

-- `if (pages.empty() || pages.back().size() >= values_per_page) pages.emplace_back();` and then
-- `pages.back().push_back(v)`.
unfoldable pub push_back : ℕ → List (List ℕ) → ℕ → List (List ℕ)
push_back values_per_page [] v = (v ∷ []) ∷ []
push_back values_per_page (page ∷ []) v =
    if leb values_per_page (length page) then page ∷ (v ∷ []) ∷ [] else (page ++ v ∷ []) ∷ []
push_back values_per_page (page ∷ next ∷ pages) v =
    page ∷ push_back values_per_page (next ∷ pages) v

-- `append`.
unfoldable pub append : ColumnT → ℕ → ColumnT
append c v = record c {
  pages = push_back c.values_per_page c.pages v;
  num_values = c.num_values + 1;
}

-- Whether row `row` is on page `page_idx`.
unfoldable pub on_page : List ℕ → ℕ → ℕ → Bool
on_page page_offsets row page_idx =
    leb (get_or page_offsets page_idx 0) row && ltb row (get_or page_offsets (page_idx + 1) 0)

-- `while (left < right - 1) { mid = (left + right) / 2; … }`, with `right` above 0. The result is
-- `left`; `none` means that the fuel ran out.
unfoldable pub search_page : ℕ → List ℕ → ℕ → ℕ → ℕ → Option ℕ
search_page zero page_offsets row left right = none
search_page (suc fuel) page_offsets row left right =
    let mid = (left + right) / 2 in
    let lower = search_page fuel page_offsets row left mid in
    let upper = search_page fuel page_offsets row mid right in
    if ltb left (right - 1)
    then (if ltb row (get_or page_offsets mid 0) then lower else upper)
    else some left

-- The search over all pages; `page_offsets` has at least one element.
unfoldable pub search_all : List ℕ → ℕ → Option ℕ
search_all page_offsets row =
    search_page (length page_offsets) page_offsets row 0 (length page_offsets - 1)

-- The page that `get` reads, given `cached_page_idx`: the cached page, the next one, or a search.
unfoldable pub page_of : List ℕ → ℕ → ℕ → Option ℕ
page_of page_offsets row cached =
    if ltb cached (length page_offsets - 1) && on_page page_offsets row cached
    then some cached
    else if ltb (cached + 1) (length page_offsets - 1) && on_page page_offsets row (cached + 1)
    then some (cached + 1)
    else search_all page_offsets row

-- The page that `get_cached` reads, given `page_cache`.
unfoldable pub page_of_cached : List ℕ → ℕ → ℕ → Option ℕ
page_of_cached page_offsets row page_cache =
    let page_idx = if leb (length page_offsets - 1) page_cache then 0 else page_cache in
    if on_page page_offsets row page_idx
    then some page_idx
    else if ltb (page_idx + 1) (length page_offsets - 1) && on_page page_offsets row (page_idx + 1)
    then some (page_idx + 1)
    else search_all page_offsets row

-- `make_i32(data[row_idx - page_offsets[page_idx]])`.
unfoldable pub source_value : Column → List ℕ → ℕ → ℕ → ℕ
source_value column page_offsets row page_idx =
    make_i32
      (int32_at (get_or column.pages page_idx no_page) (row - get_or page_offsets page_idx 0))

-- `pages[row_idx / values_per_page][row_idx % values_per_page]`.
unfoldable pub paged_value : ColumnT → ℕ → ℕ
paged_value c row = get_or (get_or c.pages (row / c.values_per_page) []) (row % c.values_per_page) 0

-- The column that a zero-copy read goes to: `is_zero_copy && src_column != nullptr`.
unfoldable pub source : ColumnT → Option Column
source c = if c.is_zero_copy then c.src_column else none

get_from : ColumnT → ℕ → Option Column → Option (ℕ × ColumnT)
get_from c row none = some (paged_value c row, c)
get_from c row (some column) =
    Option.map
      (λ page_idx.
        (source_value column c.page_offsets row page_idx, record c { cached_page_idx = page_idx }))
      (page_of c.page_offsets row c.cached_page_idx)

-- `get`: the value, and the column with its page cache moved.
pub get : ColumnT → ℕ → Option (ℕ × ColumnT)
get c row = get_from c row (source c)

get_cached_from : ColumnT → ℕ → ℕ → Option Column → Option (ℕ × ℕ)
get_cached_from c row page_cache none = some (paged_value c row, page_cache)
get_cached_from c row page_cache (some column) =
    Option.map (λ page_idx. (source_value column c.page_offsets row page_idx, page_idx))
      (page_of_cached c.page_offsets row page_cache)

-- `get_cached`: the value, and the caller's page cache.
pub get_cached : ColumnT → ℕ → ℕ → Option (ℕ × ℕ)
get_cached c row page_cache = get_cached_from c row page_cache (source c)

-- `size`.
pub size : ColumnT → ℕ
size c = c.num_values
