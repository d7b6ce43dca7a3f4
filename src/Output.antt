-- ===== src/Output.antt =====
-- src/execute_default.cpp, the end of `JoinAlgorithm::run_int32`: the pairs of rows that the join
-- has found become the columns of the result. include/columnar.h: `ColumnBuffer`.
--
-- `get` moves the page cache of the column that it reads, so the inputs are passed along.
pub mod Pages
pub mod Sides
pub mod Filling
pub mod Table
pub mod Join
use mathlib.Core.Option
use sigmod_runtime_engine.Base.{
  ℕ, zero, suc, ◌+◌, ◌-◌, ◌*◌, ◌/◌, ◌%◌, ◌^◌, ◌≤◌, ◌<◌, min, max, bit_and, bit_or, ◌≡◌, refl, sym,
  ap, ◌∙◌, ◌≢◌, ◌↔◌, ◌⊎◌, inl, inr, Bool, true, false, not, ◌&&◌, ◌||◌, Option, none, some, List,
  [], ◌∷◌, ◌++◌, map, arith, ltb, leb, ◌==◌, if◌then◌else◌, ltb→lt, ltb→le, lt→ltb, le→ltb, ==→eq,
  ==→ne, ==_refl, ne→==, Bool-cases, Option-cases, length, get_or, get_elem?, set, replicate,
  select, length-append, length-set, length-replicate, get_or-replicate, get_or-replicate_self,
  get_or-set_self, get_or-set_ne, get_or-append_left, get_or-append_right, select-append,
  select-select, select_hit, select_miss, u8, u16, u32, u64, shl, shr,
}
use sigmod_runtime_engine.Pages.{DataType}
use sigmod_runtime_engine.Columnar.{ColumnT, get}
use sigmod_runtime_engine.Columnar
use sigmod_runtime_engine.Join.{OutPair, matched_pairs}

pub record ColumnBuffer : Type 0 where
  pub columns : List ColumnT
  pub num_rows : ℕ
  pub types : List DataType

-- `ColumnBuffer(cols, rows)`.
unfoldable pub new : ℕ → ℕ → ColumnBuffer
new cols rows = record { columns = replicate cols (Columnar.new 1024); num_rows = rows; types = [] }

-- Which input an output column comes from, and which column of it.
pub record OutputMap : Type 0 where
  pub from_left : Bool
  pub idx : ℕ

unfoldable pub output_map : ℕ → ℕ → OutputMap
output_map left_cols src =
    if ltb src left_cols
    then record { from_left = true; idx = u32 src }
    else record { from_left = false; idx = u32 (src - left_cols) }

-- `while (written < total_out)`: pages for all rows, each value 0. `none`: out of fuel.
unfoldable pub allocate : ℕ → ℕ → ℕ → ℕ → Option (List (List ℕ))
allocate zero page_sz total_out written = none
allocate (suc fuel) page_sz total_out written =
    let take = min page_sz (total_out - written) in
    let rest = allocate fuel page_sz total_out (written + take) in
    if ltb written total_out then Option.map (λ pages. replicate take 0 ∷ pages) rest else some []

-- An output column before it is filled.
unfoldable pub prepared : ℕ → ColumnT → Option ColumnT
prepared total_out dst =
    Option.map
      (λ pages. record {
        pages = pages;
        src_column = none;
        page_offsets = [];
        is_zero_copy = false;
        values_per_page = dst.values_per_page;
        num_values = total_out;
        cached_page_idx = 0;
      })
      (allocate (suc total_out) dst.values_per_page total_out 0)

unfoldable pub prepare_all : ℕ → List ColumnT → Option (List ColumnT)
prepare_all total_out [] = some []
prepare_all total_out (dst ∷ dsts) =
    Option.bind (prepared total_out dst)
      (λ c. Option.map (λ cs. c ∷ cs) (prepare_all total_out dsts))

-- The columns of the two inputs.
pub record Inputs : Type 0 where
  pub left : List ColumnT
  pub right : List ColumnT

abbrev pub no_column : ColumnT
no_column = record {
  pages = [];
  src_column = none;
  page_offsets = [];
  is_zero_copy = false;
  values_per_page = 1024;
  num_values = 0;
  cached_page_idx = 0;
}

-- `left.columns[m.idx].get(lidx)` or `right.columns[m.idx].get(ridx)`.
unfoldable pub fetch : Inputs → OutputMap → OutPair → Option (ℕ × Inputs)
fetch s m op =
    if m.from_left
    then Option.map (λ r. (r.0, record s { left = set s.left m.idx r.1 }))
        (get (get_or s.left m.idx no_column) op.lidx)
    else Option.map (λ r. (r.0, record s { right = set s.right m.idx r.1 }))
        (get (get_or s.right m.idx no_column) op.ridx)

-- `pages[page_idx][off] = v`.
unfoldable pub write_page : List (List ℕ) → ℕ → ℕ → ℕ → List (List ℕ)
write_page pages page_idx off v = set pages page_idx (set (get_or pages page_idx []) off v)

-- One output row: the loop over the columns.
unfoldable pub fill_row :
    OutPair → ℕ → ℕ → List OutputMap → List ColumnT → Inputs → Option (List ColumnT × Inputs)
fill_row op page_idx off [] dsts s = some (dsts, s)
fill_row op page_idx off (m ∷ ms) [] s = some ([], s)
fill_row op page_idx off (m ∷ ms) (dst ∷ dsts) s = Option.bind (fetch s m op) (λ r.
    Option.map
      (λ rest. (record dst { pages = write_page dst.pages page_idx off r.0 } ∷ rest.0, rest.1))
      (fill_row op page_idx off ms dsts r.1))

-- The loop over the pairs, from row `out_idx` on.
unfoldable pub fill_rows :
    ℕ → List OutputMap → ℕ → List OutPair → List ColumnT → Inputs → Option (List ColumnT × Inputs)
fill_rows out_page_sz ms out_idx [] dsts s = some (dsts, s)
fill_rows out_page_sz ms out_idx (op ∷ ops) dsts s =
    Option.bind (fill_row op (out_idx / out_page_sz) (out_idx % out_page_sz) ms dsts s)
      (λ r. fill_rows out_page_sz ms (out_idx + 1) ops r.0 r.1)

-- `results.columns.empty() ? 1024 : results.columns[0].values_per_page`.
unfoldable pub page_size_of : List ColumnT → ℕ
page_size_of [] = 1024
page_size_of (c ∷ _) = c.values_per_page

-- From `total_out` on, with the pairs of all threads in their order.
unfoldable pub materialize :
    Inputs → List OutputMap → List OutPair → ColumnBuffer → Option ColumnBuffer
materialize s ms pairs results =
    if length pairs == 0
    then some results
    else Option.bind (prepare_all (length pairs) results.columns) (λ dsts.
      Option.map (λ r. record results { columns = r.0; num_rows = length pairs })
        (fill_rows (page_size_of dsts) ms 0 pairs dsts s))

module _ (hash : ℕ → ℕ) where
  -- `run_int32`, with the threads taking turns in the order of a schedule.
  unfoldable pub run_int32 :
      Bool
      → ColumnBuffer
      → ColumnBuffer
      → ℕ
      → ℕ
      → List (ℕ × DataType)
      → ℕ
      → List ℕ
      → ColumnBuffer
      → Option ColumnBuffer
  run_int32 build_left left right left_col right_col output_attrs nthreads schedule results =
      let build_buf = if build_left then left else right in
      let probe_buf = if build_left then right else left in
      let build_key_col = if build_left then left_col else right_col in
      let probe_key_col = if build_left then right_col else left_col in
      Option.bind
        (matched_pairs hash build_left (get_or build_buf.columns build_key_col no_column)
          build_buf.num_rows (get_or probe_buf.columns probe_key_col no_column) probe_buf.num_rows
          nthreads schedule)
        (λ pairs.
          materialize (record { left = left.columns; right = right.columns })
            (map (λ a. output_map (length left.columns) a.0) output_attrs) pairs results)
