-- ===== src/Join.antt =====
-- src/execute_default.cpp, `JoinAlgorithm::run_int32`: the hash table is built from the key column
-- of one input, and the rows of the other are probed, block by block.
--
-- `hash` is the hash of 32-bit keys.
pub mod Keys
pub mod Matches
pub mod Columns
pub mod Build
pub mod Cursor
pub mod Blocks
pub mod Result
use mathlib.Core.Option
use sigmod_runtime_engine.Base.{
  ℕ, zero, suc, ◌+◌, ◌-◌, ◌*◌, ◌/◌, ◌%◌, ◌^◌, ◌≤◌, ◌<◌, min, max, bit_and, bit_or, ◌≡◌, refl, sym,
  ap, ◌∙◌, ◌≢◌, ◌↔◌, ◌⊎◌, inl, inr, Bool, true, false, not, ◌&&◌, ◌||◌, Option, none, some, List,
  [], ◌∷◌, ◌++◌, map, arith, ltb, leb, ◌==◌, if◌then◌else◌, ltb→lt, ltb→le, lt→ltb, le→ltb, ==→eq,
  ==→ne, ==_refl, ne→==, Bool-cases, Option-cases, length, get_or, get_elem?, set, replicate,
  select, length-append, length-set, length-replicate, get_or-replicate, get_or-replicate_self,
  get_or-set_self, get_or-set_ne, get_or-append_left, get_or-append_right, select-append,
  select-select, select_hit, select_miss, u8, u16, u32, u64, shl, shr,
}
use sigmod_runtime_engine.Pages.{no_page, Column, int32_at}
use sigmod_runtime_engine.Values.{is_null, as_i32}
use sigmod_runtime_engine.Columnar.{ColumnT, search_all, paged_value}
use sigmod_runtime_engine.Unchained.{HashEntry, no_entry, FlatTable, new, reserve}
use sigmod_runtime_engine.Unchained.Phases.{Bucket, build_from_entries, probe}
use sigmod_runtime_engine.Unchained.ZeroCopy.{build_from_zero_copy_int32}
use sigmod_runtime_engine.WorkStealing.{WorkStealingConfig, Workers, start, run, joined_output}
use sigmod_runtime_engine.WorkStealing

pub record OutPair : Type 0 where
  pub lidx : ℕ
  pub ridx : ℕ

-- `OutPair{build_row, j}` or `OutPair{j, build_row}`.
unfoldable pub out_pair : Bool → ℕ → ℕ → OutPair
out_pair build_left build_row j =
    if build_left
    then record { lidx = build_row; ridx = u32 j }
    else record { lidx = u32 j; ridx = build_row }

-- `is_zero_copy && src_column != nullptr && page_offsets.size() >= 2`, with the column it is about.
unfoldable pub paged_source : ColumnT → Option Column
paged_source c = if c.is_zero_copy && leb 2 (length c.page_offsets) then c.src_column else none

-- The entries of a materialised key column from row `i` on, without NULLs.
unfoldable pub copied_entries : ColumnT → ℕ → ℕ → List HashEntry
copied_entries c i zero = []
copied_entries c i (suc rounds) =
    let v = paged_value c i in
    let rest = copied_entries c (i + 1) rounds in
    if is_null v then rest else record { key = as_i32 v; row_id = u32 i } ∷ rest

-- The loop over a bucket, from tuple `base` on.
unfoldable pub scan_bucket : Bool → List HashEntry → ℕ → ℕ → ℕ → ℕ → List OutPair
scan_bucket build_left tuples base zero key j = []
scan_bucket build_left tuples base (suc len) key j =
    let e = get_or tuples base no_entry in
    let rest = scan_bucket build_left tuples (base + 1) len key j in
    if e.key == key then out_pair build_left e.row_id j ∷ rest else rest

-- `while (j >= next) ++page_idx`; `none` means that the fuel ran out.
unfoldable pub advance : ℕ → List ℕ → ℕ → ℕ → Option ℕ
advance zero page_offsets j page_idx = none
advance (suc fuel) page_offsets j page_idx =
    let rest = advance fuel page_offsets j (page_idx + 1) in
    if leb (get_or page_offsets (page_idx + 1) 0) j then rest else some page_idx

-- The page on which a block begins.
unfoldable pub first_page : List ℕ → ℕ → Option ℕ
first_page page_offsets begin =
    if leb (get_or page_offsets 1 0) begin then search_all page_offsets begin else some 0

module _ (hash : ℕ → ℕ) where
  -- The build: `none` means that the fuel ran out, and `some none` that there is nothing to build
  -- from, so that the join returns at once.
  build_copied : ColumnT → ℕ → Option (Option FlatTable)
  build_copied c num_rows =
      let entries = copied_entries c 0 num_rows in
      if length entries == 0
      then some none
      else Option.map (λ t. some (build_from_entries hash entries t))
          (reserve (length entries) (new 10))

  build_from : ColumnT → ℕ → Option Column → Option (Option FlatTable)
  build_from c num_rows none = build_copied c num_rows
  build_from c num_rows (some column) =
      Option.map
        (λ t. some (build_from_zero_copy_int32 hash (some column) c.page_offsets num_rows t))
        (reserve num_rows (new 10))

  pub build : ColumnT → ℕ → Option (Option FlatTable)
  build c num_rows = build_from c num_rows (paged_source c)

  module _ (t : FlatTable) (build_left : Bool) where
    bucket_pairs : ℕ → ℕ → Option Bucket → List OutPair
    bucket_pairs key j none = []
    bucket_pairs key j (some b) = scan_bucket build_left t.tuples b.base b.len key j

    -- One probe, with the loop over what it finds.
    pub probe_key : ℕ → ℕ → List OutPair
    probe_key key j = bucket_pairs key j (probe hash t key)

    -- A row of a materialised probe column.
    pub probe_copied : ColumnT → ℕ → List OutPair
    probe_copied c j = let v = paged_value c j in if is_null v then [] else probe_key (as_i32 v) j

    pub copied_block : ColumnT → ℕ → ℕ → List OutPair
    copied_block c j zero = []
    copied_block c j (suc rounds) = probe_copied c j ++ copied_block c (j + 1) rounds

    -- Rows of a zero-copy probe column: the page moves on with the rows.
    pub paged_block : Column → List ℕ → ℕ → ℕ → ℕ → Option (List OutPair)
    paged_block column page_offsets page_idx j zero = some []
    paged_block column page_offsets page_idx j (suc rounds) =
        Option.bind (advance (length page_offsets) page_offsets j page_idx) (λ p.
          let page = get_or column.pages p no_page in
          let key = int32_at page (j - get_or page_offsets p 0) in
          Option.map (λ rest. probe_key key j ++ rest)
            (paged_block column page_offsets p (j + 1) rounds))

    block_from : ColumnT → Option Column → ℕ → ℕ → Option (List OutPair)
    block_from c none begin end = some (copied_block c begin (end - begin))
    block_from c (some column) begin end =
        Option.bind (first_page c.page_offsets begin)
          (λ p. paged_block column c.page_offsets p begin (end - begin))

    -- What a thread appends for the block `[begin, end)`.
    pub probe_block : ColumnT → ℕ → ℕ → Option (List OutPair)
    probe_block c begin end = block_from c (paged_source c) begin end

    -- The probe phase: the threads take turns in the order of a schedule.
    pub probe_phase : ColumnT → ℕ → ℕ → List ℕ → Option (Workers OutPair)
    probe_phase c probe_n nthreads schedule =
        Option.map
          (λ coordinator.
            run (λ begin end. Option.get_or (probe_block c begin end) []) schedule
              (start nthreads coordinator))
          (WorkStealing.new (record {
            total_work = probe_n;
            num_threads = nthreads;
            min_block_size = 256;
            blocks_per_thread = 16;
          }))

  joined_pairs : Bool → ColumnT → ℕ → ℕ → List ℕ → Option FlatTable → Option (List OutPair)
  joined_pairs build_left probe_col probe_n nthreads schedule none = some []
  joined_pairs build_left probe_col probe_n nthreads schedule (some t) =
      Option.bind (probe_phase t build_left probe_col probe_n nthreads schedule) joined_output

  -- The pairs of rows that the join finds, in the order in which the results are filled with them:
  -- build, and then probe, unless there is nothing to build from.
  pub matched_pairs : Bool → ColumnT → ℕ → ColumnT → ℕ → ℕ → List ℕ → Option (List OutPair)
  matched_pairs build_left build_col build_n probe_col probe_n nthreads schedule =
      Option.bind (build build_col build_n)
        (joined_pairs build_left probe_col probe_n nthreads schedule)
