-- ===== src/Join/Blocks.antt =====
-- What a thread puts out for a block is the join of the rows of the block.
use mathlib.Core.Option
use sigmod_runtime_engine.Base.{
  ℕ, zero, suc, ◌+◌, ◌-◌, ◌^◌, ◌≤◌, ◌<◌, ◌≡◌, refl, sym, ap, ◌∙◌, inl, inr, Bool, Option, none,
  some, List, [], arith, ◌==◌, ==→eq, ==→ne, Bool-cases, length, get_or,
}
use sigmod_runtime_engine.Pages.{no_page, Column, int32_at}
use sigmod_runtime_engine.Values.{is_null, as_i32}
use sigmod_runtime_engine.Unchained.{FlatTable}
use sigmod_runtime_engine.WorkStealing.Rows.{for_rows}
use sigmod_runtime_engine.Columnar.{ColumnT, paged_value}
use sigmod_runtime_engine.Columnar.Source.{IsOffsets, all_values, all_values-Finds}
use sigmod_runtime_engine.Columnar.Search.{IsPageOf}
use sigmod_runtime_engine.Join.{
  OutPair, paged_source, first_page, probe_key, probe_copied, copied_block, paged_block, block_from,
  probe_block,
}
use sigmod_runtime_engine.Join.Keys.{Keys, key_of, row_join}
use sigmod_runtime_engine.Join.Columns.{
  copied_keys, present, keys_from, keys_of, ReadableFrom, Readable, get_or-copied_keys,
  get_or-present, length-all_values,
}
use sigmod_runtime_engine.Join.Build.{Serves}
use sigmod_runtime_engine.Join.Cursor.{advance-Finds, first_page-Finds}

-- The pairs of probe row `j`.
unfoldable pub row_pairs : Bool → Keys → Keys → ℕ → List OutPair
row_pairs build_left build_keys probe_keys j =
    row_join build_left build_keys j (get_or probe_keys j none)

module _ (hash : ℕ → ℕ) (build_left : Bool) (ks : Keys) (t : FlatTable)
    (serves : Serves hash build_left ks t) (c : ColumnT) (n : ℕ) (few : n < 2 ^ 32) where
  copied_row :
      (j : ℕ)
      → j < n
      → probe_copied hash t build_left c j ≡ row_pairs build_left ks (copied_keys c 0 n) j
  unfolding probe_copied row_pairs
  copied_row j h =
      let v = paged_value c j in
      let key : get_or (copied_keys c 0 n) j none ≡ key_of v =
        get_or-copied_keys c 0 n j h ∙ ap (λ r. key_of (paged_value c r)) (omega arith) in
      rw key (
        unfold key_of in
        elim (Bool-cases (is_null v)) [
          | inl nothing ↦ rw nothing (unfold row_join in refl)
          | inr there ↦ rw there (serves (as_i32 v) j (omega arith))
        ])

  copied_block_lem :
      (r j : ℕ)
      → j + r ≤ n
      → copied_block hash t build_left c j r
        ≡ for_rows (row_pairs build_left ks (copied_keys c 0 n)) j r
  unfolding copied_block for_rows
  copied_block_lem zero j h = refl
  copied_block_lem (suc r) j h =
      rw (copied_row j (omega arith), copied_block_lem r (j + 1) (omega arith))

  module _ (column : Column) (offs : IsOffsets c.page_offsets)
      (rows : n ≡ get_or c.page_offsets (length c.page_offsets - 1) 0) where
    paged_row :
        (j p : ℕ)
        → j < n
        → IsPageOf c.page_offsets j p
        → probe_key hash t build_left
            (int32_at (get_or column.pages p no_page) (j - get_or c.page_offsets p 0))
            j
          ≡ row_pairs build_left ks (present (all_values column.pages c.page_offsets)) j
    unfolding row_pairs
    paged_row j p h is =
        let vs = all_values column.pages c.page_offsets in
        let many = length-all_values column.pages c.page_offsets offs in
        rw
          (
            get_or-present vs j (omega (arith, many, rows)),
            sym (all_values-Finds column.pages c.page_offsets offs j p is),
          )
          (serves (get_or vs j 0) j (omega arith))

    paged_block_lem :
        (r j p : ℕ)
        → j + r ≤ n
        → p + 1 < length c.page_offsets
        → get_or c.page_offsets p 0 ≤ j
        → paged_block hash t build_left column c.page_offsets p j r
          ≡ some (
              for_rows
                (row_pairs build_left ks (present (all_values column.pages c.page_offsets)))
                j
                r)
    unfolding paged_block for_rows Option.bind
    paged_block_lem zero j p h real from = refl
    paged_block_lem (suc r) j p h real from =
        let (q, found, is) =
          advance-Finds c.page_offsets offs (length c.page_offsets) j p (omega arith) real from
            (omega (arith, rows)) in
        rw (
          found,
          paged_row j q (omega arith) is,
          paged_block_lem r (j + 1) q (omega arith) is.real (omega (arith, is.from)),
        )

  block_from_lem :
      (o : Option Column) (begin end : ℕ)
      → ReadableFrom c n o
      → begin < end
      → end ≤ n
      → block_from hash t build_left c o begin end
        ≡ some (for_rows (row_pairs build_left ks (keys_from c n o)) begin (end - begin))
  unfolding block_from ReadableFrom keys_from Option.bind
  block_from_lem none begin end ok some_row inside =
      ap some (copied_block_lem (end - begin) begin (omega arith))
  block_from_lem (some column) begin end ok some_row inside =
      let (p, found, is) = first_page-Finds c.page_offsets ok.0 begin (omega (arith, ok.1)) in
      rw found
        (paged_block_lem column ok.0 ok.1 (end - begin) begin p (omega arith) is.real is.from)

  -- For a table that serves the keys of the build side and a readable key column of `n` rows, the
  -- probe of a block inside the column ends, whichever way the column is stored, and puts out the
  -- pairs of the rows of the block, in order.
  pub probe_block_lem :
      (begin end : ℕ)
      → Readable c n
      → begin < end
      → end ≤ n
      → probe_block hash t build_left c begin end
        ≡ some (for_rows (row_pairs build_left ks (keys_of c n)) begin (end - begin))
  unfolding probe_block keys_of Readable
  probe_block_lem begin end ok some_row inside =
      block_from_lem (paged_source c) begin end ok some_row inside

  abbrev no_pairs : Option (List OutPair)
  no_pairs = some []

  nothing_bound : (o : Option ℕ) → Option.get_or (Option.bind o (λ _. no_pairs)) [] ≡ []
  unfolding Option.bind
  nothing_bound none = refl
  nothing_bound (some p) = refl

  empty_block_from :
      (o : Option Column) (begin : ℕ)
      → Option.get_or (block_from hash t build_left c o begin begin) [] ≡ []
  unfolding block_from
  empty_block_from none begin =
      let e : begin - begin ≡ 0 = omega arith in rw e (unfold copied_block in refl)
  empty_block_from (some column) begin =
      let e : begin - begin ≡ 0 = omega arith in
      rw e (unfold paged_block in nothing_bound (first_page c.page_offsets begin))

  empty_block : (begin : ℕ) → Option.get_or (probe_block hash t build_left c begin begin) [] ≡ []
  unfolding probe_block
  empty_block begin = empty_block_from (paged_source c) begin

  no_rows :
      (begin : ℕ) → [] ≡ for_rows (row_pairs build_left ks (keys_of c n)) begin (begin - begin)
  unfolding for_rows
  no_rows begin = let e : begin - begin ≡ 0 = omega arith in rw e

  pub works :
      (begin end : ℕ)
      → Readable c n
      → begin ≤ end
      → end ≤ n
      → Option.get_or (probe_block hash t build_left c begin end) []
        ≡ for_rows (row_pairs build_left ks (keys_of c n)) begin (end - begin)
  works begin end ok order inside = elim (Bool-cases (begin == end)) [
    | inl same ↦
        let e : end ≡ begin = sym (==→eq _ _ same) in rw e (empty_block begin ∙ no_rows begin)
    | inr other ↦
        let less : begin < end = omega (arith, ==→ne _ _ other) in
        rw (probe_block_lem begin end ok less inside)
  ]
