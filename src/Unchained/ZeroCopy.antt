-- ===== src/Unchained/ZeroCopy.antt =====
-- `build_from_zero_copy_int32`: building from the pages of a column makes the same table as
-- building from the vector of its keys.
use sigmod_runtime_engine.Base.{
  ℕ, zero, suc, ◌+◌, ◌-◌, ◌^◌, ◌≤◌, ◌<◌, ◌≡◌, refl, sym, ◌∙◌, ◌||◌, Option, none, some, List, [],
  ◌∷◌, ◌++◌, arith, ltb, ◌==◌, if◌then◌else◌, le→ltb, ne→==, length, get_or, replicate, u32, u64,
}
use sigmod_runtime_engine.Pages.{Page, no_page, Column, int32_at}
use sigmod_runtime_engine.Unchained.{HashEntry, no_entry, FlatTable}
use sigmod_runtime_engine.Unchained.Phases.{
  fill, cleared, end_pointers, write_starts, tally, place, emptied, filled, build_from_entries,
}

-- What the loops over one page read: keys, with the row numbers from `base + slot` on.
unfoldable pub page_entries : Page → ℕ → ℕ → ℕ → List HashEntry
page_entries page base slot zero = []
page_entries page base slot (suc n) =
    record { key = int32_at page slot; row_id = u32 (base + slot) }
    ∷ page_entries page base (slot + 1) n

-- `end - base`, in `size_t`.
unfoldable pub page_rows : List ℕ → ℕ → ℕ
page_rows page_offsets page_idx =
    u64 (get_or page_offsets (page_idx + 1) 0 + 2 ^ 64 - get_or page_offsets page_idx 0)

-- All of them, from page `page_idx` on, with `rounds` pages left.
unfoldable pub column_entries : List Page → List ℕ → ℕ → ℕ → List HashEntry
column_entries pages page_offsets page_idx zero = []
column_entries pages page_offsets page_idx (suc rounds) =
    page_entries (get_or pages page_idx no_page) (get_or page_offsets page_idx 0) 0
      (page_rows page_offsets page_idx)
    ++ column_entries pages page_offsets (page_idx + 1) rounds

module _ (hash : ℕ → ℕ) where
  -- The counting loop and the copying loop, page by page.
  pub tally_pages : FlatTable → List Page → List ℕ → ℕ → ℕ → List ℕ → List ℕ → List ℕ × List ℕ
  tally_pages t pages page_offsets page_idx zero counts blooms = (counts, blooms)
  tally_pages t pages page_offsets page_idx (suc rounds) counts blooms =
      let (counts', blooms') =
        tally hash t
          (page_entries (get_or pages page_idx no_page) (get_or page_offsets page_idx 0) 0
            (page_rows page_offsets page_idx))
          counts blooms in
      tally_pages t pages page_offsets (page_idx + 1) rounds counts' blooms'

  pub place_pages :
      FlatTable → List Page → List ℕ → ℕ → ℕ → List ℕ → List HashEntry → List ℕ × List HashEntry
  place_pages t pages page_offsets page_idx zero ptrs tuples = (ptrs, tuples)
  place_pages t pages page_offsets page_idx (suc rounds) ptrs tuples =
      let (ptrs', tuples') =
        place hash t
          (page_entries (get_or pages page_idx no_page) (get_or page_offsets page_idx 0) 0
            (page_rows page_offsets page_idx))
          ptrs tuples in
      place_pages t pages page_offsets (page_idx + 1) rounds ptrs' tuples'

  -- `build_from_zero_copy_int32`; `none` is a null `src_column`. For `num_rows` up to `max_size`, which
  -- is assumed, the `reserve` of the vector does not throw.
  unfoldable pub build_from_zero_copy_int32 : Option Column → List ℕ → ℕ → FlatTable → FlatTable
  build_from_zero_copy_int32 none page_offsets num_rows t = emptied t
  build_from_zero_copy_int32 (some column) page_offsets num_rows t =
      let npages = length page_offsets - 1 in
      let (counts, blooms) =
        tally_pages t column.pages page_offsets 0 npages (cleared t.dir_size t.counts)
          (fill t.bloom_filters) in
      let (offsets, cumulative) = end_pointers t.dir_size 0 0 counts (fill t.directory_offsets) in
      let (ptrs, tuples) =
        place_pages t column.pages page_offsets 0 npages (write_starts t offsets)
          (replicate cumulative no_entry) in
      if num_rows == 0 || ltb (length page_offsets) 2 then emptied t else record t {
        tuples = tuples;
        directory_offsets = offsets;
        bloom_filters = blooms;
        counts = counts;
        write_ptrs = ptrs;
      }

  tally-append :
      (t : FlatTable) (xs ys : List HashEntry) (counts blooms : List ℕ)
      → tally hash t (xs ++ ys) counts blooms
        ≡ tally hash t ys (tally hash t xs counts blooms).0 (tally hash t xs counts blooms).1
  unfolding tally
  tally-append t [] ys counts blooms = refl
  tally-append t (x ∷ xs) ys counts blooms = tally-append t xs ys _ _

  place-append :
      (t : FlatTable) (xs ys : List HashEntry) (ptrs : List ℕ) (tuples : List HashEntry)
      → place hash t (xs ++ ys) ptrs tuples
        ≡ place hash t ys (place hash t xs ptrs tuples).0 (place hash t xs ptrs tuples).1
  unfolding place
  place-append t [] ys ptrs tuples = refl
  place-append t (x ∷ xs) ys ptrs tuples = place-append t xs ys _ _

  module _ (t : FlatTable) (pages : List Page) (page_offsets : List ℕ) where
    tally_pages_lem :
        (rounds page_idx : ℕ) (counts blooms : List ℕ)
        → tally_pages t pages page_offsets page_idx rounds counts blooms
          ≡ tally hash t (column_entries pages page_offsets page_idx rounds) counts blooms
    unfolding tally_pages column_entries
    tally_pages_lem zero page_idx counts blooms = unfold tally in refl
    tally_pages_lem (suc rounds) page_idx counts blooms =
        tally_pages_lem rounds (page_idx + 1) _ _ ∙ sym (tally-append t _ _ counts blooms)

    place_pages_lem :
        (rounds page_idx : ℕ) (ptrs : List ℕ) (tuples : List HashEntry)
        → place_pages t pages page_offsets page_idx rounds ptrs tuples
          ≡ place hash t (column_entries pages page_offsets page_idx rounds) ptrs tuples
    unfolding place_pages column_entries
    place_pages_lem zero page_idx ptrs tuples = unfold place in refl
    place_pages_lem (suc rounds) page_idx ptrs tuples =
        place_pages_lem rounds (page_idx + 1) _ _ ∙ sym (place-append t _ _ ptrs tuples)

  guarded :
      (t : FlatTable) (es : List HashEntry) (num_rows noffsets : ℕ)
      → num_rows ≡ length es
      → (0 < length es → 2 ≤ noffsets)
      → (if num_rows == 0 || ltb noffsets 2 then emptied t else filled hash es t)
        ≡ build_from_entries hash es t
  unfolding build_from_entries
  guarded t [] num_rows noffsets rows pages = rw rows
  guarded t (e ∷ es) num_rows noffsets rows pages =
      let enough = le→ltb noffsets 2 (pages (omega arith)) in
      let some_rows = ne→== num_rows 0 (omega arith) in rw (some_rows, enough)

  offsets_of_rows :
      (pages : List Page) (page_offsets : List ℕ)
      → 0 < length (column_entries pages page_offsets 0 (length page_offsets - 1))
      → 2 ≤ length page_offsets
  unfolding column_entries
  offsets_of_rows pages [] h = absurd (omega arith)
  offsets_of_rows pages (a ∷ []) h = absurd (omega arith)
  offsets_of_rows pages (a ∷ b ∷ r) h = omega arith

  -- The build page by page is the build from all that the loops read.
  pub build_from_zero_copy_int32-eq :
      (column : Column) (page_offsets : List ℕ) (num_rows : ℕ) (t : FlatTable)
      → num_rows ≡ length (column_entries column.pages page_offsets 0 (length page_offsets - 1))
      → build_from_zero_copy_int32 (some column) page_offsets num_rows t
        ≡ build_from_entries hash
            (column_entries column.pages page_offsets 0 (length page_offsets - 1))
            t
  unfolding build_from_zero_copy_int32
  build_from_zero_copy_int32-eq column page_offsets num_rows t rows =
      let n = length page_offsets - 1 in
      let es = column_entries column.pages page_offsets 0 n in
      rw
        (
          tally_pages_lem t column.pages page_offsets n 0,
          place_pages_lem t column.pages page_offsets n 0,
        )
        (unfold filled in
          guarded t es num_rows (length page_offsets) rows
            (offsets_of_rows column.pages page_offsets))
