-- ===== src/Output/Table.antt =====
-- The whole output: allocated, filled, and its rows counted.
use mathlib.Core.Option
use mathlib.Core.List.{flatten, append-nil}
use sigmod_runtime_engine.Base.{
  ℕ, suc, ◌-◌, ◌<◌, ◌≡◌, refl, sym, ap, ◌∙◌, false, none, some, List, [], ◌∷◌, map, arith, ◌==◌,
  ne→==, length, replicate, length-map,
}
use sigmod_runtime_engine.Pages.{DataType}
use sigmod_runtime_engine.Columnar.{ColumnT}
use sigmod_runtime_engine.Columnar
use sigmod_runtime_engine.Columnar.Paged.{IsPaged, new-IsPaged}
use sigmod_runtime_engine.Join.{OutPair}
use sigmod_runtime_engine.Output.{
  ColumnBuffer, new, OutputMap, Inputs, prepared, prepare_all, page_size_of, materialize,
}
use sigmod_runtime_engine.Output.Pages.{zeros, allocate_lem}
use sigmod_runtime_engine.Output.Sides.{SameInputs-refl, cell}
use sigmod_runtime_engine.Output.Filling.{AllCells, Partials, fill_rows_lem}

-- There is an output column for each entry of the map, and it has the words of the pairs, in
-- order, on well-shaped pages.
unfoldable pub Filled : Inputs → List OutPair → List OutputMap → List ColumnT → Type 0
Filled s pairs [] [] = Unit {0}
Filled s pairs [] (dst ∷ dsts) = ⊥
Filled s pairs (m ∷ ms) [] = ⊥
Filled s pairs (m ∷ ms) (dst ∷ dsts) =
    (IsPaged dst × (flatten dst.pages ≡ map (cell s m) pairs)) × Filled s pairs ms dsts

Filled-blank :
    (s : Inputs) (ms : List OutputMap) → Filled s [] ms (replicate (length ms) (Columnar.new 1024))
unfolding Filled flatten
Filled-blank s [] = tt
Filled-blank s (m ∷ ms) =
    ((new-IsPaged 1024 (omega arith), unfold Columnar.new in refl), Filled-blank s ms)

some_size : 0 < 1024
some_size = omega arith

module _ (s : Inputs) (total : ℕ) where
  prepare_all-Partials :
      (ms : List OutputMap)
      → (dsts : List ColumnT) × (prepare_all total (replicate (length ms) (Columnar.new 1024))
          ≡ some dsts)
        × Partials 1024 total s ms [] total dsts
        × (page_size_of dsts ≡ 1024)
  unfolding prepare_all prepared Partials page_size_of Columnar.new Option.bind
  prepare_all-Partials [] = ([], refl, tt, refl)
  prepare_all-Partials (m ∷ ms) =
      let (pages, got, chunked, zeroed) =
        allocate_lem (suc total) 1024 total 0 (omega arith) (omega arith) in
      let (dsts, rest, partials, _) = prepare_all-Partials ms in
      let all : total - 0 ≡ total = omega arith in
      (
        record {
          pages = pages;
          src_column = none;
          page_offsets = [];
          is_zero_copy = false;
          values_per_page = 1024;
          num_values = total;
          cached_page_idx = 0;
        }
            ∷ dsts,
        rw (got, rest),
        (
          record { sized = refl; chunked = chunked; words = zeroed ∙ ap zeros all; counted = refl },
          partials,
        ),
        refl,
      )

  Partials-Filled :
      (pairs : List OutPair) (ms : List OutputMap) (dsts : List ColumnT)
      → length pairs ≡ total
      → Partials 1024 total s ms pairs 0 dsts
      → Filled s pairs ms dsts
  unfolding Partials Filled
  Partials-Filled pairs [] [] many p = tt
  Partials-Filled pairs [] (dst ∷ dsts) many p = p
  Partials-Filled pairs (m ∷ ms) [] many p = p
  Partials-Filled pairs (m ∷ ms) (dst ∷ dsts) many p =
      let q = p.0 in
      let words = rw append-nil at q.words in
      (
        (
          record {
            some_size = rw q.sized some_size;
            chunked = rw q.sized q.chunked;
            counted = ap length words ∙ length-map (cell s m) pairs ∙ many ∙ sym q.counted;
          },
          words,
        ),
        Partials-Filled pairs ms dsts many p.1,
      )

-- For output columns as `ColumnBuffer` makes them, and pairs whose rows the inputs have, filling the
-- output ends. The result has as many rows as there are pairs; each of its columns has, page by
-- page, the words that its input column has in the rows of the pairs, in the order of the pairs,
-- although reading a zero-copy column goes through a page cache that earlier reads have moved.
pub materialize-Filled :
    (s : Inputs) (ms : List OutputMap) (pairs : List OutPair) (types : List DataType)
    → AllCells s ms pairs
    → (results : ColumnBuffer) × (materialize s ms pairs
          (record (new (length ms) 0) { types = types })
        ≡ some results)
      × (results.num_rows ≡ length pairs)
      × Filled s pairs ms results.columns
unfolding materialize new Option.bind
materialize-Filled s ms [] types cells =
    (record (new (length ms) 0) { types = types }, refl, refl, Filled-blank s ms)
materialize-Filled s ms (op ∷ ops) types cells =
    let pairs = op ∷ ops in
    let total = length pairs in
    let (dsts, made, partials, size) = prepare_all-Partials s total ms in
    let (dsts', s', filled, done) =
      fill_rows_lem 1024 total some_size s ms [] pairs dsts s partials (SameInputs-refl s) cells in
    let some_pairs : (total == 0) ≡ false = ne→== _ _ (λ e. omega (arith, e)) in
    (
      record { columns = dsts'; num_rows = total; types = types },
      rw (some_pairs, made, size, filled),
      refl,
      Partials-Filled s total pairs ms dsts' refl done,
    )
