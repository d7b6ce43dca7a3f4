-- ===== src/Scan/Offsets.antt =====
-- The page offsets of a scanned column count the rows of its pages.
use sigmod_runtime_engine.Base.{
  ℕ, zero, suc, ◌+◌, ◌^◌, ◌≤◌, ◌<◌, ◌≡◌, refl, ap, List, [], ◌∷◌, arith, length, get_or, u64,
}
use sigmod_runtime_engine.Pages.{Page}
use sigmod_runtime_engine.Columnar.Source.{IsOffsets}
use sigmod_runtime_engine.Scan.{num_rows, offsets_from}

-- The rows of all pages.
unfoldable pub total_rows : List Page → ℕ
total_rows [] = 0
total_rows (page ∷ pages) = num_rows page + total_rows pages

pub length-offsets_from :
    (pages : List Page) (cum : ℕ) → length (offsets_from cum pages) ≡ length pages
unfolding offsets_from
length-offsets_from [] cum = refl
length-offsets_from (page ∷ pages) cum = ap suc (length-offsets_from pages _)

offsets_from-cons :
    (page : Page) (pages : List Page) (cum : ℕ)
    → cum + total_rows (page ∷ pages) < 2 ^ 64
    → offsets_from cum (page ∷ pages)
      ≡ (cum + num_rows page) ∷ offsets_from (cum + num_rows page) pages
unfolding offsets_from total_rows
offsets_from-cons page pages cum h =
    let sum : u64 (cum + num_rows page) ≡ cum + num_rows page = omega arith in
    ap (λ k. k ∷ offsets_from k pages) sum

bounded :
    (pages : List Page) (cum i : ℕ)
    → cum + total_rows pages < 2 ^ 64
    → get_or (cum ∷ offsets_from cum pages) i 0 < 2 ^ 64
unfolding total_rows
bounded pages cum zero h = omega arith
bounded [] cum (suc i) h = unfold offsets_from in omega arith
bounded (page ∷ pages) cum (suc i) h =
    rw (offsets_from-cons page pages cum h) (bounded pages (cum + num_rows page) i (omega arith))

rising :
    (pages : List Page) (cum i : ℕ)
    → cum + total_rows pages < 2 ^ 64
    → i < length pages
    → get_or (cum ∷ offsets_from cum pages) i 0 ≤ get_or (offsets_from cum pages) i 0
unfolding total_rows
rising [] cum i h inside = absurd (omega arith)
rising (page ∷ pages) cum zero h inside = rw (offsets_from-cons page pages cum h) (omega arith)
rising (page ∷ pages) cum (suc i) h inside =
    rw (offsets_from-cons page pages cum h)
      (rising pages (cum + num_rows page) i (omega arith) (omega arith))

pub last_offset :
    (pages : List Page) (cum : ℕ)
    → cum + total_rows pages < 2 ^ 64
    → get_or (cum ∷ offsets_from cum pages) (length pages) 0 ≡ cum + total_rows pages
unfolding total_rows
last_offset [] cum h = omega arith
last_offset (page ∷ pages) cum h =
    rw (offsets_from-cons page pages cum h)
      (omega (arith, last_offset pages (cum + num_rows page) (omega arith)))

pub offsets_from-IsOffsets :
    (page : Page) (pages : List Page)
    → total_rows (page ∷ pages) < 2 ^ 64
    → IsOffsets (0 ∷ offsets_from 0 (page ∷ pages))
offsets_from-IsOffsets page pages h =
    let long = length-offsets_from (page ∷ pages) 0 in
    record {
      some_page = omega (arith, long);
      begins = refl;
      rises = λ i inside.
          let e : i + 1 ≡ suc i = omega arith in
          rw e (rising (page ∷ pages) 0 i (omega arith) (omega (arith, long)));
      fits = λ i inside. bounded (page ∷ pages) 0 i (omega arith);
    }
