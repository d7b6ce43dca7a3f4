-- ===== src/Columnar/Search.antt =====
-- The page of a row in a zero-copy column: whatever the page cache holds, the page that is found is
-- one that has the row.
use sigmod_runtime_engine.Base.{
  ℕ, zero, suc, ◌+◌, ◌-◌, ◌/◌, ◌≤◌, ◌<◌, ◌≡◌, inl, inr, true, ◌&&◌, Option, some, List, arith, ltb,
  leb, if◌then◌else◌, ltb→lt, ltb→le, Bool-cases, length, get_or,
}
use sigmod_runtime_engine.Columnar.{on_page, search_page, search_all, page_of, page_of_cached}

-- Page `page_idx` has row `row`.
pub record IsPageOf (page_offsets : List ℕ) (row page_idx : ℕ) : Type 0 where
  pub real : page_idx + 1 < length page_offsets
  pub from : get_or page_offsets page_idx 0 ≤ row
  pub until : row < get_or page_offsets (page_idx + 1) 0

-- The offsets hold the row: it is not before the first page and not behind the last.
pub record Holds (page_offsets : List ℕ) (row : ℕ) : Type 0 where
  pub some_page : 2 ≤ length page_offsets
  pub begin : get_or page_offsets 0 0 ≤ row
  pub end : row < get_or page_offsets (length page_offsets - 1) 0

abbrev pub Finds : List ℕ → ℕ → Option ℕ → Type 0
Finds page_offsets row result = (p : ℕ) × (result ≡ some p) × IsPageOf page_offsets row p

on_page_lem :
    (page_offsets : List ℕ) (row page_idx : ℕ)
    → on_page page_offsets row page_idx ≡ true
    → (get_or page_offsets page_idx 0 ≤ row) × (row < get_or page_offsets (page_idx + 1) 0)
unfolding on_page
on_page_lem page_offsets row page_idx h = (ground arith, ground arith)

search_page-Finds :
    (fuel : ℕ) (page_offsets : List ℕ) (row left right : ℕ)
    → right - left < fuel
    → left < right
    → right < length page_offsets
    → get_or page_offsets left 0 ≤ row
    → row < get_or page_offsets right 0
    → Finds page_offsets row (search_page fuel page_offsets row left right)
unfolding search_page
search_page-Finds zero page_offsets row left right f lr inside lo hi = absurd (omega arith)
search_page-Finds (suc fuel) page_offsets row left right f lr inside lo hi =
    let mid : ℕ = (left + right) / 2 in
    elim (Bool-cases (ltb left (right - 1))) [
      | inr done ↦
          let next : right ≡ left + 1 = omega (arith, ltb→le _ _ done) in
          (left, rw done, record { real = omega arith; from = lo; until = rw next at hi })
      | inl more ↦
          let gap = ltb→lt _ _ more in
          elim (Bool-cases (ltb row (get_or page_offsets mid 0))) [
            | inl below ↦
                let (p, found, is) =
                  search_page-Finds fuel page_offsets row left mid (omega arith) (omega arith)
                    (omega arith) lo (ltb→lt _ _ below) in
                (p, rw (more, below) found, is)
            | inr above ↦
                let (p, found, is) =
                  search_page-Finds fuel page_offsets row mid right (omega arith) (omega arith)
                    inside (ltb→le _ _ above) hi in
                (p, rw (more, above) found, is)
          ]
    ]

pub search_all-Finds :
    (page_offsets : List ℕ) (row : ℕ)
    → Holds page_offsets row
    → Finds page_offsets row (search_all page_offsets row)
unfolding search_all
search_all-Finds page_offsets row h =
    search_page-Finds (length page_offsets) page_offsets row 0 (length page_offsets - 1)
      (omega (arith, h.some_page)) (omega (arith, h.some_page)) (omega (arith, h.some_page)) h.begin
      h.end

-- With any value in the cache, `get` reads from a page that has the row.
pub page_of-Finds :
    (page_offsets : List ℕ) (row cached : ℕ)
    → Holds page_offsets row
    → Finds page_offsets row (page_of page_offsets row cached)
unfolding page_of
page_of-Finds page_offsets row cached h =
    elim (Bool-cases (ltb cached (length page_offsets - 1) && on_page page_offsets row cached)) [
      | inl hit ↦
          let (lo, hi) = on_page_lem page_offsets row cached (ground arith) in
          (cached, rw hit, record { real = ground arith; from = lo; until = hi })
      | inr miss ↦
          elim (Bool-cases
            (ltb (cached + 1) (length page_offsets - 1) && on_page page_offsets row (cached + 1))) [
              | inl hit ↦
                  let (lo, hi) = on_page_lem page_offsets row (cached + 1) (ground arith) in
                  (
                    cached + 1,
                    rw (miss, hit),
                    record { real = ground arith; from = lo; until = hi },
                  )
              | inr far ↦
                  let (p, found, is) = search_all-Finds page_offsets row h in
                  (p, rw (miss, far) found, is)
            ]
    ]

-- The same for `get_cached` and its caller's cache.
pub page_of_cached-Finds :
    (page_offsets : List ℕ) (row page_cache : ℕ)
    → Holds page_offsets row
    → Finds page_offsets row (page_of_cached page_offsets row page_cache)
unfolding page_of_cached
page_of_cached-Finds page_offsets row page_cache h =
    let first : ℕ = if leb (length page_offsets - 1) page_cache then 0 else page_cache in
    let valid : first + 1 < length page_offsets = ground (arith, h.some_page) in
    elim (Bool-cases (on_page page_offsets row first)) [
      | inl hit ↦
          let (lo, hi) = on_page_lem page_offsets row first hit in
          (first, rw hit, record { real = valid; from = lo; until = hi })
      | inr miss ↦
          elim (Bool-cases
            (ltb (first + 1) (length page_offsets - 1) && on_page page_offsets row (first + 1))) [
              | inl hit ↦
                  let (lo, hi) = on_page_lem page_offsets row (first + 1) (ground arith) in
                  (first + 1, rw (miss, hit), record { real = ground arith; from = lo; until = hi })
              | inr far ↦
                  let (p, found, is) = search_all-Finds page_offsets row h in
                  (p, rw (miss, far) found, is)
            ]
    ]
