-- ===== src/Join/Cursor.antt =====
-- The page cursor of a probe thread is always on the page of its row.
use sigmod_runtime_engine.Base.{
  ℕ, zero, suc, ◌+◌, ◌-◌, ◌≤◌, ◌<◌, ◌≡◌, inl, inr, List, arith, leb, ◌==◌, ==→eq, ==→ne, Bool-cases,
  length, get_or,
}
use sigmod_runtime_engine.Columnar.Search.{Finds, search_all-Finds}
use sigmod_runtime_engine.Columnar.Source.{IsOffsets}
use sigmod_runtime_engine.Join.{advance, first_page}

module _ (page_offsets : List ℕ) (offs : IsOffsets page_offsets) where
  -- The row is before the end of the last page.
  abbrev Before : ℕ → Type 0
  Before row = row < get_or page_offsets (length page_offsets - 1) 0

  pub advance-Finds :
      (fuel row p : ℕ)
      → length page_offsets ≤ p + 1 + fuel
      → p + 1 < length page_offsets
      → get_or page_offsets p 0 ≤ row
      → Before row
      → Finds page_offsets row (advance fuel page_offsets row p)
  unfolding advance
  advance-Finds zero row p enough real from before = absurd (omega arith)
  advance-Finds (suc fuel) row p enough real from before =
      elim (Bool-cases (leb (get_or page_offsets (p + 1) 0) row)) [
        | inr here ↦
            let until : row < get_or page_offsets (p + 1) 0 = ground arith in
            (p, rw here, record { real = real; from = from; until = until })
        | inl past ↦
            let next : get_or page_offsets (p + 1) 0 ≤ row = ground arith in
            elim (Bool-cases (p + 2 == length page_offsets)) [
              | inl last ↦
                  let is : length page_offsets - 1 ≡ p + 1 = omega (arith, ==→eq _ _ last) in
                  absurd (omega (arith, rw is at before, next))
              | inr more ↦
                  let (q, found, is) =
                    advance-Finds fuel row (p + 1) (omega arith) (omega (arith, ==→ne _ _ more))
                      next before in
                  (q, rw past found, is)
            ]
      ]

  pub first_page-Finds :
      (row : ℕ) → Before row → Finds page_offsets row (first_page page_offsets row)
  unfolding first_page
  first_page-Finds row before = elim (Bool-cases (leb (get_or page_offsets 1 0) row)) [
    | inl later ↦
        let (q, found, is) = search_all-Finds page_offsets row (record {
          some_page = offs.some_page;
          begin = omega (arith, offs.begins);
          end = before;
        }) in
        (q, rw later found, is)
    | inr first ↦
        let until : row < get_or page_offsets (0 + 1) 0 = ground arith in
        (
          0,
          rw first,
          record {
            real = omega (arith, offs.some_page);
            from = omega (arith, offs.begins);
            until = until;
          },
        )
  ]
