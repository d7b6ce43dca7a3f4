-- ===== src/Statement/Truth/Rows.antt =====
-- The evaluation of a whole statement on columns, row by row.
use sigmod_runtime_engine.Base.{
  ℕ, zero, suc, ◌+◌, ◌/◌, ◌≡◌, refl, sym, ap, ◌∙◌, Bool, not, ◌&&◌, ◌||◌, List, [], ◌∷◌, arith,
  get_or,
}
use sigmod_runtime_engine.FilterThreadPool.{filter_tp, Schedule}
use sigmod_runtime_engine.Statement.{
  DoubleType, Data, LogicalType, Statement, comparison, logical, end, child, Result, ok, ◌>>=◌,
  at_index,
}
use sigmod_runtime_engine.Statement.Table.{
  Column, bitmap_not, bitmap_and, bitmap_or, eval, eval_children,
}
use sigmod_runtime_engine.Statement.Bitmaps.{
  bitmap_not-IsBitmap, bitmap_not_lem, bitmap_and_lem, bitmap_or_lem,
}
use sigmod_runtime_engine.Statement.Truth.{
  cell_of, data_truth, row_of, truth, WellTyped, HasRows, TableOf, Computes,
}
use sigmod_runtime_engine.Statement.Truth.Columns.{compare_column-Computes, Computes-ap}

module _ {D : Type 0} (doubles : DoubleType D) where
  -- A column of the table, and its cell in the row.
  at_index-HasRows :
      (rows : ℕ) (table : List (Column D)) (i : ℕ) (c : Column D)
      → TableOf rows table
      → at_index table i ≡ ok c
      → HasRows rows c
  at_index-HasRows rows [] i c wf h = absurd (ground arith)
  at_index-HasRows rows (x ∷ table) zero c wf h = let e : x ≡ c = cc in rw e at wf.0
  at_index-HasRows rows (x ∷ table) (suc i) c wf h = at_index-HasRows rows table i c wf.1 h

  pub get_or-row_of :
      (table : List (Column D)) (row i : ℕ) (c : Column D)
      → at_index table i ≡ ok c
      → get_or (row_of doubles table row) i Data.monostate ≡ cell_of doubles c row
  unfolding row_of
  get_or-row_of [] row i c h = absurd (ground arith)
  get_or-row_of (x ∷ table) row zero c h = let e : x ≡ c = cc in ap (λ y. cell_of doubles y row) e
  get_or-row_of (x ∷ table) row (suc i) c h = get_or-row_of table row i c h

-- What a statement says of each row of a table.
abbrev pub says :
    {D : Type 0}
    → DoubleType D
    → (List ℕ → List ℕ → Bool)
    → Statement D
    → List (Column D)
    → ℕ
    → Bool
says doubles like_match s table row = truth doubles like_match s (row_of doubles table row)

module _ (turns : List ℕ) (schedule : Schedule filter_tp turns) (rows : ℕ) where
  bitmap_not-Computes :
      (says : ℕ → Bool) (result : Result (List ℕ))
      → Computes rows says result
      → Computes rows (λ row. not (says row)) (result >>= λ operand. ok (bitmap_not turns operand))
  unfolding Computes
  bitmap_not-Computes says result (ret, is, wf, bits) = (
    bitmap_not turns ret,
    rw is refl,
    bitmap_not-IsBitmap turns ((rows + 7) / 8) ret wf,
    λ row inside.
        bitmap_not_lem turns ((rows + 7) / 8) row ret schedule wf (omega arith)
        ∙ ap not (bits row inside),
  )

  module _ (f g : ℕ → Bool) (lhs rhs : Result (List ℕ)) (l : Computes rows f lhs)
      (r : Computes rows g rhs) where
    bitmap_and-Computes :
        Computes rows (λ row. f row && g row) (lhs >>= λ a. rhs >>= λ b. bitmap_and turns a b)
    unfolding Computes
    bitmap_and-Computes =
        let (a, is_a, wa, bits_a) = l in
        let (b, is_b, wb, bits_b) = r in
        let (ret, is, wf, bits) = bitmap_and_lem turns ((rows + 7) / 8) a b wa wb schedule in
        (
          ret,
          rw (is_a, is_b) is,
          wf,
          λ row inside. bits row (omega arith) ∙ rw (bits_a row inside, bits_b row inside) refl,
        )

    bitmap_or-Computes :
        Computes rows (λ row. f row || g row) (lhs >>= λ a. rhs >>= λ b. bitmap_or turns a b)
    unfolding Computes
    bitmap_or-Computes =
        let (a, is_a, wa, bits_a) = l in
        let (b, is_b, wb, bits_b) = r in
        let (ret, is, wf, bits) = bitmap_or_lem turns ((rows + 7) / 8) a b wa wb schedule in
        (
          ret,
          rw (is_a, is_b) is,
          wf,
          λ row inside. bits row (omega arith) ∙ rw (bits_a row inside, bits_b row inside) refl,
        )

  module _ {D : Type 0} (doubles : DoubleType D) (like_match : List ℕ → List ℕ → Bool) where
    -- The evaluation computes what the comparisons of the columns give for each row.
    pub eval-Computes :
        (s : Statement D) (table : List (Column D))
        → TableOf rows table
        → WellTyped table s
        → Computes rows (says doubles like_match s table) (eval turns like_match doubles s table)
    unfolding eval eval_children truth WellTyped
    eval-Computes (comparison column op value) table wf (c, is, fit) = rw is (
        Computes-ap _ _ _
          (λ row inside.
            ap (λ cell. data_truth doubles like_match cell op value)
              (sym (get_or-row_of doubles table row column c is)))
          (compare_column-Computes turns schedule rows doubles like_match c op value
            (at_index-HasRows doubles rows table column c wf is) fit))
    eval-Computes (logical LogicalType.and end) table wf typed = absurd typed
    eval-Computes (logical LogicalType.and (child l end)) table wf typed = absurd typed
    eval-Computes (logical LogicalType.and (child l (child r end))) table wf typed =
        bitmap_and-Computes _ _ _ _ (eval-Computes l table wf typed.0)
          (eval-Computes r table wf typed.1)
    eval-Computes (logical LogicalType.and (child l (child r (child x others)))) table wf typed =
        absurd typed
    eval-Computes (logical LogicalType.or end) table wf typed = absurd typed
    eval-Computes (logical LogicalType.or (child l end)) table wf typed = absurd typed
    eval-Computes (logical LogicalType.or (child l (child r end))) table wf typed =
        bitmap_or-Computes _ _ _ _ (eval-Computes l table wf typed.0)
          (eval-Computes r table wf typed.1)
    eval-Computes (logical LogicalType.or (child l (child r (child x others)))) table wf typed =
        absurd typed
    eval-Computes (logical LogicalType.not_of end) table wf typed = absurd typed
    eval-Computes (logical LogicalType.not_of (child s end)) table wf typed =
        bitmap_not-Computes _ _ (eval-Computes s table wf typed)
    eval-Computes (logical LogicalType.not_of (child s (child x others))) table wf typed =
        absurd typed
