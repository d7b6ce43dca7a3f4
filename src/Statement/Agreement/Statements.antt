-- ===== src/Statement/Agreement/Statements.antt =====
-- A filter keeps the same rows on columns as it does on the rows' records.
use sigmod_runtime_engine.Base.{
  ℕ, zero, suc, ◌<◌, ◌≡◌, refl, sym, ap, ◌∙◌, Bool, ◌&&◌, ◌||◌, List, [], ◌∷◌, arith, get_or,
}
use sigmod_runtime_engine.Bitmap.{bit_of}
use sigmod_runtime_engine.FilterThreadPool.{filter_tp, Schedule}
use sigmod_runtime_engine.Statement.{
  DoubleType, Data, LogicalType, Statement, comparison, logical, end, child, Result, ok, at_index,
}
use sigmod_runtime_engine.Statement.Record
use sigmod_runtime_engine.Statement.Record.{all_true, any_true, not_only, compare_data}
use sigmod_runtime_engine.Statement.Table
use sigmod_runtime_engine.Statement.Table.{Column}
use sigmod_runtime_engine.Statement.Truth.{cell_of, row_of, truth, WellTyped, TableOf, Computes}
use sigmod_runtime_engine.Statement.Truth.Rows.{eval-Computes, get_or-row_of}
use sigmod_runtime_engine.Statement.Agreement.{ExactDoubles, InRange, compare_data_lem}

module _ {D : Type 0} (doubles : DoubleType D) where
  -- Every comparison of the statement meets a value that it compares exactly.
  unfoldable pub Exact : List (Data D) → Statement D → Type 0
  Exact cells (comparison column op value) =
      InRange doubles (get_or cells column Data.monostate) value
  Exact cells (logical LogicalType.and (child l (child r end))) = Exact cells l × Exact cells r
  Exact cells (logical LogicalType.or (child l (child r end))) = Exact cells l × Exact cells r
  Exact cells (logical LogicalType.not_of (child s end)) = Exact cells s
  Exact cells (logical type others) = Unit

  at_index-row_of :
      (table : List (Column D)) (row i : ℕ) (c : Column D)
      → at_index table i ≡ ok c
      → at_index (row_of doubles table row) i ≡ ok (cell_of doubles c row)
  unfolding row_of
  at_index-row_of [] row i c h = absurd (ground arith)
  at_index-row_of (x ∷ table) row zero c h =
      let e : x ≡ c = cc in ap (λ y. ok (cell_of doubles y row)) e
  at_index-row_of (x ∷ table) row (suc i) c h = at_index-row_of table row i c h

  all_true_pair :
      (l r : Result Bool) (a b : Bool) → l ≡ ok a → r ≡ ok b → all_true (l ∷ r ∷ []) ≡ ok (a && b)
  all_true_pair l r a b is_l is_r = rw (is_l, is_r) (ground arith)

  any_true_pair :
      (l r : Result Bool) (a b : Bool) → l ≡ ok a → r ≡ ok b → any_true (l ∷ r ∷ []) ≡ ok (a || b)
  any_true_pair l r a b is_l is_r = rw (is_l, is_r) (ground arith)

  module _ (exact : ExactDoubles doubles) (like_match : List ℕ → List ℕ → Bool)
      (table : List (Column D)) (row : ℕ) where
    eval-truth :
        (s : Statement D)
        → WellTyped table s
        → Exact (row_of doubles table row) s
        → Record.eval doubles like_match s (row_of doubles table row)
          ≡ ok (truth doubles like_match s (row_of doubles table row))
    unfolding Record.eval Record.eval_children truth WellTyped Exact
    eval-truth (comparison column op value) (c, is, fit) range =
        let cell = at_index-row_of table row column c is in
        let same = get_or-row_of doubles table row column c is in
        rw (cell, same)
          (ap ok (
            compare_data_lem doubles exact like_match op (cell_of doubles c row) value
              (rw same at range)))
    eval-truth (logical LogicalType.and end) typed range = absurd typed
    eval-truth (logical LogicalType.and (child l end)) typed range = absurd typed
    eval-truth (logical LogicalType.and (child l (child r end))) typed range =
        all_true_pair _ _ _ _ (eval-truth l typed.0 range.0) (eval-truth r typed.1 range.1)
    eval-truth (logical LogicalType.and (child l (child r (child x others)))) typed range =
        absurd typed
    eval-truth (logical LogicalType.or end) typed range = absurd typed
    eval-truth (logical LogicalType.or (child l end)) typed range = absurd typed
    eval-truth (logical LogicalType.or (child l (child r end))) typed range =
        any_true_pair _ _ _ _ (eval-truth l typed.0 range.0) (eval-truth r typed.1 range.1)
    eval-truth (logical LogicalType.or (child l (child r (child x others)))) typed range =
        absurd typed
    eval-truth (logical LogicalType.not_of end) typed range = absurd typed
    eval-truth (logical LogicalType.not_of (child s end)) typed range =
        rw (eval-truth s typed range) refl
    eval-truth (logical LogicalType.not_of (child s (child x others))) typed range = absurd typed

-- The evaluation on columns gives a bitmap, and the one on the row's record gives the row's bit of it.
unfoldable pub Agrees :
    {D : Type 0}
    → DoubleType D
    → (List ℕ → List ℕ → Bool)
    → List ℕ
    → Statement D
    → List (Column D)
    → ℕ
    → Type 0
Agrees doubles like_match turns s table row =
    (ret : List ℕ) × (Table.eval turns like_match doubles s table ≡ ok ret)
    × (Record.eval doubles like_match s (row_of doubles table row) ≡ ok (bit_of ret row))

-- For doubles that convert integers exactly up to 2^53, columns of `rows` rows, and a statement that is
-- well typed for them and compares values of the row in this range only: the evaluation on columns, in
-- whatever order the threads go, gives a bitmap in which the row's bit is what the evaluation on the
-- row's record gives.
pub eval-Agrees :
    {D : Type 0} (doubles : DoubleType D) (like_match : List ℕ → List ℕ → Bool) (turns : List ℕ)
    (rows row : ℕ) (s : Statement D) (table : List (Column D))
    → ExactDoubles doubles
    → Schedule filter_tp turns
    → TableOf rows table
    → WellTyped table s
    → Exact doubles (row_of doubles table row) s
    → row < rows
    → Agrees doubles like_match turns s table row
unfolding Computes Agrees
eval-Agrees doubles like_match turns rows row s table exact schedule wf typed range inside =
    let (ret, is, bytes, bits) =
      eval-Computes turns schedule rows doubles like_match s table wf typed in
    (
      ret,
      is,
      eval-truth doubles exact like_match table row s typed range ∙ ap ok (sym (bits row inside)),
    )
