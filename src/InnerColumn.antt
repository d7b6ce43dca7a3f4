-- ===== src/InnerColumn.antt =====
-- The numeric columns that filters read: InnerColumn<T> of include/inner_column.h.
pub mod Filter
pub mod Nulls
pub mod Strings
pub mod StringFilter
pub mod StringRows
use sigmod_runtime_engine.Base.{
  ℕ, zero, suc, ◌+◌, ◌-◌, ◌*◌, ◌/◌, ◌%◌, ◌^◌, ◌≤◌, ◌<◌, min, max, bit_and, bit_or, ◌≡◌, refl, sym,
  ap, ◌∙◌, ◌≢◌, ◌↔◌, ◌⊎◌, inl, inr, Bool, true, false, not, ◌&&◌, ◌||◌, Option, none, some, List,
  [], ◌∷◌, ◌++◌, map, arith, ltb, leb, ◌==◌, if◌then◌else◌, ltb→lt, ltb→le, lt→ltb, le→ltb, ==→eq,
  ==→ne, ==_refl, ne→==, Bool-cases, Option-cases, length, get_or, get_elem?, set, replicate,
  select, length-append, length-set, length-replicate, get_or-replicate, get_or-replicate_self,
  get_or-set_self, get_or-set_ne, get_or-append_left, get_or-append_right, select-append,
  select-select, select_hit, select_miss, u8, u16, u32, u64, shl, shr,
}
use sigmod_runtime_engine.Bitmap.{has_bit, complement}
use sigmod_runtime_engine.Bitmap.Rows.{flag}
use sigmod_runtime_engine.FilterThreadPool.{filter_tp, run}

pub record InnerColumn (T : Type 0) : Type 0 where
  pub cells : List T
  pub bitmap : List ℕ

-- What the code uses of the type of the cells: `T()` and the six comparisons.
pub record CellType (T : Type 0) : Type 0 where
  pub initial : T
  pub lt : T → T → Bool
  pub gt : T → T → Bool
  pub le : T → T → Bool
  pub ge : T → T → Bool
  pub eq : T → T → Bool
  pub ne : T → T → Bool

module _ {T : Type 0} (ops : CellType T) where
  -- The cell of a row is in the vector already.
  unfoldable pub bitmap_push_back : InnerColumn T → Bool → InnerColumn T
  bitmap_push_back c not_null =
      if ltb (length c.bitmap) ((length c.cells + 7) / 8)
      then record { cells = c.cells; bitmap = c.bitmap ++ ((if not_null then 1 else 0) ∷ []) }
      else let byte_idx = (length c.cells - 1) / 8 in
        let bit_idx = (length c.cells - 1) % 8 in
        let old = get_or c.bitmap byte_idx 0 in
        let byte =
          if not_null
          then u8 (bit_or old (shl 1 bit_idx))
          else bit_and old (complement (shl 1 bit_idx)) in
        record { cells = c.cells; bitmap = set c.bitmap byte_idx byte }

  unfoldable pub push_back : InnerColumn T → T → InnerColumn T
  push_back c value =
      bitmap_push_back (record { cells = c.cells ++ (value ∷ []); bitmap = c.bitmap }) true

  unfoldable pub push_back_null : InnerColumn T → InnerColumn T
  push_back_null c =
      bitmap_push_back (record { cells = c.cells ++ (ops.initial ∷ []); bitmap = c.bitmap }) false

  unfoldable pub is_not_null : InnerColumn T → ℕ → Bool
  is_not_null c idx =
      let byte_idx = idx / 8 in
      let bit_idx = idx % 8 in has_bit (get_or c.bitmap byte_idx 0) bit_idx

  unfoldable pub get : InnerColumn T → ℕ → T
  get c idx = get_or c.cells idx ops.initial

  -- The loop of the comparisons, over the rows from byte `first` on, with the test of the cells.
  unfoldable pub fill_bits : (T → Bool) → List T → List ℕ → ℕ → ℕ → List ℕ → List ℕ
  fill_bits test cells bitmap first zero output = output
  fill_bits test cells bitmap first (suc i) output =
      let before = fill_bits test cells bitmap first i output in
      let byte_idx = first + i / 8 in
      let bit_idx = i % 8 in
      let value = get_or cells (first * 8 + i) ops.initial in
      let word =
        bit_and (bit_and (get_or bitmap byte_idx 0) (shl 1 bit_idx))
          (shl (flag (test value)) bit_idx) in
      set before byte_idx (u8 (bit_or (get_or before byte_idx 0) word))

  -- The tasks of a comparison on the pool's threads, which take effect in the order `turns`.
  module _ (turns : List ℕ) where
    unfoldable pub run_spans : InnerColumn T → (ℕ → ℕ → List ℕ → List ℕ) → List ℕ
    run_spans c span =
        let task : ℕ → ℕ → List ℕ → List ℕ = λ byte_begin byte_end ret.
          span byte_begin (min (byte_end * 8) (length c.cells) - byte_begin * 8) ret in
        run filter_tp turns task ((length c.cells + 7) / 8) (replicate (length c.bitmap) 0)

    unfoldable pub less_span : List T → List ℕ → ℕ → ℕ → T → List ℕ → List ℕ
    less_span cells bitmap first size rhs output =
        fill_bits (λ v. ops.lt v rhs) cells bitmap first size output

    unfoldable pub less : InnerColumn T → T → List ℕ
    less c rhs = run_spans c (λ first size. less_span c.cells c.bitmap first size rhs)

    unfoldable pub greater_span : List T → List ℕ → ℕ → ℕ → T → List ℕ → List ℕ
    greater_span cells bitmap first size rhs output =
        fill_bits (λ v. ops.gt v rhs) cells bitmap first size output

    unfoldable pub greater : InnerColumn T → T → List ℕ
    greater c rhs = run_spans c (λ first size. greater_span c.cells c.bitmap first size rhs)

    unfoldable pub less_equal_span : List T → List ℕ → ℕ → ℕ → T → List ℕ → List ℕ
    less_equal_span cells bitmap first size rhs output =
        fill_bits (λ v. ops.le v rhs) cells bitmap first size output

    unfoldable pub less_equal : InnerColumn T → T → List ℕ
    less_equal c rhs = run_spans c (λ first size. less_equal_span c.cells c.bitmap first size rhs)

    unfoldable pub greater_equal_span : List T → List ℕ → ℕ → ℕ → T → List ℕ → List ℕ
    greater_equal_span cells bitmap first size rhs output =
        fill_bits (λ v. ops.ge v rhs) cells bitmap first size output

    unfoldable pub greater_equal : InnerColumn T → T → List ℕ
    greater_equal c rhs =
        run_spans c (λ first size. greater_equal_span c.cells c.bitmap first size rhs)

    unfoldable pub equal_span : List T → List ℕ → ℕ → ℕ → T → List ℕ → List ℕ
    equal_span cells bitmap first size rhs output =
        fill_bits (λ v. ops.eq v rhs) cells bitmap first size output

    unfoldable pub equal : InnerColumn T → T → List ℕ
    equal c rhs = run_spans c (λ first size. equal_span c.cells c.bitmap first size rhs)

    unfoldable pub not_equal_span : List T → List ℕ → ℕ → ℕ → T → List ℕ → List ℕ
    not_equal_span cells bitmap first size rhs output =
        fill_bits (λ v. ops.ne v rhs) cells bitmap first size output

    unfoldable pub not_equal : InnerColumn T → T → List ℕ
    not_equal c rhs = run_spans c (λ first size. not_equal_span c.cells c.bitmap first size rhs)
