-- ===== src/InnerColumn/Nulls.antt =====
-- Numeric columns that grow: what `push_back` and `push_back_null` make of the rows.
use sigmod_runtime_engine.Base.{
  ℕ, ◌+◌, ◌-◌, ◌/◌, ◌≤◌, ◌≡◌, refl, ap, ◌∙◌, inl, inr, Bool, true, false, Option, none, some, [],
  ◌∷◌, ◌++◌, arith, ltb, ◌==◌, if◌then◌else◌, ==→eq, ==→ne, Bool-cases, length, get_or,
  length-append, get_or-append_left, get_or-append_right,
}
use sigmod_runtime_engine.Bitmap.{bit_of}
use sigmod_runtime_engine.Bitmap.Rows.{IsBitmap}
use sigmod_runtime_engine.Bitmap.Push.{pushed, pushed-IsBitmap, bit_of-pushed}
use sigmod_runtime_engine.InnerColumn.{
  InnerColumn, CellType, bitmap_push_back, push_back, push_back_null, is_not_null, get,
}

module _ {T : Type 0} (ops : CellType T) where
  -- What a row holds.
  unfoldable pub value_of : InnerColumn T → ℕ → Option T
  value_of c row = if is_not_null ops c row then some (get ops c row) else none

  -- `after` is `before` with one more row, which holds `last`.
  unfoldable pub Extends : InnerColumn T → Option T → InnerColumn T → Type 0
  Extends before last after =
      IsBitmap ((length after.cells + 7) / 8) after.bitmap
      × (length after.cells ≡ length before.cells + 1)
      × ((row : ℕ)
          → row ≤ length before.cells
          → value_of after row ≡ (if row == length before.cells then last else value_of before row))

  module _ (c : InnerColumn T) (v : T) (wf : IsBitmap ((length c.cells + 7) / 8) c.bitmap) where
    longer : length (c.cells ++ (v ∷ [])) ≡ length c.cells + 1
    longer = length-append c.cells (v ∷ [])

    extended : Bool → InnerColumn T
    extended not_null = record {
      cells = c.cells ++ (v ∷ []);
      bitmap = pushed c.bitmap (length c.cells) not_null;
    }

    bitmap_push_back_lem :
        (not_null : Bool)
        → bitmap_push_back ops (record { cells = c.cells ++ (v ∷ []); bitmap = c.bitmap }) not_null
          ≡ extended not_null
    unfolding bitmap_push_back extended
    bitmap_push_back_lem not_null =
        let bytes : (length c.cells + 1 + 7) / 8 ≡ length c.cells / 8 + 1 = omega arith in
        let last_row : length c.cells + 1 - 1 ≡ length c.cells = omega arith in
        rw (longer, bytes, last_row)
          (elim (Bool-cases (ltb (length c.bitmap) (length c.cells / 8 + 1))) [
            | inl grows ↦ rw grows refl
            | inr stays ↦ rw stays refl
          ])

    cells_at :
        (row : ℕ)
        → row ≤ length c.cells
        → get_or (c.cells ++ (v ∷ [])) row ops.initial
          ≡ (if row == length c.cells then v else get_or c.cells row ops.initial)
    cells_at row h = elim (Bool-cases (row == length c.cells)) [
      | inl same ↦
          let e : row ≡ length c.cells + 0 = omega (arith, ==→eq row (length c.cells) same) in
          rw same (
            ap (λ i. get_or (c.cells ++ (v ∷ [])) i ops.initial) e
            ∙ get_or-append_right c.cells (v ∷ []) 0 ops.initial)
      | inr other ↦ rw other (
          get_or-append_left c.cells (v ∷ []) row ops.initial
            (omega (arith, ==→ne row (length c.cells) other)))
    ]

    extended-Extends :
        (not_null : Bool) → Extends c (if not_null then some v else none) (extended not_null)
    unfolding extended Extends value_of is_not_null get bit_of
    extended-Extends not_null =
        let size : (length (c.cells ++ (v ∷ [])) + 7) / 8 ≡ (length c.cells + 8) / 8 =
          omega (arith, longer) in
        (
          rw size (pushed-IsBitmap (length c.cells) c.bitmap wf not_null),
          longer,
          λ row h.
              rw (bit_of-pushed (length c.cells) c.bitmap wf not_null row h, cells_at row h)
                (elim (Bool-cases (row == length c.cells)) [
                  | inl same ↦ rw same refl
                  | inr other ↦ rw other refl
                ]),
        )

  -- On a column whose bitmap has the size for its rows, `push_back` adds a row that holds the value; the
  -- rows before it hold what they held, and the bitmap has the size for the rows again.
  pub push_back-Extends :
      (c : InnerColumn T) (v : T)
      → IsBitmap ((length c.cells + 7) / 8) c.bitmap
      → Extends c (some v) (push_back ops c v)
  unfolding push_back
  push_back-Extends c v wf = rw (bitmap_push_back_lem c v wf true) (extended-Extends c v wf true)

  -- On a column whose bitmap has the size for its rows, `push_back_null` adds a row that holds nothing;
  -- the rows before it hold what they held, and the bitmap has the size for the rows again.
  pub push_back_null-Extends :
      (c : InnerColumn T)
      → IsBitmap ((length c.cells + 7) / 8) c.bitmap
      → Extends c none (push_back_null ops c)
  unfolding push_back_null
  push_back_null-Extends c wf =
      rw (bitmap_push_back_lem c ops.initial wf false) (extended-Extends c ops.initial wf false)
