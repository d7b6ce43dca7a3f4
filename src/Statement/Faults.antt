-- ===== src/Statement/Faults.antt =====
-- How a comparison on a column can leave the defined behaviour.
use sigmod_runtime_engine.Base.{
  ℕ, ◌≡◌, refl, ◌∙◌, Bool, true, false, not, Option, none, some, List, if◌then◌else◌, u32,
}
use sigmod_runtime_engine.InnerColumn.{InnerColumn, CellType}
use sigmod_runtime_engine.InnerColumn.Strings.{StringColumn}
use sigmod_runtime_engine.Statement.{DoubleType, Literal, Op, Fault, Result, ok, fault, int_cells}
use sigmod_runtime_engine.Statement.Table.{
  Column, null_test, compare_numbers, compare_strings, compare_column,
}
use sigmod_runtime_engine.Statement.Truth.{is_order, is_null_test}

abbrev pub fault_of {ℓ} : {A : Type ℓ} → Result A → Option Fault
fault_of (ok a) = none
fault_of (fault e) = some e

-- Whether the literal's alternative is the one that `std::get` asks for.
abbrev pub literal_matches : {D : Type 0} → Column D → Literal D → Bool
literal_matches (Column.int32 c) (Literal.int64 b) = true
literal_matches (Column.int64 c) (Literal.int64 b) = true
literal_matches (Column.fp64 c) (Literal.fp64 b) = true
literal_matches (Column.varchar c) (Literal.string b) = true
literal_matches c b = false

-- Whether the switch of the column's type has a case for the operator, null tests aside.
abbrev pub has_case : {D : Type 0} → Column D → Op → Bool
has_case (Column.int32 c) op = is_order op
has_case (Column.int64 c) op = is_order op
has_case (Column.fp64 c) op = is_order op
has_case (Column.varchar c) op = not (is_null_test op)

unfoldable pub expected_fault : {D : Type 0} → Column D → Op → Literal D → Option Fault
expected_fault c op value =
    if is_null_test op
    then none
    else if not (literal_matches c value)
    then some Fault.bad_variant_access
    else if has_case c op
    then none
    else some Fault.unreachable

module _ (turns : List ℕ) where
  null_test-fault :
      (op : Op) (bitmap : List ℕ) (other : Result (List ℕ))
      → fault_of (null_test turns bitmap op other)
        ≡ (if is_null_test op then none else fault_of other)
  unfolding null_test
  null_test-fault Op.eq bitmap other = refl
  null_test-fault Op.neq bitmap other = refl
  null_test-fault Op.lt bitmap other = refl
  null_test-fault Op.gt bitmap other = refl
  null_test-fault Op.leq bitmap other = refl
  null_test-fault Op.geq bitmap other = refl
  null_test-fault Op.like bitmap other = refl
  null_test-fault Op.not_like bitmap other = refl
  null_test-fault Op.is_null bitmap other = refl
  null_test-fault Op.is_not_null bitmap other = refl

  compare_numbers-fault :
      {T : Type 0} (cells : CellType T) (c : InnerColumn T) (op : Op) (rhs : T)
      → fault_of (compare_numbers turns cells c op rhs)
        ≡ (if is_order op then none else some Fault.unreachable)
  unfolding compare_numbers
  compare_numbers-fault cells c Op.eq rhs = refl
  compare_numbers-fault cells c Op.neq rhs = refl
  compare_numbers-fault cells c Op.lt rhs = refl
  compare_numbers-fault cells c Op.gt rhs = refl
  compare_numbers-fault cells c Op.leq rhs = refl
  compare_numbers-fault cells c Op.geq rhs = refl
  compare_numbers-fault cells c Op.like rhs = refl
  compare_numbers-fault cells c Op.not_like rhs = refl
  compare_numbers-fault cells c Op.is_null rhs = refl
  compare_numbers-fault cells c Op.is_not_null rhs = refl

module _ (turns : List ℕ) (like_match : List ℕ → List ℕ → Bool) where
  compare_strings-fault :
      (c : StringColumn) (op : Op) (rhs : List ℕ)
      → fault_of (compare_strings turns like_match c op rhs)
        ≡ (if not (is_null_test op) then none else some Fault.unreachable)
  unfolding compare_strings
  compare_strings-fault c Op.eq rhs = refl
  compare_strings-fault c Op.neq rhs = refl
  compare_strings-fault c Op.lt rhs = refl
  compare_strings-fault c Op.gt rhs = refl
  compare_strings-fault c Op.leq rhs = refl
  compare_strings-fault c Op.geq rhs = refl
  compare_strings-fault c Op.like rhs = refl
  compare_strings-fault c Op.not_like rhs = refl
  compare_strings-fault c Op.is_null rhs = refl
  compare_strings-fault c Op.is_not_null rhs = refl

module _ {D : Type 0} (turns : List ℕ) (like_match : List ℕ → List ℕ → Bool)
    (doubles : DoubleType D) where
  -- A comparison on a column gives a bitmap when it is a test for null, throws when the literal has not
  -- the column's type, calls `unreachable()` when the type's switch has no case for the operator, and
  -- gives a bitmap otherwise.
  pub compare_column-fault :
      (c : Column D) (op : Op) (value : Literal D)
      → fault_of (compare_column turns like_match doubles c op value) ≡ expected_fault c op value
  unfolding compare_column expected_fault
  compare_column-fault (Column.int32 c) op (Literal.int64 b) =
      null_test-fault turns op c.bitmap _
      ∙ rw (compare_numbers-fault turns (int_cells 32) c op (u32 b)) refl
  compare_column-fault (Column.int32 c) op (Literal.fp64 b) = null_test-fault turns op c.bitmap _
  compare_column-fault (Column.int32 c) op (Literal.string b) = null_test-fault turns op c.bitmap _
  compare_column-fault (Column.int32 c) op Literal.monostate = null_test-fault turns op c.bitmap _
  compare_column-fault (Column.int64 c) op (Literal.int64 b) =
      null_test-fault turns op c.bitmap _
      ∙ rw (compare_numbers-fault turns (int_cells 64) c op b) refl
  compare_column-fault (Column.int64 c) op (Literal.fp64 b) = null_test-fault turns op c.bitmap _
  compare_column-fault (Column.int64 c) op (Literal.string b) = null_test-fault turns op c.bitmap _
  compare_column-fault (Column.int64 c) op Literal.monostate = null_test-fault turns op c.bitmap _
  compare_column-fault (Column.fp64 c) op (Literal.int64 b) = null_test-fault turns op c.bitmap _
  compare_column-fault (Column.fp64 c) op (Literal.fp64 b) =
      null_test-fault turns op c.bitmap _
      ∙ rw (compare_numbers-fault turns doubles.cells c op b) refl
  compare_column-fault (Column.fp64 c) op (Literal.string b) = null_test-fault turns op c.bitmap _
  compare_column-fault (Column.fp64 c) op Literal.monostate = null_test-fault turns op c.bitmap _
  compare_column-fault (Column.varchar c) op (Literal.int64 b) = null_test-fault turns op c.bitmap _
  compare_column-fault (Column.varchar c) op (Literal.fp64 b) = null_test-fault turns op c.bitmap _
  compare_column-fault (Column.varchar c) op (Literal.string b) =
      null_test-fault turns op c.bitmap _ ∙ rw (compare_strings-fault turns like_match c op b) refl
  compare_column-fault (Column.varchar c) op Literal.monostate = null_test-fault turns op c.bitmap _
