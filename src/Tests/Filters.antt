-- ===== src/Tests/Filters.antt =====
-- The theorems on filters at a small table: a column of numbers with a null, and one of strings.
use sigmod_runtime_engine.Base.{
  ℕ, zero, suc, ◌-◌, ◌≤◌, ◌<◌, ◌≡◌, refl, inl, inr, true, false, not, none, some, List, [], ◌∷◌,
  arith, ltb, ◌==◌, if◌then◌else◌, le→ltb, ne→==, Bool-cases, length, get_or,
}
use sigmod_runtime_engine.FilterThreadPool.{filter_tp, Schedule, count_of, make_pool}
use sigmod_runtime_engine.FilterThreadPool.Shards.{OwnedOnce, begin_idx-OwnedOnce}
use sigmod_runtime_engine.InnerColumn
use sigmod_runtime_engine.InnerColumn.{InnerColumn, CellType}
use sigmod_runtime_engine.InnerColumn.Nulls.{Extends, push_back-Extends, push_back_null-Extends}
use sigmod_runtime_engine.InnerColumn.Strings
use sigmod_runtime_engine.InnerColumn.Strings.{StringColumn}
use sigmod_runtime_engine.InnerColumn.StringRows.{
  IsStrings, begin_of, ExtendsStrings, push_back-ExtendsStrings, push_back_null-ExtendsStrings,
}
use sigmod_runtime_engine.Bitmap.Rows.{IsBitmap}
use sigmod_runtime_engine.Statement.{
  DoubleType, Literal, Op, Statement, comparison, make_and, make_not, int_cells,
}
use sigmod_runtime_engine.Statement.Like.{
  Regex, Cache, IsValid, like_match, like_result, to_regex, regex_of, is_special, like_match_lem,
}
use sigmod_runtime_engine.Statement.Table.{Column, compare_column, eval}
use sigmod_runtime_engine.Statement.Table.{bitmap_not}
use sigmod_runtime_engine.Statement.Bitmaps.{bitmap_not_lem}
use sigmod_runtime_engine.Bitmap.{bit_of, has_bit}
use sigmod_runtime_engine.Statement.Truth.{
  WellTyped, TableOf, HasRows, Computes, fits, row_of, cell_of,
}
use sigmod_runtime_engine.Statement.Meaning.{FitsCell, Fitting, means, eval-means}
use sigmod_runtime_engine.Statement.Faults.{fault_of, expected_fault, compare_column-fault}
use sigmod_runtime_engine.Statement.Agreement.{sign_extend, IsInt32, ExactDoubles, InRange}
use sigmod_runtime_engine.Statement.Agreement.Statements.{Exact, Agrees, eval-Agrees}

abbrev pub turns : List ℕ
turns = 11 ∷ 0 ∷ 10 ∷ 1 ∷ 9 ∷ 2 ∷ 8 ∷ 3 ∷ 7 ∷ 4 ∷ 6 ∷ 5 ∷ []

abbrev Below : List ℕ → ℕ → Type 0
Below [] t = Unit
Below (u ∷ rest) t = (u < t) × Below rest t

count_of_beyond : (order : List ℕ) (t : ℕ) → Below order t → count_of t order ≡ 0
count_of_beyond [] t h = refl
count_of_beyond (u ∷ order) t h =
    let other : (t == u) ≡ false = ne→== t u (λ e. omega arith) in
    rw other (omega (arith, count_of_beyond order t h.1))

beyond :
    (t : ℕ) → Below turns (suc (suc (suc (suc (suc (suc (suc (suc (suc (suc (suc (suc t))))))))))))
beyond t = omega arith

ltb_beyond :
    (t : ℕ)
    → ltb (suc (suc (suc (suc (suc (suc (suc (suc (suc (suc (suc (suc t)))))))))))) 12 ≡ false
ltb_beyond t =
    le→ltb (suc (suc (suc (suc (suc (suc (suc (suc (suc (suc (suc (suc t)))))))))))) 12
      (omega arith)

turns_count : (t : ℕ) → count_of t turns ≡ (if ltb t 12 then 1 else 0)
turns_count zero = refl
turns_count (suc zero) = refl
turns_count (suc (suc zero)) = refl
turns_count (suc (suc (suc zero))) = refl
turns_count (suc (suc (suc (suc zero)))) = refl
turns_count (suc (suc (suc (suc (suc zero))))) = refl
turns_count (suc (suc (suc (suc (suc (suc zero)))))) = refl
turns_count (suc (suc (suc (suc (suc (suc (suc zero))))))) = refl
turns_count (suc (suc (suc (suc (suc (suc (suc (suc zero)))))))) = refl
turns_count (suc (suc (suc (suc (suc (suc (suc (suc (suc zero))))))))) = refl
turns_count (suc (suc (suc (suc (suc (suc (suc (suc (suc (suc zero)))))))))) = refl
turns_count (suc (suc (suc (suc (suc (suc (suc (suc (suc (suc (suc zero))))))))))) = refl
turns_count (suc (suc (suc (suc (suc (suc (suc (suc (suc (suc (suc (suc t)))))))))))) =
    rw (ltb_beyond t) (
      count_of_beyond turns
        (suc (suc (suc (suc (suc (suc (suc (suc (suc (suc (suc (suc t)))))))))))) (beyond t))

pub turns-Schedule : Schedule filter_tp turns
unfolding Schedule make_pool
turns-Schedule = turns_count

pool_threads : 0 < filter_tp.num_threads
unfolding make_pool
pool_threads = omega arith

-- Doubles that are integers.
abbrev pub doubles : DoubleType ℕ
doubles = record { cells = int_cells 64; of_int32 = sign_extend; of_int64 = λ a. a }

pub doubles-ExactDoubles : ExactDoubles doubles
doubles-ExactDoubles = record {
  of_int32-of_int64 = λ a h. refl;
  holds-of_int64 = λ op a b s t. refl;
}

abbrev pub numbers : InnerColumn ℕ
numbers = record { cells = 5 ∷ 0 ∷ 4294967295 ∷ []; bitmap = 5 ∷ [] }

abbrev pub strings : StringColumn
strings = record { chars = 97 ∷ 98 ∷ 97 ∷ []; offsets = 2 ∷ 2 ∷ 3 ∷ []; bitmap = 7 ∷ []; row = 3 }

abbrev pub table : List (Column ℕ)
table = Column.int32 numbers ∷ Column.varchar strings ∷ []

small_bytes : (x i : ℕ) → x < 256 → get_or (x ∷ []) i 0 < 256
small_bytes x zero h = h
small_bytes x (suc i) h = omega arith

pub table-TableOf : TableOf 3 table
unfolding HasRows
table-TableOf = (
  (refl, (refl, λ i. small_bytes 5 i (omega arith))),
  ((refl, (refl, λ i. small_bytes 7 i (omega arith))), tt),
)

-- A matcher for the one pattern of the tests.
abbrev pub regex : Regex
regex = record { compiles = λ r. true; full_match = λ str r. ltb 1 (length str) }

abbrev pub statement : Statement ℕ
statement =
    make_and (comparison 0 Op.lt (Literal.int64 6))
      (make_not (comparison 1 Op.like (Literal.string (97 ∷ 37 ∷ []))))

pub statement-WellTyped : WellTyped table statement
unfolding WellTyped make_and make_not fits
statement-WellTyped = ((Column.int32 numbers, refl, refl), (Column.varchar strings, refl, refl))

pub statement-Exact : Exact doubles (row_of doubles table 2) statement
unfolding has_bit Exact make_and make_not row_of cell_of InRange IsInt32 InnerColumn.is_not_null
    InnerColumn.get Strings.is_not_null
statement-Exact = ((omega arith, inl (omega arith)), tt)

eval-Agrees_example : Agrees doubles (like_result regex) turns statement table 2
eval-Agrees_example =
    eval-Agrees doubles (like_result regex) turns 3 2 statement table doubles-ExactDoubles
      turns-Schedule table-TableOf statement-WellTyped statement-Exact (omega arith)

-- The number in a row fits 32 bits, and so does 6.
numbers-FitsCell :
    (row : ℕ)
    → row < 3
    → FitsCell {D = ℕ} (cell_of doubles (Column.int32 numbers) row) (Literal.int64 6)
unfolding FitsCell cell_of IsInt32 has_bit InnerColumn.is_not_null InnerColumn.get
numbers-FitsCell zero h = (omega arith, inl (omega arith))
numbers-FitsCell (suc zero) h = tt
numbers-FitsCell (suc (suc zero)) h = (omega arith, inl (omega arith))
numbers-FitsCell (suc (suc (suc row))) h = absurd (omega arith)

strings-FitsCell :
    (row : ℕ) (b : List ℕ)
    → FitsCell {D = ℕ} (cell_of doubles (Column.varchar strings) row) (Literal.string b)
unfolding FitsCell cell_of
strings-FitsCell row b = ground arith

statement-Fitting : (row : ℕ) → row < 3 → Fitting (row_of doubles table row) statement
unfolding Fitting make_and make_not row_of
statement-Fitting row h = (numbers-FitsCell row h, strings-FitsCell row (97 ∷ 37 ∷ []))

eval-means_example :
    Computes 3
      (λ row. means doubles (like_result regex) statement (row_of doubles table row))
      (eval turns (like_result regex) doubles statement table)
eval-means_example =
    eval-means doubles (like_result regex) turns 3 statement table turns-Schedule table-TableOf
      statement-WellTyped statement-Fitting

compare_column-fault_example :
    fault_of (
      compare_column turns
        (like_result regex)
        doubles
        (Column.int32 numbers)
        Op.like
        (Literal.int64 3))
    ≡ expected_fault {D = ℕ} (Column.int32 numbers) Op.like (Literal.int64 3)
compare_column-fault_example =
    compare_column-fault turns (like_result regex) doubles (Column.int32 numbers) Op.like
      (Literal.int64 3)

abbrev pub cache : Cache
cache = ((97 ∷ 37 ∷ []), (97 ∷ 46 ∷ 42 ∷ [])) ∷ []

pub cache-IsValid : IsValid regex cache
unfolding IsValid to_regex regex_of is_special
cache-IsValid = (refl, refl, tt)

like_match_lem_example :
    ((like_match regex (97 ∷ 98 ∷ []) (97 ∷ 37 ∷ []) cache).0
      ≡ like_result regex (97 ∷ 98 ∷ []) (97 ∷ 37 ∷ []))
    × IsValid regex (like_match regex (97 ∷ 98 ∷ []) (97 ∷ 37 ∷ []) cache).1
like_match_lem_example = like_match_lem regex (97 ∷ 98 ∷ []) (97 ∷ 37 ∷ []) cache cache-IsValid

numbers-IsBitmap : IsBitmap 1 numbers.bitmap
numbers-IsBitmap = (refl, λ i. small_bytes 5 i (omega arith))

push_back-Extends_example :
    Extends (int_cells 32) numbers (some 7) (InnerColumn.push_back (int_cells 32) numbers 7)
push_back-Extends_example = push_back-Extends (int_cells 32) numbers 7 numbers-IsBitmap

push_back_null-Extends_example :
    Extends (int_cells 32) numbers none (InnerColumn.push_back_null (int_cells 32) numbers)
push_back_null-Extends_example = push_back_null-Extends (int_cells 32) numbers numbers-IsBitmap

small_offsets : (j : ℕ) → get_or (2 ∷ 2 ∷ 3 ∷ []) j 0 ≤ 3
small_offsets zero = omega arith
small_offsets (suc zero) = omega arith
small_offsets (suc (suc zero)) = omega arith
small_offsets (suc (suc (suc j))) = omega arith

strings_begins : (i : ℕ) → begin_of strings.offsets i ≤ 3
unfolding begin_of
strings_begins i = elim (Bool-cases (i == 0)) [
  | inl first ↦ rw first (omega arith)
  | inr later ↦ rw later (small_offsets (i - 1))
]

strings-IsStrings : IsStrings strings
unfolding IsStrings begin_of
strings-IsStrings = ((refl, λ i. small_bytes 7 i (omega arith)), refl, refl, strings_begins)

push_back-ExtendsStrings_example :
    ExtendsStrings strings (some (98 ∷ [])) (Strings.push_back strings (98 ∷ []))
push_back-ExtendsStrings_example = push_back-ExtendsStrings strings (98 ∷ []) strings-IsStrings

push_back_null-ExtendsStrings_example : ExtendsStrings strings none (Strings.push_back_null strings)
push_back_null-ExtendsStrings_example = push_back_null-ExtendsStrings strings strings-IsStrings

begin_idx-OwnedOnce_example : OwnedOnce filter_tp 100 57
begin_idx-OwnedOnce_example = begin_idx-OwnedOnce filter_tp 100 57 pool_threads (omega arith)

bitmap_not_lem_example : bit_of (bitmap_not turns (5 ∷ [])) 1 ≡ not (bit_of (5 ∷ []) 1)
bitmap_not_lem_example =
    bitmap_not_lem turns 1 1 (5 ∷ []) turns-Schedule numbers-IsBitmap (omega arith)
