-- ===== src/Statement/Record.antt =====
-- The evaluation of a statement on a record of values: src/statement.cpp.
use sigmod_runtime_engine.Base.{ℕ, Bool, true, false, not, Option, none, some, List, [], ◌∷◌}
use sigmod_runtime_engine.InnerColumn.Strings.{string_less, string_equal}
use sigmod_runtime_engine.Statement.{
  DoubleType, Data, Literal, Op, LogicalType, Statement, comparison, logical, Children, end, child,
  Result, ok, fault, ◌>>=◌, at_index,
}

-- The switch on two strings.
unfoldable pub compare_texts : Op → List ℕ → List ℕ → Bool
compare_texts Op.eq a b = string_equal a b
compare_texts Op.neq a b = not (string_equal a b)
compare_texts Op.lt a b = string_less a b
compare_texts Op.gt a b = string_less b a
compare_texts Op.leq a b = not (string_less b a)
compare_texts Op.geq a b = not (string_less a b)
compare_texts other a b = false

-- The loops of AND and OR over what the children give; they stop at the first that decides.
abbrev pub all_true : List (Result Bool) → Result Bool
all_true [] = ok true
all_true (fault e ∷ rest) = fault e
all_true (ok false ∷ rest) = ok false
all_true (ok true ∷ rest) = all_true rest

abbrev pub any_true : List (Result Bool) → Result Bool
any_true [] = ok false
any_true (fault e ∷ rest) = fault e
any_true (ok true ∷ rest) = ok true
any_true (ok false ∷ rest) = any_true rest

-- NOT of one child; of any other number it is false.
abbrev pub not_only : List (Result Bool) → Result Bool
not_only [] = ok false
not_only (r ∷ []) = r >>= λ v. ok (not v)
not_only (r ∷ s ∷ rest) = ok false

module _ {D : Type 0} where
  -- `std::get_if<std::string>`.
  abbrev pub data_string : Data D → Option (List ℕ)
  data_string (Data.string v) = some v
  data_string other = none

  abbrev pub literal_string : Literal D → Option (List ℕ)
  literal_string (Literal.string v) = some v
  literal_string other = none

  -- `std::holds_alternative<std::monostate>`.
  abbrev pub holds_monostate : Data D → Bool
  holds_monostate Data.monostate = true
  holds_monostate other = false

  module _ (doubles : DoubleType D) where
    -- The two overloads of get_numeric_value.
    unfoldable pub data_number : Data D → Option D
    data_number (Data.int32 v) = some (doubles.of_int32 v)
    data_number (Data.int64 v) = some (doubles.of_int64 v)
    data_number (Data.fp64 v) = some v
    data_number other = none

    unfoldable pub literal_number : Literal D → Option D
    literal_number (Literal.int64 v) = some (doubles.of_int64 v)
    literal_number (Literal.fp64 v) = some v
    literal_number other = none

    -- The switch on two numbers.
    unfoldable pub compare_doubles : Op → D → D → Bool
    compare_doubles Op.eq a b = doubles.cells.eq a b
    compare_doubles Op.neq a b = doubles.cells.ne a b
    compare_doubles Op.lt a b = doubles.cells.lt a b
    compare_doubles Op.gt a b = doubles.cells.gt a b
    compare_doubles Op.leq a b = doubles.cells.le a b
    compare_doubles Op.geq a b = doubles.cells.ge a b
    compare_doubles other a b = false

  module _ (doubles : DoubleType D) (like_match : List ℕ → List ℕ → Bool) where
    unfoldable pub like_texts : Data D → Literal D → (Bool → Bool) → Bool
    like_texts (Data.string a) (Literal.string b) sign = sign (like_match a b)
    like_texts a b sign = false

    unfoldable pub compare_strings : Op → Option (List ℕ) → Option (List ℕ) → Bool
    compare_strings op (some a) (some b) = compare_texts op a b
    compare_strings op (some a) none = false
    compare_strings op none b = false

    unfoldable pub compare_numbers : Op → Option D → Option D → Bool → Bool
    compare_numbers op (some a) (some b) other = compare_doubles doubles op a b
    compare_numbers op (some a) none other = other
    compare_numbers op none b other = other

    -- Comparison::eval on the value of the record's column.
    unfoldable pub compare_data : Data D → Op → Literal D → Bool
    compare_data a Op.is_null b = holds_monostate a
    compare_data a Op.is_not_null b = not (holds_monostate a)
    compare_data a Op.like b = like_texts a b (λ matched. matched)
    compare_data a Op.not_like b = like_texts a b not
    compare_data a op b =
        compare_numbers op (data_number doubles a) (literal_number doubles b)
          (compare_strings op (data_string a) (literal_string b))

  module _ (doubles : DoubleType D) (like_match : List ℕ → List ℕ → Bool) where
    unfoldable mutual
      -- Statement::eval on a record.
      pub eval : Statement D → List (Data D) → Result Bool
      eval (comparison column op value) record_data =
          at_index record_data column >>= λ a. ok (compare_data doubles like_match a op value)
      eval (logical LogicalType.and children) record_data =
          all_true (eval_children children record_data)
      eval (logical LogicalType.or children) record_data =
          any_true (eval_children children record_data)
      eval (logical LogicalType.not_of children) record_data =
          not_only (eval_children children record_data)

      pub eval_children : Children D → List (Data D) → List (Result Bool)
      eval_children end record_data = []
      eval_children (child s rest) record_data = eval s record_data ∷ eval_children rest record_data
