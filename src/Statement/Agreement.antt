-- ===== src/Statement/Agreement.antt =====
-- The two evaluations agree: on columns row by row, and on the row as a record of values.
pub mod Statements
use sigmod_runtime_engine.Base.{
  ℕ, zero, suc, ◌+◌, ◌-◌, ◌*◌, ◌/◌, ◌%◌, ◌^◌, ◌≤◌, ◌<◌, min, max, bit_and, bit_or, ◌≡◌, refl, sym,
  ap, ◌∙◌, ◌≢◌, ◌↔◌, ◌⊎◌, inl, inr, Bool, true, false, not, ◌&&◌, ◌||◌, Option, none, some, List,
  [], ◌∷◌, ◌++◌, map, arith, ltb, leb, ◌==◌, if◌then◌else◌, ltb→lt, ltb→le, lt→ltb, le→ltb, ==→eq,
  ==→ne, ==_refl, ne→==, Bool-cases, Option-cases, length, get_or, get_elem?, set, replicate,
  select, length-append, length-set, length-replicate, get_or-replicate, get_or-replicate_self,
  get_or-set_self, get_or-set_ne, get_or-append_left, get_or-append_right, select-append,
  select-select, select_hit, select_miss, u8, u16, u32, u64, shl, shr,
}
use sigmod_runtime_engine.InnerColumn.{CellType}
use sigmod_runtime_engine.Statement.{
  DoubleType, Data, Literal, Op, LogicalType, Statement, comparison, logical, Children, end, child,
  Result, ok, fault, ◌>>=◌, at_index, int_cells, signed_less,
}
use sigmod_runtime_engine.Statement.Record.{
  holds_monostate, data_string, literal_string, data_number, literal_number, compare_doubles,
  compare_texts, like_texts, compare_strings, compare_numbers, compare_data, all_true, any_true,
  not_only, eval, eval_children,
}
use sigmod_runtime_engine.Statement.Truth.{
  holds, text_holds, is_order, is_null_test, null_says, is_monostate, compares, data_truth, truth,
}

-- `int32_t` as `int64_t`.
unfoldable pub sign_extend : ℕ → ℕ
sign_extend a = if ltb a (2 ^ 31) then a else a + (2 ^ 64 - 2 ^ 32)

-- Integers that `int32_t` holds, and those that a double holds exactly.
unfoldable pub IsInt32 : ℕ → Type 0
IsInt32 b = (b < 2 ^ 31) ⊎ ((2 ^ 64 - 2 ^ 31 ≤ b) × (b < 2 ^ 64))

unfoldable pub IsSmall : ℕ → Type 0
IsSmall b = (b ≤ 2 ^ 53) ⊎ ((2 ^ 64 - 2 ^ 53 ≤ b) × (b < 2 ^ 64))

less_extended :
    (a b : ℕ) → a < 2 ^ 32 → IsInt32 b → signed_less 64 (sign_extend a) b ≡ signed_less 32 a (u32 b)
unfolding sign_extend IsInt32
less_extended a b h l = ground arith

extended_less :
    (a b : ℕ) → a < 2 ^ 32 → IsInt32 b → signed_less 64 b (sign_extend a) ≡ signed_less 32 (u32 b) a
unfolding sign_extend IsInt32
extended_less a b h l = ground arith

equal_extended : (a b : ℕ) → a < 2 ^ 32 → IsInt32 b → (sign_extend a == b) ≡ (a == u32 b)
unfolding sign_extend IsInt32
equal_extended a b h l = ground arith

pub holds_extended :
    (op : Op) (a b : ℕ)
    → a < 2 ^ 32
    → IsInt32 b
    → holds (int_cells 64) op (sign_extend a) b ≡ holds (int_cells 32) op a (u32 b)
unfolding holds
holds_extended Op.eq a b h l = equal_extended a b h l
holds_extended Op.neq a b h l = ap not (equal_extended a b h l)
holds_extended Op.lt a b h l = less_extended a b h l
holds_extended Op.gt a b h l = extended_less a b h l
holds_extended Op.leq a b h l = ap not (extended_less a b h l)
holds_extended Op.geq a b h l = ap not (less_extended a b h l)
holds_extended Op.like a b h l = refl
holds_extended Op.not_like a b h l = refl
holds_extended Op.is_null a b h l = refl
holds_extended Op.is_not_null a b h l = refl

-- What is documented of the conversions: an `int32_t` converts as the `int64_t` that it promotes to,
-- and integers up to 2^53 compare after the conversion as they did before.
pub record ExactDoubles {D : Type 0} (doubles : DoubleType D) : Type 0 where
  pub of_int32-of_int64 :
      (a : ℕ) → a < 2 ^ 32 → doubles.of_int32 a ≡ doubles.of_int64 (sign_extend a)
  pub holds-of_int64 :
      (op : Op) (a b : ℕ)
      → IsSmall a
      → IsSmall b
      → holds doubles.cells op (doubles.of_int64 a) (doubles.of_int64 b)
        ≡ holds (int_cells 64) op a b

module _ {D : Type 0} (doubles : DoubleType D) where
  compare_doubles_lem :
      (op : Op) (a b : D) → compare_doubles doubles op a b ≡ holds doubles.cells op a b
  unfolding compare_doubles holds
  compare_doubles_lem Op.eq a b = refl
  compare_doubles_lem Op.neq a b = refl
  compare_doubles_lem Op.lt a b = refl
  compare_doubles_lem Op.gt a b = refl
  compare_doubles_lem Op.leq a b = refl
  compare_doubles_lem Op.geq a b = refl
  compare_doubles_lem Op.like a b = refl
  compare_doubles_lem Op.not_like a b = refl
  compare_doubles_lem Op.is_null a b = refl
  compare_doubles_lem Op.is_not_null a b = refl

  -- Values and literals whose comparison as doubles loses nothing.
  unfoldable pub InRange : Data D → Literal D → Type 0
  InRange (Data.int32 a) (Literal.int64 b) = (a < 2 ^ 32) × IsInt32 b
  InRange (Data.int64 a) (Literal.int64 b) = IsSmall a × IsSmall b
  InRange (Data.int32 a) (Literal.fp64 b) = ⊥
  InRange (Data.int64 a) (Literal.fp64 b) = ⊥
  InRange (Data.fp64 a) (Literal.int64 b) = ⊥
  InRange a b = Unit

  module _ (exact : ExactDoubles doubles) (like_match : List ℕ → List ℕ → Bool) where
    holds_int32 :
        (op : Op) (a b : ℕ)
        → a < 2 ^ 32
        → IsInt32 b
        → holds doubles.cells op (doubles.of_int32 a) (doubles.of_int64 b)
          ≡ holds (int_cells 32) op a (u32 b)
    unfolding IsInt32 IsSmall sign_extend
    holds_int32 op a b h l =
        let small : IsSmall (sign_extend a) = ground arith in
        let small_b : IsSmall b = ground arith in
        ap (λ x. holds doubles.cells op x (doubles.of_int64 b)) (exact.of_int32-of_int64 a h)
        ∙ exact.holds-of_int64 op (sign_extend a) b small small_b
        ∙ holds_extended op a b h l

    like_texts_lem :
        (a : Data D) (b : Literal D)
        → like_texts doubles like_match a b (λ matched. matched)
          ≡ compares doubles like_match Op.like a b
    unfolding like_texts compares text_holds holds
    like_texts_lem a b = ground arith

    not_like_texts_lem :
        (a : Data D) (b : Literal D)
        → like_texts doubles like_match a b not ≡ compares doubles like_match Op.not_like a b
    unfolding like_texts compares text_holds holds
    not_like_texts_lem a b = ground arith

    texts_lem :
        (op : Op) (a b : List ℕ)
        → is_order op ≡ true
        → compare_texts op a b ≡ text_holds like_match op a b
    unfolding compare_texts text_holds
    texts_lem op a b h = ground arith

    order_lem :
        (op : Op) (a : Data D) (b : Literal D)
        → is_order op ≡ true
        → InRange a b
        → compare_numbers doubles like_match op
            (data_number doubles a)
            (literal_number doubles b)
            (compare_strings doubles like_match op (data_string a) (literal_string b))
          ≡ compares doubles like_match op a b
    unfolding compare_numbers data_number literal_number compare_strings compares InRange
    order_lem op (Data.int32 a) (Literal.int64 b) h range =
        compare_doubles_lem op (doubles.of_int32 a) (doubles.of_int64 b)
        ∙ holds_int32 op a b range.0 range.1
    order_lem op (Data.int64 a) (Literal.int64 b) h range =
        compare_doubles_lem op (doubles.of_int64 a) (doubles.of_int64 b)
        ∙ exact.holds-of_int64 op a b range.0 range.1
    order_lem op (Data.fp64 a) (Literal.fp64 b) h range = compare_doubles_lem op a b
    order_lem op (Data.string a) (Literal.string b) h range = texts_lem op a b h
    order_lem op a b h range = ground arith

    pub compare_data_lem :
        (op : Op) (a : Data D) (b : Literal D)
        → InRange a b
        → compare_data doubles like_match a op b ≡ data_truth doubles like_match a op b
    unfolding compare_data data_truth null_says
    compare_data_lem Op.is_null a b range = ground arith
    compare_data_lem Op.is_not_null a b range = ground arith
    compare_data_lem Op.like a b range = like_texts_lem a b
    compare_data_lem Op.not_like a b range = not_like_texts_lem a b
    compare_data_lem Op.eq a b range = order_lem Op.eq a b refl range
    compare_data_lem Op.neq a b range = order_lem Op.neq a b refl range
    compare_data_lem Op.lt a b range = order_lem Op.lt a b refl range
    compare_data_lem Op.gt a b range = order_lem Op.gt a b refl range
    compare_data_lem Op.leq a b range = order_lem Op.leq a b refl range
    compare_data_lem Op.geq a b range = order_lem Op.geq a b refl range
