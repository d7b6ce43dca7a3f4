-- ===== src/Statement.antt =====
-- Filter statements (include/statement.h): the syntax tree, the values and the errors.
pub mod Like
pub mod Table
pub mod Record
pub mod Bitmaps
pub mod Truth
pub mod Faults
pub mod Agreement
pub mod Meaning
use sigmod_runtime_engine.Base.{
  ℕ, zero, suc, ◌+◌, ◌-◌, ◌*◌, ◌/◌, ◌%◌, ◌^◌, ◌≤◌, ◌<◌, min, max, bit_and, bit_or, ◌≡◌, refl, sym,
  ap, ◌∙◌, ◌≢◌, ◌↔◌, ◌⊎◌, inl, inr, Bool, true, false, not, ◌&&◌, ◌||◌, Option, none, some, List,
  [], ◌∷◌, ◌++◌, map, arith, ltb, leb, ◌==◌, if◌then◌else◌, ltb→lt, ltb→le, lt→ltb, le→ltb, ==→eq,
  ==→ne, ==_refl, ne→==, Bool-cases, Option-cases, length, get_or, get_elem?, set, replicate,
  select, length-append, length-set, length-replicate, get_or-replicate, get_or-replicate_self,
  get_or-set_self, get_or-set_ne, get_or-append_left, get_or-append_right, select-append,
  select-select, select_hit, select_miss, u8, u16, u32, u64, shl, shr,
}
use sigmod_runtime_engine.InnerColumn.{CellType}

-- What the code uses of `double`: the comparisons and the conversions from integers, which are
-- given as the bit patterns of their width.
pub record DoubleType (D : Type 0) : Type 0 where
  pub cells : CellType D
  pub of_int32 : ℕ → D
  pub of_int64 : ℕ → D

pub data Data (D : Type 0) : Type 0 where
  int32 : ℕ → Data D
  int64 : ℕ → Data D
  fp64 : D → Data D
  string : List ℕ → Data D
  monostate : Data D

pub data Literal (D : Type 0) : Type 0 where
  int64 : ℕ → Literal D
  fp64 : D → Literal D
  string : List ℕ → Literal D
  monostate : Literal D

pub data Op : Type 0 where
  eq neq lt gt leq geq like not_like is_null is_not_null : Op

pub data LogicalType : Type 0 where
  and or not_of : LogicalType

mutual
  pub data Statement (D : Type 0) : Type 0 where
    comparison : ℕ → Op → Literal D → Statement D
    logical : LogicalType → Children D → Statement D

  pub data Children (D : Type 0) : Type 0 where
    end : Children D
    child : Statement D → Children D → Children D

module _ {D : Type 0} where
  unfoldable pub make_and : Statement D → Statement D → Statement D
  make_and l r = logical LogicalType.and (child l (child r end))

  unfoldable pub make_or : Statement D → Statement D → Statement D
  make_or l r = logical LogicalType.or (child l (child r end))

  unfoldable pub make_not : Statement D → Statement D
  make_not operand = logical LogicalType.not_of (child operand end)

-- How an evaluation leaves the defined behaviour: `std::get` throws, `unreachable()` is called, an
-- index is not in the vector, an assertion does not hold.
pub data Fault : Type 0 where
  bad_variant_access unreachable out_of_range assertion : Fault

pub data Result {ℓ} (A : Type ℓ) : Type ℓ where
  ok : A → Result A
  fault : Fault → Result A

infixl 5 ◌>>=◌
abbrev pub ◌>>=◌ {ℓ κ} : {A : Type ℓ} {B : Type κ} → Result A → (A → Result B) → Result B
ok a >>= f = f a
fault e >>= f = fault e

-- `v[i]`.
abbrev pub at_index {ℓ} : {A : Type ℓ} → List A → ℕ → Result A
at_index [] i = fault Fault.out_of_range
at_index (x ∷ xs) zero = ok x
at_index (x ∷ xs) (suc i) = at_index xs i

-- `<` of two's complement integers: the sign bit is flipped.
abbrev pub signed_less : ℕ → ℕ → ℕ → Bool
signed_less width a b =
    let half = 2 ^ (width - 1) in ltb ((a + half) % 2 ^ width) ((b + half) % 2 ^ width)

-- The comparisons of `int32_t` and of `int64_t`.
abbrev pub int_cells : ℕ → CellType ℕ
int_cells width = record {
  initial = 0;
  lt = signed_less width;
  gt = λ a b. signed_less width b a;
  le = λ a b. not (signed_less width b a);
  ge = λ a b. not (signed_less width a b);
  eq = λ a b. a == b;
  ne = λ a b. not (a == b);
}
