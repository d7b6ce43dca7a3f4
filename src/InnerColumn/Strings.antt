-- ===== src/InnerColumn/Strings.antt =====
-- The string columns that filters read: InnerColumn<std::string> of include/inner_column.h.
use sigmod_runtime_engine.Base.{
  ℕ, zero, suc, ◌+◌, ◌-◌, ◌*◌, ◌/◌, ◌%◌, bit_and, bit_or, Bool, true, false, not, ◌&&◌, List, [],
  ◌∷◌, ◌++◌, ltb, leb, ◌==◌, if◌then◌else◌, length, get_or, set, replicate, u8, shl,
}
use sigmod_runtime_engine.Bitmap.{has_bit, complement}
use sigmod_runtime_engine.Bitmap.Rows.{flag}
use sigmod_runtime_engine.FilterThreadPool.{filter_tp, run}

-- Strings are their bytes, and `<` compares the first bytes that differ.
abbrev pub string_less : List ℕ → List ℕ → Bool
string_less [] [] = false
string_less [] (y ∷ ys) = true
string_less (x ∷ xs) [] = false
string_less (x ∷ xs) (y ∷ ys) =
    let rest = string_less xs ys in if ltb x y then true else if ltb y x then false else rest

abbrev pub string_equal : List ℕ → List ℕ → Bool
string_equal [] [] = true
string_equal [] (y ∷ ys) = false
string_equal (x ∷ xs) [] = false
string_equal (x ∷ xs) (y ∷ ys) = (x == y) && string_equal xs ys

-- `count` bytes from `begin` on.
abbrev pub substring : List ℕ → ℕ → ℕ → List ℕ
substring chars begin zero = []
substring chars begin (suc count) = get_or chars begin 0 ∷ substring chars (suc begin) count

pub record StringColumn : Type 0 where
  pub chars : List ℕ
  pub offsets : List ℕ
  pub bitmap : List ℕ
  pub row : ℕ

unfoldable pub bitmap_push_back : StringColumn → Bool → StringColumn
bitmap_push_back c not_null =
    let byte_idx = c.row / 8 in
    let bit_idx = c.row % 8 in
    let old = get_or c.bitmap byte_idx 0 in
    let byte =
      if not_null
      then u8 (bit_or old (shl 1 bit_idx))
      else bit_and old (complement (shl 1 bit_idx)) in
    let bitmap =
      if ltb (length c.bitmap) (c.row / 8 + 1)
      then c.bitmap ++ ((if not_null then 1 else 0) ∷ [])
      else set c.bitmap byte_idx byte in
    record { chars = c.chars; offsets = c.offsets; bitmap = bitmap; row = c.row + 1 }

unfoldable pub push_back : StringColumn → List ℕ → StringColumn
push_back c value =
    let chars = c.chars ++ value in
    let offsets = c.offsets ++ (length chars ∷ []) in
    bitmap_push_back (record { chars = chars; offsets = offsets; bitmap = c.bitmap; row = c.row })
      true

unfoldable pub push_back_null : StringColumn → StringColumn
push_back_null c =
    let offsets = c.offsets ++ (length c.chars ∷ []) in
    bitmap_push_back (record { chars = c.chars; offsets = offsets; bitmap = c.bitmap; row = c.row })
      false

unfoldable pub is_not_null : StringColumn → ℕ → Bool
is_not_null c idx =
    let byte_idx = idx / 8 in let bit_idx = idx % 8 in has_bit (get_or c.bitmap byte_idx 0) bit_idx

unfoldable pub get : StringColumn → ℕ → List ℕ
get c idx =
    let begin = if idx == 0 then 0 else get_or c.offsets (idx - 1) 0 in
    let end = get_or c.offsets idx 0 in substring c.chars begin (end - begin)

-- The loop over the bits of a byte, from `bit_idx` on; `left` bits are left.
unfoldable pub fill_byte : (List ℕ → Bool) → StringColumn → ℕ → ℕ → ℕ → List ℕ → List ℕ
fill_byte test c byte_idx bit_idx zero ret = ret
fill_byte test c byte_idx bit_idx (suc left) ret =
    let i = byte_idx * 8 + bit_idx in
    let non_null = has_bit (get_or c.bitmap byte_idx 0) bit_idx in
    let begin = if i == 0 then 0 else get_or c.offsets (i - 1) 0 in
    let end = get_or c.offsets i 0 in
    let value = substring c.chars begin (end - begin) in
    let byte = u8 (bit_or (get_or ret byte_idx 0) (shl (flag (non_null && test value)) bit_idx)) in
    let rest = fill_byte test c byte_idx (bit_idx + 1) left (set ret byte_idx byte) in
    if leb c.row i then ret else rest

-- The loop over `count` bytes from `byte_idx` on.
unfoldable pub fill_bytes : (List ℕ → Bool) → StringColumn → ℕ → ℕ → List ℕ → List ℕ
fill_bytes test c byte_idx zero ret = ret
fill_bytes test c byte_idx (suc count) ret =
    fill_bytes test c (byte_idx + 1) count (fill_byte test c byte_idx 0 8 ret)

-- The tasks of a comparison on the pool's threads, which take effect in the order `turns`.
module _ (turns : List ℕ) where
  unfoldable pub run_rows : StringColumn → (List ℕ → Bool) → List ℕ
  run_rows c test =
      let task : ℕ → ℕ → List ℕ → List ℕ =
        λ byte_begin byte_end ret. fill_bytes test c byte_begin (byte_end - byte_begin) ret in
      run filter_tp turns task ((c.row + 7) / 8) (replicate (length c.bitmap) 0)

  unfoldable pub less : StringColumn → List ℕ → List ℕ
  less c rhs = run_rows c (λ value. string_less value rhs)

  unfoldable pub greater : StringColumn → List ℕ → List ℕ
  greater c rhs = run_rows c (λ value. string_less rhs value)

  unfoldable pub less_equal : StringColumn → List ℕ → List ℕ
  less_equal c rhs = run_rows c (λ value. not (string_less rhs value))

  unfoldable pub greater_equal : StringColumn → List ℕ → List ℕ
  greater_equal c rhs = run_rows c (λ value. not (string_less value rhs))

  unfoldable pub equal : StringColumn → List ℕ → List ℕ
  equal c rhs = run_rows c (λ value. string_equal value rhs)

  unfoldable pub not_equal : StringColumn → List ℕ → List ℕ
  not_equal c rhs = run_rows c (λ value. not (string_equal value rhs))

  unfoldable pub like : (List ℕ → List ℕ → Bool) → StringColumn → List ℕ → List ℕ
  like like_match c rhs = run_rows c (λ value. like_match value rhs)

  unfoldable pub not_like : (List ℕ → List ℕ → Bool) → StringColumn → List ℕ → List ℕ
  not_like like_match c rhs = run_rows c (λ value. not (like_match value rhs))
