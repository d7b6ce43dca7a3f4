-- ===== src/Bitmap.antt =====
-- Bitmaps of include/inner_column.h and src/statement.cpp: vectors of bytes with one bit for a row.
pub mod Digits
pub mod Rows
pub mod Push
use sigmod_runtime_engine.Base.{
  ℕ, zero, suc, ◌+◌, ◌-◌, ◌*◌, ◌/◌, ◌%◌, ◌^◌, ◌≤◌, ◌<◌, min, max, bit_and, bit_or, ◌≡◌, refl, sym,
  ap, ◌∙◌, ◌≢◌, ◌↔◌, ◌⊎◌, inl, inr, Bool, true, false, not, ◌&&◌, ◌||◌, Option, none, some, List,
  [], ◌∷◌, ◌++◌, map, arith, ltb, leb, ◌==◌, if◌then◌else◌, ltb→lt, ltb→le, lt→ltb, le→ltb, ==→eq,
  ==→ne, ==_refl, ne→==, Bool-cases, Option-cases, length, get_or, get_elem?, set, replicate,
  select, length-append, length-set, length-replicate, get_or-replicate, get_or-replicate_self,
  get_or-set_self, get_or-set_ne, get_or-append_left, get_or-append_right, select-append,
  select-select, select_hit, select_miss, u8, u16, u32, u64, shl, shr,
}

-- `byte & (0x1 << bit)`, as a condition.
unfoldable pub has_bit : ℕ → ℕ → Bool
has_bit byte bit = not (bit_and byte (shl 1 bit) == 0)

-- The bit of row `idx`.
unfoldable pub bit_of : List ℕ → ℕ → Bool
bit_of bitmap idx = has_bit (get_or bitmap (idx / 8) 0) (idx % 8)

-- `~byte`, cut to eight bits.
unfoldable pub complement : ℕ → ℕ
complement byte = 255 - byte
