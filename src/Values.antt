-- ===== src/Values.antt =====
-- include/late_materialization.h: the 64-bit words that intermediate results are made of, and the
-- packed references to strings. An `int32_t` is its 32-bit pattern.
use sigmod_runtime_engine.Base.{
  ℕ, ◌+◌, ◌-◌, ◌*◌, ◌^◌, ◌<◌, ◌≡◌, refl, ◌↔◌, Bool, true, arith, ltb, ◌==◌, if◌then◌else◌, u8, u16,
  u32, shr,
}

-- `PackedStringRef`: the bit fields, from the lowest up.
pub record Parts : Type 0 where
  pub slot_idx : ℕ
  pub page_idx : ℕ
  pub col_id : ℕ
  pub table_id : ℕ

-- The constructor from four parts; each assignment keeps the bits of its field.
unfoldable pub pack : ℕ → ℕ → ℕ → ℕ → ℕ
pack tid cid pid sid = u16 sid + 2 ^ 16 * u32 pid + 2 ^ 48 * u8 cid + 2 ^ 56 * u8 tid

-- `unpack`, and the `parts` of the result.
unfoldable pub unpack : ℕ → Parts
unpack raw = record {
  slot_idx = u16 raw;
  page_idx = u32 (shr raw 16);
  col_id = u8 (shr raw 48);
  table_id = u8 (shr raw 56);
}

-- `UINT64_MAX`.
abbrev pub null : ℕ
null = 2 ^ 64 - 1

-- `value_t::make_i32`: the sign is extended to 64 bits.
unfoldable pub make_i32 : ℕ → ℕ
make_i32 v = if ltb v (2 ^ 31) then v else v + (2 ^ 64 - 2 ^ 32)

-- `value_t::make_str_ref`.
pub make_str_ref : ℕ → ℕ → ℕ → ℕ → ℕ
make_str_ref t c p s = pack t c p s

-- `value_t::make_null`, `is_null`, `as_i32` and `as_ref`.
unfoldable pub make_null : ℕ
make_null = null

unfoldable pub is_null : ℕ → Bool
is_null raw = raw == null

unfoldable pub as_i32 : ℕ → ℕ
as_i32 raw = u32 raw

pub as_ref : ℕ → ℕ
as_ref raw = raw

-- Packing the parts of a 64-bit reference gives the reference back.
pub pack-unpack :
    (raw : ℕ)
    → raw < 2 ^ 64
    → let p = unpack raw in pack p.table_id p.col_id p.page_idx p.slot_idx ≡ raw
unfolding pack unpack
pack-unpack raw h = omega arith

-- Four parts that fit their fields are the parts of what they are packed into.
pub unpack-pack :
    (tid cid pid sid : ℕ)
    → tid < 2 ^ 8
    → cid < 2 ^ 8
    → pid < 2 ^ 32
    → sid < 2 ^ 16
    → unpack (pack tid cid pid sid)
      ≡ record { slot_idx = sid; page_idx = pid; col_id = cid; table_id = tid }
unfolding pack unpack
unpack-pack tid cid pid sid a b c d = ground arith

-- Exactly the 32-bit integers other than -1 come back from a word and are told from NULL: the word
-- of -1 is that of NULL.
pub make_i32-is_null :
    (v : ℕ)
    → v < 2 ^ 32
    → (as_i32 (make_i32 v) ≡ v)
      × ((is_null (make_i32 v) ≡ true) ↔ (v ≡ 2 ^ 32 - 1))
      × (make_i32 (2 ^ 32 - 1) ≡ make_null)
unfolding make_i32 make_null is_null as_i32
make_i32-is_null v h = (ground arith, ground arith, refl)

-- A packed reference is taken for NULL exactly if all its fields have their largest values.
pub make_str_ref-is_null :
    (t c p s : ℕ)
    → t < 2 ^ 8
    → c < 2 ^ 8
    → p < 2 ^ 32
    → s < 2 ^ 16
    → (is_null (make_str_ref t c p s) ≡ true)
      ↔ ((t ≡ 2 ^ 8 - 1) × (c ≡ 2 ^ 8 - 1) × (p ≡ 2 ^ 32 - 1) × (s ≡ 2 ^ 16 - 1))
unfolding make_str_ref is_null pack
make_str_ref-is_null t c p s ht hc hp hs = ground arith
