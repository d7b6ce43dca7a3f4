-- ===== src/Bloom.antt =====
-- include/bloom_filter.h: 16-bit filters, the tag of a hash, and the population count.
pub mod Laws
pub mod Membership
pub mod Popcount
use mathlib.Core.Option
use sigmod_runtime_engine.Base.{
  ℕ, zero, suc, ◌+◌, ◌-◌, bit_and, bit_or, Bool, Option, none, some, ◌==◌, if◌then◌else◌, u8, u16,
  u32, shl, shr,
}

-- `make_tag_from_hash`.
unfoldable pub make_tag_from_hash : ℕ → ℕ
make_tag_from_hash h =
    let b1 = u16 (bit_and (shr h 4) 0xf) in
    let b2 = u16 (bit_and (shr h 12) 0xf) in
    let b3 = u16 (bit_and (shr h 20) 0xf) in
    let b4 = u16 (bit_and (shr h 28) 0xf) in
    u16
      (bit_or (bit_or (bit_or (u32 (shl 1 b1)) (u32 (shl 1 b2))) (u32 (shl 1 b3))) (u32 (shl 1 b4)))

-- `maybe_contains`.
unfoldable pub maybe_contains : ℕ → ℕ → Bool
maybe_contains bloom tag = bit_and bloom tag == tag

-- The loop of `make_popcount_table` for one entry; `none` means that the fuel ran out.
pub count_loop : ℕ → ℕ → ℕ → Option ℕ
count_loop zero x c = none
count_loop (suc fuel) x c =
    let rest = count_loop fuel (bit_and x (x - 1)) (u32 (c + 1)) in if x == 0 then some c else rest

-- Entry `bloom` of `POPCOUNT16`, which `popcount` looks up. A 16-bit number takes 16 rounds at most.
pub popcount : ℕ → Option ℕ
popcount bloom = Option.map u8 (count_loop 17 bloom 0)
