-- ===== src/Hashing.antt =====
-- include/hash_functions.h: the multiplicative hash that the tables use by default.
-- An `int32_t` is read as its 32-bit pattern.
use sigmod_runtime_engine.Base.{ℕ, ◌*◌, ◌<◌, ◌^◌, u32, u64, arith}

-- `Fibonacci32::operator()`.
pub fibonacci32 : ℕ → ℕ
fibonacci32 x = let v = u64 (u32 x) in u64 (v * 11400714819323198485)

pub fibonacci32-lt : (x : ℕ) → fibonacci32 x < 2 ^ 64
unfolding fibonacci32
fibonacci32-lt x = omega arith
