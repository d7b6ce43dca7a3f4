-- ===== src/Bloom/Popcount.antt =====
-- `popcount` counts the bits that are set.
use native.Mathlib.Nat.{pow-suc}
use sigmod_runtime_engine.Base.{
  ℕ, zero, suc, ◌+◌, ◌-◌, ◌*◌, ◌/◌, ◌%◌, ◌^◌, ◌<◌, ◌≤◌, bit_and, some, ◌≡◌, refl, arith, u32, inl,
  inr, Bool-cases, ◌==◌, ==→eq, ==→ne,
}
use sigmod_runtime_engine.Bits.{bit_and-le, clear_lowest_even, clear_lowest_odd}
use sigmod_runtime_engine.Bloom.{count_loop, popcount}

-- How many of the low `k` bits of `x` are set.
pub ones : ℕ → ℕ → ℕ
ones zero x = 0
ones (suc k) x = x % 2 + ones k (x / 2)

ones-le : (k x : ℕ) → ones k x ≤ k
unfolding ones
ones-le zero x = omega arith
ones-le (suc k) x = omega (arith, ones-le k (x / 2))

-- Clearing the lowest set bit leaves one bit less.
ones_clear : (k x : ℕ) → x < 2 ^ k → 0 < x → ones k (bit_and x (x - 1)) + 1 ≡ ones k x
unfolding ones
ones_clear zero x h pos = absurd (omega arith)
ones_clear (suc k) x h pos =
    let y : ℕ = x / 2 in
    let two = pow-suc 2 k in
    elim (Bool-cases (x % 2 == 0)) [
      | inl even ↦
          let is_even : x % 2 ≡ 0 = ==→eq _ _ even in
          let whole : x ≡ 2 * y = omega arith in
          let cleared = rw (← whole) at (clear_lowest_even y (omega arith)) in
          let half : bit_and x (x - 1) / 2 ≡ bit_and y (y - 1) = omega arith in
          rw half (omega (arith, ones_clear k y (omega arith) (omega arith)))
      | inr odd ↦
          let is_odd = ==→ne _ _ odd in
          let whole : x ≡ 2 * y + 1 = omega arith in
          let cleared = rw (← whole) at (clear_lowest_odd y) in
          let half : bit_and x (x - 1) / 2 ≡ y = omega arith in rw half (omega arith)
    ]

ones-zero : (k : ℕ) → ones k 0 ≡ 0
unfolding ones
ones-zero zero = refl
ones-zero (suc k) = omega (arith, ones-zero k)

count_loop-ones :
    (fuel k x c : ℕ)
    → x < 2 ^ k
    → ones k x < fuel
    → c + ones k x < 2 ^ 32
    → count_loop fuel x c ≡ some (c + ones k x)
unfolding count_loop
count_loop-ones zero k x c h f w = absurd (omega arith)
count_loop-ones (suc fuel) k x c h f w = elim (Bool-cases (x == 0)) [
  | inl done ↦
      let nothing : x ≡ 0 = ==→eq _ _ done in rw (done, nothing, ones-zero k) (ground arith)
  | inr more ↦
      let some_bit = ==→ne _ _ more in
      let fewer = ones_clear k x h (omega arith) in
      let smaller = bit_and-le x (x - 1) in
      let rest =
        count_loop-ones fuel k (bit_and x (x - 1)) (u32 (c + 1)) (omega arith) (omega arith)
          (omega arith) in
      ground (arith, more, rest, fewer)
]

-- The loop of every table entry ends within its fuel, and the entry is the number of set bits.
pub popcount-ones : (x : ℕ) → x < 2 ^ 16 → popcount x ≡ some (ones 16 x)
unfolding popcount
popcount-ones x h =
    let few = ones-le 16 x in
    ground (arith, count_loop-ones 17 16 x 0 h (omega arith) (omega arith))
