-- ===== src/Bits/Digits.antt =====
-- The lowest binary digit of `&` and `|`, from the digit recursion that the native operations mean.
use Prim.Native.Nat.{digits, bit_and, bit_or, bit_and-bitwise, bit_or-bitwise}
use sigmod_runtime_engine.Base.{
  ℕ, zero, suc, ◌+◌, ◌-◌, ◌*◌, ◌/◌, ◌%◌, ◌≤◌, min, max, ◌≡◌, refl, ◌∙◌, arith,
}

module _ (rest : ℕ → ℕ) (digit : ℕ → ℕ → ℕ) where
  -- One more unit of fuel than the first number needs changes nothing.
  digits_spare : (n a b : ℕ) → a ≤ n → digits rest digit (suc n) a b ≡ digits rest digit n a b
  digits_spare zero zero b h = refl
  digits_spare zero (suc a) b h = absurd (omega arith)
  digits_spare (suc n) zero b h = refl
  digits_spare (suc n) (suc a) b h = rw (digits_spare n (suc a / 2) (b / 2) (omega arith))

  digits_enough : (n k a b : ℕ) → a ≤ k → digits rest digit (n + k) a b ≡ digits rest digit k a b
  digits_enough zero k a b h = let e : zero + k ≡ k = omega arith in rw e
  digits_enough (suc n) k a b h =
      let e : suc n + k ≡ suc (n + k) = omega arith in
      rw e (digits_spare (n + k) a b (omega arith) ∙ digits_enough n k a b h)

  pub digits_step :
      (a b : ℕ)
      → digits rest digit (suc a) (suc a) b
        ≡ digits rest digit (suc a / 2) (suc a / 2) (b / 2) * 2 + digit (suc a % 2) (b % 2)
  digits_step a b =
      let split : (a + 0) - suc a / 2 + suc a / 2 ≡ a = omega arith in
      let same =
        digits_enough ((a + 0) - suc a / 2) (suc a / 2) (suc a / 2) (b / 2) (omega arith) in
      omega (arith, rw split at same)

pub bit_and_step : (a b : ℕ) → bit_and a b ≡ bit_and (a / 2) (b / 2) * 2 + min (a % 2) (b % 2)
bit_and_step zero b = omega (arith, bit_and-bitwise 0 b, bit_and-bitwise 0 (b / 2))
bit_and_step (suc a) b = omega (
  arith,
  bit_and-bitwise (suc a) b,
  bit_and-bitwise (suc a / 2) (b / 2),
  digits_step (λ _. 0) min a b,
)

pub bit_or_step : (a b : ℕ) → bit_or a b ≡ bit_or (a / 2) (b / 2) * 2 + max (a % 2) (b % 2)
bit_or_step zero b = omega (arith, bit_or-bitwise 0 b, bit_or-bitwise 0 (b / 2))
bit_or_step (suc a) b = omega (
  arith,
  bit_or-bitwise (suc a) b,
  bit_or-bitwise (suc a / 2) (b / 2),
  digits_step (λ y. y) max a b,
)
