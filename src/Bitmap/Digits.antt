-- ===== src/Bitmap/Digits.antt =====
-- The binary digits of `&`, `|` and `~`, one at a time.
use native.Mathlib.Nat.{pow-suc, one-le-pow}
use sigmod_runtime_engine.Base.{
  ℕ, zero, suc, ◌-◌, ◌*◌, ◌/◌, ◌%◌, ◌^◌, ◌≤◌, ◌<◌, min, max, bit_and, bit_or, ◌≡◌, refl, sym, ap,
  ◌∙◌, ◌≢◌, inl, inr, not, arith, ◌==◌, if◌then◌else◌, ==→eq, ==→ne, ne→==, Bool-cases, shl,
}
use sigmod_runtime_engine.Bits.{bit_and_step, bit_or_step, bit_and_zero, mod_double}
use sigmod_runtime_engine.Bitmap.{has_bit, complement}

unfoldable pub digit : ℕ → ℕ → ℕ
digit x zero = x % 2
digit x (suc k) = digit (x / 2) k

pub digit-le : (x k : ℕ) → digit x k ≤ 1
unfolding digit
digit-le x zero = omega arith
digit-le x (suc k) = digit-le (x / 2) k

pub digit-bit_and : (a b k : ℕ) → digit (bit_and a b) k ≡ min (digit a k) (digit b k)
unfolding digit
digit-bit_and a b zero = omega (arith, bit_and_step a b)
digit-bit_and a b (suc k) =
    let half : bit_and a b / 2 ≡ bit_and (a / 2) (b / 2) = omega (arith, bit_and_step a b) in
    rw half (digit-bit_and (a / 2) (b / 2) k)

pub digit-bit_or : (a b k : ℕ) → digit (bit_or a b) k ≡ max (digit a k) (digit b k)
unfolding digit
digit-bit_or a b zero = omega (arith, bit_or_step a b)
digit-bit_or a b (suc k) =
    let half : bit_or a b / 2 ≡ bit_or (a / 2) (b / 2) = omega (arith, bit_or_step a b) in
    rw half (digit-bit_or (a / 2) (b / 2) k)

pub digit_zero : (k : ℕ) → digit 0 k ≡ 0
unfolding digit
digit_zero zero = refl
digit_zero (suc k) = digit_zero k

-- The digits of a power of two: one 1.
pub digit_pow : (n k : ℕ) → digit (2 ^ n) k ≡ (if n == k then 1 else 0)
unfolding digit
digit_pow zero zero = refl
digit_pow zero (suc k) = ground (arith, digit_zero k)
digit_pow (suc n) zero = grind (arith, pow-suc 2 n)
digit_pow (suc n) (suc k) =
    let half : 2 ^ suc n / 2 ≡ 2 ^ n = omega (arith, pow-suc 2 n) in
    rw half (ground (arith, digit_pow n k))

bit_and_pow : (x k : ℕ) → bit_and x (2 ^ k) ≡ digit x k * 2 ^ k
unfolding digit
bit_and_pow x zero = omega (arith, bit_and_step x 1, bit_and_zero (x / 2))
bit_and_pow x (suc k) =
    let two = pow-suc 2 k in
    let half : 2 ^ suc k / 2 ≡ 2 ^ k = omega (arith, two) in
    let step = rw half at (bit_and_step x (2 ^ suc k)) in
    omega (arith, step, bit_and_pow (x / 2) k, two, ap (λ (p : ℕ). digit (x / 2) k * p) two)

-- `has_bit` reads the digit.
pub has_bit-digit : (x k : ℕ) → has_bit x k ≡ (digit x k == 1)
unfolding has_bit
has_bit-digit x k =
    let whole : shl 1 k ≡ 2 ^ k = omega arith in
    let pos = one-le-pow k 2 (omega arith) in
    elim (Bool-cases (digit x k == 1)) [
      | inl one ↦
          let d = ==→eq _ _ one in
          let value = bit_and_pow x k in
          let same : digit x k * 2 ^ k ≡ 1 * 2 ^ k = ap (λ (d : ℕ). d * 2 ^ k) (==→eq _ _ one) in
          let set_bit : bit_and x (shl 1 k) ≢ 0 = λ e. omega (arith, rw whole at e) in
          rw (one, ne→== _ _ set_bit, not)
      | inr other ↦
          let none_of : digit x k ≡ 0 = omega (arith, digit-le x k, ==→ne _ _ other) in
          let same : digit x k * 2 ^ k ≡ 0 * 2 ^ k = ap (λ (d : ℕ). d * 2 ^ k) none_of in
          let clear : bit_and x (shl 1 k) ≡ 0 =
            ap (bit_and x) whole ∙ (omega (arith, bit_and_pow x k)) in
          rw (other, clear, not)
    ]

-- Cutting off high digits keeps the low ones.
pub digit-mod : (n x k : ℕ) → k < n → digit (x % 2 ^ n) k ≡ digit x k
unfolding digit
digit-mod zero x k h = absurd (omega arith)
digit-mod (suc n) x zero h =
    let two : 2 ^ suc n ≡ 2 * 2 ^ n = omega (arith, pow-suc 2 n) in
    omega (arith, mod_double (2 ^ n) x (one-le-pow n 2 (omega arith)), ap (λ (m : ℕ). x % m) two)
digit-mod (suc n) x (suc k) h =
    let two : 2 ^ suc n ≡ 2 * 2 ^ n = omega (arith, pow-suc 2 n) in
    let cut = mod_double (2 ^ n) x (one-le-pow n 2 (omega arith)) in
    let half : x % 2 ^ suc n / 2 ≡ x / 2 % 2 ^ n = omega (arith, ap (λ (m : ℕ). x % m) two) in
    rw half (digit-mod n (x / 2) k (omega arith))

pub digit_flip : (n x k : ℕ) → x < 2 ^ n → k < n → digit (2 ^ n - 1 - x) k ≡ 1 - digit x k
unfolding digit
digit_flip zero x k h l = absurd (omega arith)
digit_flip (suc n) x zero h l = omega (arith, pow-suc 2 n)
digit_flip (suc n) x (suc k) h l =
    let two : 2 ^ suc n ≡ 2 * 2 ^ n = omega (arith, pow-suc 2 n) in
    let half : (2 ^ suc n - 1 - x) / 2 ≡ 2 ^ n - 1 - x / 2 = omega arith in
    rw half (digit_flip n (x / 2) k (omega arith) (omega arith))

pub digit-complement : (x k : ℕ) → x < 256 → k < 8 → digit (complement x) k ≡ 1 - digit x k
unfolding complement
digit-complement x k h l = digit_flip 8 x k h l

-- A number all of whose digits are in the other one is kept by `&`.
pub bit_and_same :
    (n x a : ℕ) → a < 2 ^ n → (inside : (k : ℕ) → k < n → digit a k ≤ digit x k) → bit_and x a ≡ a
unfolding digit
bit_and_same zero x a h inside =
    let none_of : a ≡ 0 = omega arith in ap (bit_and x) none_of ∙ bit_and_zero x ∙ sym none_of
bit_and_same (suc n) x a h inside =
    let half =
      bit_and_same n (x / 2) (a / 2) (omega (arith, pow-suc 2 n))
        (λ k l. inside (suc k) (omega arith)) in
    omega (arith, bit_and_step x a, half, inside 0 (omega arith))

-- A number has no digits beyond its size.
pub digit_beyond : (k x : ℕ) → x < 2 ^ k → digit x k ≡ 0
unfolding digit
digit_beyond zero x h = omega arith
digit_beyond (suc k) x h = digit_beyond k (x / 2) (omega (arith, pow-suc 2 k))
