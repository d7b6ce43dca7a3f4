-- ===== src/Bits.antt =====
-- Laws of the bitwise operations on words of any width, which the filters and masks rest on.
mod Digits
use Prim.Native.Nat.{bit_and, bit_or, bit_and-bitwise}
pub use Digits.{bit_and_step, bit_or_step}
use native.Mathlib.Nat.{
  pow-suc, one-le-pow, div-add-mod, mod-lt, mod-eq_of_lt, mul-add-mod_self_left,
}
use sigmod_runtime_engine.Base.{
  ℕ, zero, suc, ◌+◌, ◌-◌, ◌*◌, ◌/◌, ◌%◌, ◌^◌, ◌≤◌, ◌<◌, ◌≡◌, refl, ap, ◌∙◌, arith,
}

-- Every bit of `t` is set in `a`.
abbrev pub Covers : ℕ → ℕ → Type 0
Covers a t = bit_and a t ≡ t

bit_or-Covers_upto : (n a t : ℕ) → a ≤ n → t ≤ n → Covers (bit_or a t) t
bit_or-Covers_upto zero zero zero p q = refl
bit_or-Covers_upto zero zero (suc t) p q = absurd (omega arith)
bit_or-Covers_upto zero (suc a) t p q = absurd (omega arith)
bit_or-Covers_upto (suc n) a t p q =
    let high = bit_or-Covers_upto n (a / 2) (t / 2) (omega arith) (omega arith) in
    let low = bit_or_step a t in
    let half : bit_or a t / 2 ≡ bit_or (a / 2) (t / 2) = omega arith in
    let step = bit_and_step (bit_or a t) t in omega (arith, rw half at step)

-- What is or-ed in is covered.
pub bit_or-Covers : (a t : ℕ) → Covers (bit_or a t) t
bit_or-Covers a t = bit_or-Covers_upto (a + t) a t (omega arith) (omega arith)

bit_or-keeps_upto : (n a u t : ℕ) → a ≤ n → u ≤ n → t ≤ n → Covers a t → Covers (bit_or a u) t
bit_or-keeps_upto zero zero zero zero p q r h = refl
bit_or-keeps_upto zero zero zero (suc t) p q r h = absurd (omega arith)
bit_or-keeps_upto zero zero (suc u) t p q r h = absurd (omega arith)
bit_or-keeps_upto zero (suc a) u t p q r h = absurd (omega arith)
bit_or-keeps_upto (suc n) a u t p q r h =
    let above = bit_and_step a t in
    let high =
      bit_or-keeps_upto n (a / 2) (u / 2) (t / 2) (omega arith) (omega arith) (omega arith)
        (omega arith) in
    let low = bit_or_step a u in
    let half : bit_or a u / 2 ≡ bit_or (a / 2) (u / 2) = omega arith in
    let step = bit_and_step (bit_or a u) t in omega (arith, rw half at step)

-- What was covered stays covered.
pub bit_or-keeps : (a u t : ℕ) → Covers a t → Covers (bit_or a u) t
bit_or-keeps a u t h =
    bit_or-keeps_upto (a + u + t) a u t (omega arith) (omega arith) (omega arith) h

bit_and-zero_upto : (n a : ℕ) → a ≤ n → bit_and a 0 ≡ 0
bit_and-zero_upto zero zero p = refl
bit_and-zero_upto zero (suc a) p = absurd (omega arith)
bit_and-zero_upto (suc n) a p =
    omega (arith, bit_and_step a 0, bit_and-zero_upto n (a / 2) (omega arith))

pub bit_and_zero : (a : ℕ) → bit_and a 0 ≡ 0
bit_and_zero a = bit_and-zero_upto a a (omega arith)

pub mod_double : (m a : ℕ) → 0 < m → a % (2 * m) ≡ a / 2 % m * 2 + a % 2
mod_double m a pos =
    let low : ℕ = a / 2 % m * 2 + a % 2 in
    let split : a ≡ 2 * m * (a / 2 / m) + low = omega (arith, div-add-mod (a / 2) m) in
    let fits : low < 2 * m = omega (arith, mod-lt (a / 2) pos) in
    ap (λ n. n % (2 * m)) split ∙ mul-add-mod_self_left (2 * m) (a / 2 / m) low ∙ mod-eq_of_lt fits

-- A mask of `k` ones takes the low `k` bits.
pub bit_and_mask : (k a : ℕ) → bit_and a (2 ^ k - 1) ≡ a % 2 ^ k
bit_and_mask zero a = omega (arith, bit_and-zero_upto a a (omega arith))
bit_and_mask (suc k) a =
    let two : 2 ^ suc k ≡ 2 * 2 ^ k = omega (arith, pow-suc 2 k) in
    let pos : 0 < 2 ^ k = one-le-pow k 2 (omega arith) in
    let half : (2 ^ suc k - 1) / 2 ≡ 2 ^ k - 1 = omega arith in
    let step = rw half at (bit_and_step a (2 ^ suc k - 1)) in
    omega (arith, step, bit_and_mask k (a / 2), mod_double (2 ^ k) a pos, ap (λ (n : ℕ). a % n) two)

bit_or-lt_step : (k a b : ℕ) → a < 2 ^ k → b < 2 ^ k → bit_or a b < 2 ^ k
bit_or-lt_step zero zero zero p q = omega arith
bit_or-lt_step zero zero (suc b) p q = absurd (omega arith)
bit_or-lt_step zero (suc a) b p q = absurd (omega arith)
bit_or-lt_step (suc k) a b p q =
    let two = pow-suc 2 k in
    omega (arith, bit_or_step a b, bit_or-lt_step k (a / 2) (b / 2) (omega arith) (omega arith))

-- `|` stays within the width of its operands.
pub bit_or-lt : (k a b : ℕ) → a < 2 ^ k → b < 2 ^ k → bit_or a b < 2 ^ k
bit_or-lt k a b p q = bit_or-lt_step k a b p q

bit_and_self_upto : (n a : ℕ) → a ≤ n → bit_and a a ≡ a
bit_and_self_upto zero zero p = refl
bit_and_self_upto zero (suc a) p = absurd (omega arith)
bit_and_self_upto (suc n) a p =
    omega (arith, bit_and_step a a, bit_and_self_upto n (a / 2) (omega arith))

pub bit_and_self : (a : ℕ) → bit_and a a ≡ a
bit_and_self a = bit_and_self_upto a a (omega arith)

bit_and-le_upto : (n a b : ℕ) → a ≤ n → bit_and a b ≤ a
bit_and-le_upto zero zero b p = omega (arith, bit_and_step 0 b, bit_and-bitwise 0 b)
bit_and-le_upto zero (suc a) b p = absurd (omega arith)
bit_and-le_upto (suc n) a b p =
    omega (arith, bit_and_step a b, bit_and-le_upto n (a / 2) (b / 2) (omega arith))

pub bit_and-le : (a b : ℕ) → bit_and a b ≤ a
bit_and-le a b = bit_and-le_upto a a b (omega arith)

-- `x & (x - 1)` of an even number is that of its half, doubled; of an odd one, it drops the 1.
pub clear_lowest_even : (y : ℕ) → 0 < y → bit_and (2 * y) (2 * y - 1) ≡ bit_and y (y - 1) * 2
clear_lowest_even y pos =
    let first : 2 * y / 2 ≡ y = omega arith in
    let second : (2 * y - 1) / 2 ≡ y - 1 = omega arith in
    let step = rw (first, second) at (bit_and_step (2 * y) (2 * y - 1)) in omega (arith, step)

pub clear_lowest_odd : (y : ℕ) → bit_and (2 * y + 1) (2 * y + 1 - 1) ≡ y * 2
clear_lowest_odd y =
    let first : (2 * y + 1) / 2 ≡ y = omega arith in
    let second : (2 * y + 1 - 1) / 2 ≡ y = omega arith in
    let step = rw (first, second) at (bit_and_step (2 * y + 1) (2 * y + 1 - 1)) in
    omega (arith, step, bit_and_self y)
