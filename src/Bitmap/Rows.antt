-- ===== src/Bitmap/Rows.antt =====
-- Bitmaps: what the changes of one bit and of one byte do to the bits of the rows.
use native.Mathlib.Nat.{mod-lt}
use sigmod_runtime_engine.Base.{
  ℕ, zero, suc, ◌/◌, ◌%◌, ◌^◌, ◌≤◌, ◌<◌, bit_and, bit_or, ◌≡◌, refl, sym, ◌∙◌, ◌≢◌, inl, inr, Bool,
  true, false, not, ◌&&◌, ◌||◌, List, [], ◌∷◌, arith, ltb, ◌==◌, if◌then◌else◌, ltb→lt, ltb→le,
  ==→eq, ==→ne, Bool-cases, length, get_or, set, replicate, length-set, length-replicate,
  get_or-replicate_self, get_or-set_self, get_or-set_ne, u8, shl,
}
use sigmod_runtime_engine.Bitmap.{has_bit, bit_of, complement}
use sigmod_runtime_engine.Bitmap.Digits.{
  digit, digit-le, digit-bit_and, digit-bit_or, digit_pow, digit_zero, has_bit-digit, digit-mod,
  digit-complement,
}

has_bit-true : (x k : ℕ) → has_bit x k ≡ true → digit x k ≡ 1
has_bit-true x k h = ==→eq _ _ (sym (has_bit-digit x k) ∙ h)

has_bit-false : (x k : ℕ) → has_bit x k ≡ false → digit x k ≡ 0
has_bit-false x k h =
    let ne = ==→ne (digit x k) 1 (sym (has_bit-digit x k) ∙ h) in omega (arith, digit-le x k)

-- `&`, `|` and `~` of bytes, on a bit.
pub has_bit-bit_and : (a b k : ℕ) → has_bit (bit_and a b) k ≡ (has_bit a k && has_bit b k)
has_bit-bit_and a b k =
    rw (has_bit-digit (bit_and a b) k, digit-bit_and a b k, has_bit-digit a k, has_bit-digit b k)
      (ground (arith, digit-le a k, digit-le b k))

pub has_bit-bit_or : (a b k : ℕ) → has_bit (bit_or a b) k ≡ (has_bit a k || has_bit b k)
has_bit-bit_or a b k =
    rw (has_bit-digit (bit_or a b) k, digit-bit_or a b k, has_bit-digit a k, has_bit-digit b k)
      (ground (arith, digit-le a k, digit-le b k))

pub has_bit-complement : (x k : ℕ) → x < 256 → k < 8 → has_bit (complement x) k ≡ not (has_bit x k)
has_bit-complement x k h l =
    rw (has_bit-digit (complement x) k, digit-complement x k h l, has_bit-digit x k)
      (ground (arith, digit-le x k))

pub has_bit-u8 : (x k : ℕ) → k < 8 → has_bit (u8 x) k ≡ has_bit x k
has_bit-u8 x k l = rw (has_bit-digit (u8 x) k, digit-mod 8 x k l, has_bit-digit x k) refl

has_bit-shl_one : (j k : ℕ) → has_bit (shl 1 j) k ≡ (j == k)
has_bit-shl_one j k =
    let whole : shl 1 j ≡ 2 ^ j = omega arith in
    rw (has_bit-digit (shl 1 j) k, whole, digit_pow j k) (ground arith)

pub has_bit_zero : (k : ℕ) → has_bit 0 k ≡ false
has_bit_zero k = rw (has_bit-digit 0 k, digit_zero k) refl

-- `static_cast<uint8_t>(test)`.
abbrev pub flag : Bool → ℕ
flag test = if test then 1 else 0

pub has_bit-shl : (test : Bool) (j k : ℕ) → has_bit (shl (flag test) j) k ≡ ((j == k) && test)
has_bit-shl true j k = ground (arith, has_bit-shl_one j k)
has_bit-shl false j k =
    let none_set : shl 0 j ≡ 0 = omega arith in rw (none_set, has_bit_zero k) (ground arith)

pub bit_of-zeros : (n row : ℕ) → bit_of (replicate n 0) row ≡ false
unfolding bit_of
bit_of-zeros n row =
    let zero_byte : ℕ = 0 in
    rw (get_or-replicate_self n (row / 8) zero_byte, has_bit_zero (row % 8)) refl

-- A row's bit in a bitmap one byte of which was written.
module _ (bitmap : List ℕ) (b value row : ℕ) where
  pub bit_of-set_self :
      b < length bitmap → row / 8 ≡ b → bit_of (set bitmap b value) row ≡ has_bit value (row % 8)
  unfolding bit_of
  bit_of-set_self h e = rw (e, get_or-set_self bitmap b value 0 h) refl

  pub bit_of-set_other : b ≢ row / 8 → bit_of (set bitmap b value) row ≡ bit_of bitmap row
  unfolding bit_of
  bit_of-set_other h = rw (get_or-set_ne bitmap b (row / 8) value 0 h) refl

-- One bit or-ed into a byte.
pub bit_of-or_bit :
    (bitmap : List ℕ) (i row word : ℕ) (test : Bool)
    → i / 8 < length bitmap
    → ((k : ℕ) → has_bit word k ≡ ((i % 8 == k) && test))
    → bit_of (set bitmap (i / 8) (u8 (bit_or (get_or bitmap (i / 8) 0) word))) row
      ≡ (bit_of bitmap row || ((i == row) && test))
unfolding bit_of
bit_of-or_bit bitmap i row word test h word_bits = elim (Bool-cases (i / 8 == row / 8)) [
  | inl same ↦
      let e = ==→eq (i / 8) (row / 8) same in
      let here =
        bit_of-set_self bitmap (i / 8) (u8 (bit_or (get_or bitmap (i / 8) 0) word)) row h (sym e) in
      let low : row % 8 < 8 = mod-lt row (omega arith) in
      let old = get_or bitmap (i / 8) 0 in
      let same_bit : (i % 8 == row % 8) ≡ (i == row) = ground arith in
      here
      ∙ has_bit-u8 (bit_or old word) (row % 8) low
      ∙ has_bit-bit_or old word (row % 8)
      ∙ rw (word_bits (row % 8), same_bit, e) refl
  | inr other ↦
      let ne = ==→ne (i / 8) (row / 8) other in
      let off : (i == row) ≡ false = ground arith in
      rw (bit_of-set_other bitmap (i / 8) _ row ne, off) (ground arith)
]

-- A vector of `size` bytes.
abbrev pub IsBitmap : ℕ → List ℕ → Type 0
IsBitmap size bitmap = (length bitmap ≡ size) × ((i : ℕ) → get_or bitmap i 0 < 256)

pub zeros-IsBitmap : (size : ℕ) → IsBitmap size (replicate size 0)
zeros-IsBitmap size =
    let zero_byte : ℕ = 0 in
    (length-replicate size 0, λ i. rw (get_or-replicate_self size i zero_byte) (omega arith))

get_or-set_outside :
    (bitmap : List ℕ) (b i value : ℕ)
    → length bitmap ≤ b
    → get_or (set bitmap b value) i 0 ≡ get_or bitmap i 0
get_or-set_outside [] b i value h = refl
get_or-set_outside (x ∷ bitmap) zero i value h = absurd (omega arith)
get_or-set_outside (x ∷ bitmap) (suc b) zero value h = refl
get_or-set_outside (x ∷ bitmap) (suc b) (suc i) value h =
    get_or-set_outside bitmap b i value (omega arith)

-- A byte is written.
pub set-IsBitmap :
    (size : ℕ) (bitmap : List ℕ) (b value : ℕ)
    → value < 256
    → IsBitmap size bitmap
    → IsBitmap size (set bitmap b value)
set-IsBitmap size bitmap b value h (same, bytes) = (
  length-set bitmap b value ∙ same,
  λ i. elim (Bool-cases (b == i)) [
    | inl here ↦ elim (Bool-cases (ltb b (length bitmap))) [
      | inl inside ↦
          rw (sym (==→eq b i here), get_or-set_self bitmap b value 0 (ltb→lt _ _ inside)) h
      | inr outside ↦ rw (get_or-set_outside bitmap b i value (ltb→le _ _ outside)) (bytes i)
    ]
    | inr other ↦ rw (get_or-set_ne bitmap b i value 0 (==→ne b i other)) (bytes i)
  ],
)

pub u8-lt : (x : ℕ) → u8 x < 256
u8-lt x = mod-lt x (omega arith)
