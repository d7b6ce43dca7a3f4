-- ===== src/Bitmap/Push.antt =====
-- Bitmaps that grow by a row, as the columns' `bitmap_push_back` has them grow.
use native.Mathlib.Nat.{mod-lt, pow-le-pow_right}
use sigmod_runtime_engine.Base.{
  ℕ, zero, suc, ◌+◌, ◌/◌, ◌%◌, ◌^◌, ◌≤◌, ◌<◌, bit_and, bit_or, ◌≡◌, refl, sym, ap, ◌∙◌, inl, inr,
  Bool, true, false, not, List, [], ◌∷◌, ◌++◌, arith, ltb, ◌==◌, if◌then◌else◌, ltb→lt, ltb→le,
  ==→eq, ==→ne, Bool-cases, length, get_or, set, length-append, get_or-append_left,
  get_or-append_right, u8, shl,
}
use sigmod_runtime_engine.Bitmap.{has_bit, bit_of, complement}
use sigmod_runtime_engine.Bitmap.Rows.{
  flag, has_bit-bit_and, has_bit-complement, has_bit-shl, bit_of-or_bit, bit_of-set_self,
  bit_of-set_other, IsBitmap, set-IsBitmap, u8-lt,
}
use sigmod_runtime_engine.Bits.{bit_and-le}

-- The byte of row `n` after its bit is written.
abbrev pub pushed_byte : List ℕ → ℕ → Bool → ℕ
pushed_byte bitmap n not_null =
    let old = get_or bitmap (n / 8) 0 in
    if not_null then u8 (bit_or old (shl 1 (n % 8))) else bit_and old (complement (shl 1 (n % 8)))

abbrev pub pushed : List ℕ → ℕ → Bool → List ℕ
pushed bitmap n not_null =
    if ltb (length bitmap) (n / 8 + 1)
    then bitmap ++ ((if not_null then 1 else 0) ∷ [])
    else set bitmap (n / 8) (pushed_byte bitmap n not_null)

bit_mask-lt : (b : ℕ) → b < 8 → shl 1 b < 256
bit_mask-lt b h =
    let two : 0 < 2 = omega arith in
    let top : b ≤ 7 = omega arith in
    let bound : 2 ^ b ≤ 2 ^ 7 = pow-le-pow_right two top in omega arith

flag_bit : (b : Bool) → has_bit (flag b) 0 ≡ b
unfolding has_bit
flag_bit true = refl
flag_bit false = refl

get_or-append_byte :
    (bitmap : List ℕ) (x i : ℕ)
    → ((j : ℕ) → get_or bitmap j 0 < 256)
    → x < 256
    → get_or (bitmap ++ (x ∷ [])) i 0 < 256
get_or-append_byte [] x zero bytes h = h
get_or-append_byte [] x (suc i) bytes h = omega arith
get_or-append_byte (y ∷ bitmap) x zero bytes h = bytes 0
get_or-append_byte (y ∷ bitmap) x (suc i) bytes h =
    get_or-append_byte bitmap x i (λ j. bytes (suc j)) h

-- One bit cleared in a byte.
bit_of-clear_bit :
    (bitmap : List ℕ) (n row : ℕ)
    → n / 8 < length bitmap
    → bit_of
        (set bitmap (n / 8) (bit_and (get_or bitmap (n / 8) 0) (complement (shl 1 (n % 8)))))
        row
      ≡ (if row == n then false else bit_of bitmap row)
unfolding bit_of
bit_of-clear_bit bitmap n row h = elim (Bool-cases (n / 8 == row / 8)) [
  | inl same ↦
      let e = ==→eq (n / 8) (row / 8) same in
      let old = get_or bitmap (n / 8) 0 in
      let low : row % 8 < 8 = mod-lt row (omega arith) in
      let n_low : n % 8 < 8 = mod-lt n (omega arith) in
      let here =
        bit_of-set_self bitmap (n / 8) (bit_and old (complement (shl 1 (n % 8)))) row h (sym e) in
      let mask =
        has_bit-complement (shl 1 (n % 8)) (row % 8) (bit_mask-lt (n % 8) n_low) low
        ∙ ap not (has_bit-shl true (n % 8) (row % 8)) in
      let same_bit : (n % 8 == row % 8) ≡ (row == n) = ground arith in
      here
      ∙ has_bit-bit_and old (complement (shl 1 (n % 8))) (row % 8)
      ∙ rw (mask, same_bit, e) (ground arith)
  | inr other ↦
      let ne = ==→ne (n / 8) (row / 8) other in
      let off : (row == n) ≡ false = ground arith in
      rw (bit_of-set_other bitmap (n / 8) _ row ne, off) refl
]

module _ (n : ℕ) (bitmap : List ℕ) (wf : IsBitmap ((n + 7) / 8) bitmap) where
  pushed_byte-lt : (not_null : Bool) → pushed_byte bitmap n not_null < 256
  pushed_byte-lt true = u8-lt (bit_or (get_or bitmap (n / 8) 0) (shl 1 (n % 8)))
  pushed_byte-lt false =
      omega (arith, bit_and-le (get_or bitmap (n / 8) 0) (complement (shl 1 (n % 8))), wf.1 (n / 8))

  append-IsBitmap :
      (not_null : Bool) → IsBitmap (length bitmap + 1) (bitmap ++ (flag not_null ∷ []))
  append-IsBitmap not_null = (
    length-append bitmap (flag not_null ∷ []),
    λ i. get_or-append_byte bitmap (flag not_null) i wf.1 (ground arith),
  )

  pub pushed-IsBitmap : (not_null : Bool) → IsBitmap ((n + 8) / 8) (pushed bitmap n not_null)
  pushed-IsBitmap not_null = elim (Bool-cases (ltb (length bitmap) (n / 8 + 1))) [
    | inl grows ↦
        let size : (n + 8) / 8 ≡ length bitmap + 1 = omega (arith, wf.0, ltb→lt _ _ grows) in
        rw (grows, size) (append-IsBitmap not_null)
    | inr stays ↦
        let size : (n + 8) / 8 ≡ (n + 7) / 8 = omega (arith, wf.0, ltb→le _ _ stays) in
        rw (stays, size) (set-IsBitmap ((n + 7) / 8) bitmap (n / 8) _ (pushed_byte-lt not_null) wf)
  ]

  grown :
      (not_null : Bool) (row : ℕ)
      → row ≤ n
      → length bitmap < n / 8 + 1
      → bit_of (bitmap ++ (flag not_null ∷ [])) row
        ≡ (if row == n then not_null else bit_of bitmap row)
  unfolding bit_of
  grown not_null row h grows = elim (Bool-cases (row == n)) [
    | inl same ↦
        let e = ==→eq row n same in
        let byte : row / 8 ≡ length bitmap + 0 = omega (arith, wf.0) in
        let bit : row % 8 ≡ 0 = omega (arith, wf.0) in
        rw (same, byte, bit, get_or-append_right bitmap (flag not_null ∷ []) 0 0)
          (flag_bit not_null)
    | inr other ↦
        let before : row / 8 < length bitmap = omega (arith, wf.0, ==→ne row n other) in
        rw (other, get_or-append_left bitmap (flag not_null ∷ []) (row / 8) 0 before) refl
  ]

  written :
      (not_null : Bool) (row : ℕ)
      → n / 8 < length bitmap
      → bit_of (set bitmap (n / 8) (pushed_byte bitmap n not_null)) row
        ≡ (if row == n then not_null else bit_of bitmap row)
  written true row h =
      bit_of-or_bit bitmap n row (shl 1 (n % 8)) true h (has_bit-shl true (n % 8)) ∙ ground arith
  written false row h = bit_of-clear_bit bitmap n row h

  -- The row's bit is the one that was pushed, and the rows before it keep theirs.
  pub bit_of-pushed :
      (not_null : Bool) (row : ℕ)
      → row ≤ n
      → bit_of (pushed bitmap n not_null) row ≡ (if row == n then not_null else bit_of bitmap row)
  unfolding bit_of
  bit_of-pushed not_null row h = elim (Bool-cases (ltb (length bitmap) (n / 8 + 1))) [
    | inl grows ↦ rw grows (grown not_null row h (ltb→lt _ _ grows))
    | inr stays ↦ rw stays (written not_null row (omega (arith, ltb→le _ _ stays)))
  ]
